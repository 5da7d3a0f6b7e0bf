-- ===== src/Scripts/VideoModes/Polls.antt =====
-- What a preview without errors and the polls of a completed task have been.
use mathlib.Core.Path.{subst}
use ai_generation_api.Prelude.{
  ◌∙◌, ℕ, zero, suc, ◌+◌, ◌*◌, ◌≤◌, ◌<◌, String, ◌<>◌, ◌≡◌, ◌↔◌, refl, true, false, Option, none,
  some, List, [], ltb, ◌⊎◌, Bool-cases, inl, inr, arith, ==_self, ◌==◌, string_eq,
}
use ai_generation_api.Exec.{ok, Exec}
use ai_generation_api.Value
use ai_generation_api.Value.{Value, Fields, null, bool, int, float, str, list, dict}
use ai_generation_api.Scripts.VideoModes.{Reader, equals, text_of}
use ai_generation_api.Scripts.VideoModes.Files.{unless-nil_iff, equals-true_iff}
use ai_generation_api.Scripts.VideoModes.Client.{
  is_unhashable, Reply, http_error, failure, answer, Api, with_dict, holds, preview_payload,
  preview_url, on_preview, create_payload, on_status, on_poll, task_url, poll_task,
}

-- A status that lets the polls go on.
abbrev pub IsPending : Option Value → Type 0
IsPending status =
    (is_unhashable status ≡ false)
    × (equals status "completed" ≡ false)
    × (equals status "failed" ≡ false)

pub holds-true_iff :
    (o : Option Value) → (holds o ≡ true) ↔ ((v : Value) × ((o ≡ some v) × (Value.truthy v ≡ true)))
holds-true_iff none = (λ h. cc, λ (v, (h, t)). cc)
holds-true_iff (some v) =
    (λ h. (v, (refl, h)), λ (w, (h, t)). let same : w ≡ v = cc in rw (← same) t)

pub with_dict_iff :
    {S : Type 0} (v : Value) (f : Fields → Exec S (List String)) (s s' : S)
    → (with_dict v f s ≡ (ok [], s')) ↔ ((d : Fields) × ((v ≡ dict d) × (f d s ≡ (ok [], s'))))
with_dict_iff (dict d) f s s' =
    (λ h. (d, (refl, h)), λ (e, (h, rest)). let same : e ≡ d = cc in rw (← same) rest)
with_dict_iff null f s s' = (λ h. cc, λ (d, (h, rest)). cc)
with_dict_iff (bool _) f s s' = (λ h. cc, λ (d, (h, rest)). cc)
with_dict_iff (int _) f s s' = (λ h. cc, λ (d, (h, rest)). cc)
with_dict_iff (float _) f s s' = (λ h. cc, λ (d, (h, rest)). cc)
with_dict_iff (str _) f s s' = (λ h. cc, λ (d, (h, rest)). cc)
with_dict_iff (list _) f s s' = (λ h. cc, λ (d, (h, rest)). cc)

module _ (r : Reader) (api : Api) (base_url api_key image_url : String) where
  -- A preview that gave a prompt.
  abbrev pub Previewed : String → api.State → api.State → Type 0
  Previewed mode s s' =
      (d : Fields) × ((v : Value) × ((api.post (preview_url r api base_url api_key image_url mode)
              api_key (preview_payload r api base_url api_key image_url) s
            ≡ (answer (dict d), s'))
          × ((Value.get d "prompt" ≡ some v) × (Value.truthy v ≡ true))))

  pub on_preview_iff :
      (mode : String) (p : Reply × api.State) (s' : api.State)
      → (on_preview r api base_url api_key image_url mode p.0 p.1 ≡ (ok [], s')) ↔ (
          (d : Fields) × ((v : Value) × ((p ≡ (answer (dict d), s'))
              × ((Value.get d "prompt" ≡ some v) × (Value.truthy v ≡ true)))))
  on_preview_iff mode (http_error code e, t) s' = (λ h. cc, λ (d, (v, (h, rest))). cc)
  on_preview_iff mode (failure e, t) s' = (λ h. cc, λ (d, (v, (h, rest))). cc)
  on_preview_iff mode (answer v, t) s' =
      let dicts = with_dict_iff v _ t s' in
      let prompt = λ (d : Fields).
        unless-nil_iff (holds (Value.get d "prompt")) (mode <> ": preview returned empty prompt")
          (holds-true_iff (Value.get d "prompt")) in
      (
        λ h.
            let (d, (same, quiet)) = dicts.0 h in
            let (w, good) = (prompt d).0 cc in (d, (w, (cc, good))),
        λ (d, (w, (h, good))).
            let none_left = (prompt d).1 (w, good) in dicts.1 (d, (cc, rw none_left cc)),
      )

  module _ (task_id : String) (deadline : ℕ) where
    -- A poll of the task, before the deadline, that answers with a dict.
    abbrev pub Asked : api.State → Fields → api.State → Type 0
    Asked s d t =
        (api.time s < deadline)
        × (api.get (task_url r api base_url api_key image_url task_id) api_key s
            ≡ (answer (dict d), t))

    -- Polls that find the task pending, with sleeps, and then one that finds it completed.
    pub data Polled : api.State → api.State → Type 0 where
      finished :
          {s s' : api.State} (d : Fields)
          → Asked s d s'
          → Value.get d "status" ≡ some (str "completed")
          → Polled s s'
      waiting :
          {s s' : api.State} (d : Fields) (t : api.State)
          → Asked s d t
          → IsPending (Value.get d "status")
          → Polled (api.sleep 3000 t) s'
          → Polled s s'

  module _ (wait_seconds : ℕ) where
    -- The answer has a task's id, and polls from then on come to the completed task.
    abbrev pub Watched : Option Value → api.State → api.State → Type 0
    Watched o s s' =
        (v : Value) × ((o ≡ some v)
          × ((Value.truthy v ≡ true)
              × Polled (text_of r v) (api.time s + wait_seconds * 1000) s s'))

    -- A task was created, and its polls came to a completed task before the deadline.
    abbrev pub Completed : String → api.State → api.State → Type 0
    Completed mode s s' =
        (d : Fields) × ((mid : api.State) × ((api.post (base_url <> "/generate") api_key
                (create_payload r api base_url api_key image_url mode) s
              ≡ (answer (dict d), mid))
            × Watched (Value.get d "task_id") mid s'))

  on_status-finished :
      (mode : String) (d : Fields) (status : Option Value) (rest : Exec api.State (List String))
      (t : api.State)
      → status ≡ some (str "completed")
      → on_status r api base_url api_key image_url mode d status rest t ≡ (ok [], t)
  on_status-finished mode d status rest t e = rw (e, completed) refl
    where
      completed : (◌==◌ {A = String} "completed" "completed") ≡ true
      completed = ==_self {A = String} "completed"

  on_status-pending :
      (mode : String) (d : Fields) (status : Option Value) (rest : Exec api.State (List String))
      (t : api.State)
      → IsPending status
      → on_status r api base_url api_key image_url mode d status rest t ≡ rest (api.sleep 3000 t)
  on_status-pending mode d status rest t (u, c, f) = rw (u, c, f) refl

  on_status-cases :
      (mode : String) (d : Fields) (status : Option Value) (rest : Exec api.State (List String))
      (t s' : api.State)
      → on_status r api base_url api_key image_url mode d status rest t ≡ (ok [], s')
      → ((status ≡ some (str "completed")) × (t ≡ s'))
        ⊎ (IsPending status × (rest (api.sleep 3000 t) ≡ (ok [], s')))
  on_status-cases mode d status rest t s' h = elim (Bool-cases (is_unhashable status)) [
    | inl u ↦ let bad = rw u at h in cc
    | inr u ↦ elim (Bool-cases (equals status "completed")) [
      | inl c ↦ let done = rw (u, c) at h in inl ((equals-true_iff status "completed").0 c, cc)
      | inr c ↦ elim (Bool-cases (equals status "failed")) [
        | inl f ↦ let bad = rw (u, c, f) at h in cc
        | inr f ↦ inr ((u, c, f), rw (u, c, f) at h)
      ]
    ]
  ]

  on_poll-answer :
      (mode : String) (p : Reply × api.State) (rest : Exec api.State (List String)) (s' : api.State)
      → on_poll r api base_url api_key image_url mode p.0 rest p.1 ≡ (ok [], s')
      → (d : Fields) × ((t : api.State) × ((p ≡ (answer (dict d), t))
            × (on_status r api base_url api_key image_url mode d (Value.get d "status") rest t
                ≡ (ok [], s'))))
  on_poll-answer mode (http_error code e, t) rest s' h = cc
  on_poll-answer mode (failure e, t) rest s' h = cc
  on_poll-answer mode (answer v, t) rest s' h =
      let (d, (same, ends)) = (with_dict_iff v _ t s').0 h in (d, (t, (cc, ends)))

  module _
      (moves : (url key : String) (s : api.State) → api.time s ≤ api.time (api.get url key s).1)
      (sleeps : (ms : ℕ) (s : api.State) → api.time s + ms ≤ api.time (api.sleep ms s))
      (mode task_id : String) (deadline : ℕ) where
    abbrev run : ℕ → Exec api.State (List String)
    run = poll_task r api base_url api_key image_url mode task_id deadline

    pub poll_task-Polled :
        (fuel : ℕ) (s s' : api.State) → run fuel s ≡ (ok [], s') → Polled task_id deadline s s'
    unfolding poll_task
    poll_task-Polled zero s s' h = cc
    poll_task-Polled (suc fuel) s s' h = elim (Bool-cases (ltb (api.time s) deadline)) [
      | inr late ↦ let bad = rw late at h in cc
      | inl early ↦
          let (d, (t, (asked, ends))) =
            on_poll-answer mode
              (api.get (task_url r api base_url api_key image_url task_id) api_key s) (run fuel) s'
              (rw early at h) in
          elim (on_status-cases mode d (Value.get d "status") (run fuel) t s' ends) [
            | inl (done, same) ↦ finished d (ground arith, rw (← same) asked) done
            | inr (pending, rest) ↦
                waiting d t (ground arith, asked) pending
                  (poll_task-Polled fuel (api.sleep 3000 t) s' rest)
          ]
    ]

    next_poll :
        (fuel : ℕ) (s t : api.State) (d : Fields)
        → Asked task_id deadline s d t
        → run (suc fuel) s
          ≡ on_status r api base_url api_key image_url mode d (Value.get d "status") (run fuel) t
    unfolding poll_task
    next_poll fuel s t d (early, asked) =
        let test : ltb (api.time s) deadline ≡ true = ground arith in rw (test, asked) refl

    later :
        (s t : api.State) (d : Fields)
        → Asked task_id deadline s d t
        → api.time s + 3000 ≤ api.time (api.sleep 3000 t)
    later s t d (early, asked) =
        let moved : api.time s ≤ api.time t =
          subst (λ (p : Reply × api.State). api.time s ≤ api.time p.1) asked
            (moves (task_url r api base_url api_key image_url task_id) api_key s) in
        omega (arith, moved, sleeps 3000 t)

    pub Polled-poll_task :
        (fuel : ℕ) (s s' : api.State)
        → deadline ≤ api.time s + fuel * 3000
        → Polled task_id deadline s s'
        → run (suc fuel) s ≡ (ok [], s')
    Polled-poll_task fuel s s' enough (finished d asked done) =
        next_poll fuel s s' d asked
        ∙ on_status-finished mode d (Value.get d "status") (run fuel) s' done
    Polled-poll_task zero s s' enough (waiting d t asked pending rest) =
        absurd (omega (arith, asked.0))
    Polled-poll_task (suc fuel) s s' enough (waiting d t asked pending rest) =
        next_poll (suc fuel) s t d asked
        ∙ on_status-pending mode d (Value.get d "status") (run (suc fuel)) t pending
        ∙ Polled-poll_task fuel (api.sleep 3000 t) s' (omega (arith, later s t d asked)) rest
