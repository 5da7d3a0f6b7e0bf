-- ===== src/Scripts/VideoModes/Tasks.antt =====
-- When the checks of one mode against the API report nothing.
use mathlib.Core.Path.{subst}
use ai_generation_api.Prelude.{
  ℕ, suc, ◌+◌, ◌*◌, ◌≤◌, String, ◌≡◌, ◌↔◌, Option, List, [], Bool-cases, inl, inr, arith,
}
use ai_generation_api.Exec.{ok, Exec}
use ai_generation_api.Value
use ai_generation_api.Value.{Value, Fields, dict}
use ai_generation_api.Scripts.VideoModes.{Reader, text_of}
use ai_generation_api.Scripts.VideoModes.Loops.{Quiet}
use ai_generation_api.Scripts.VideoModes.Polls.{
  Previewed, Watched, Completed, on_preview_iff, with_dict_iff, holds-true_iff, poll_task-Polled,
  Polled-poll_task,
}
use ai_generation_api.Scripts.VideoModes.Client.{
  Reply, http_error, failure, answer, Api, holds, preview_one, on_task, on_created, smoke_one,
}

module _ (r : Reader) (api : Api)
    (moves : (url key : String) (s : api.State) → api.time s ≤ api.time (api.get url key s).1)
    (sleeps : (ms : ℕ) (s : api.State) → api.time s + ms ≤ api.time (api.sleep ms s)) where
  module _ (base_url api_key image_url : String) where
    pub preview_one_iff :
        (mode : String) (s s' : api.State)
        → Quiet (preview_one r api base_url api_key image_url) mode s s'
          ↔ Previewed r api base_url api_key image_url mode s s'
    unfolding preview_one
    preview_one_iff mode s s' = on_preview_iff r api base_url api_key image_url mode _ s'

    module _ (wait_seconds fuel : ℕ) (enough : wait_seconds ≤ fuel * 3) where
      abbrev watch : String → Option Value → Exec api.State (List String)
      watch = on_task r api base_url api_key image_url wait_seconds (suc fuel)

      watch_iff :
          (mode : String) (o : Option Value) (s s' : api.State)
          → (watch mode o s ≡ (ok [], s'))
            ↔ Watched r api base_url api_key image_url wait_seconds o s s'
      watch_iff mode o s s' = (there, back)
        where
          there :
              watch mode o s ≡ (ok [], s')
              → Watched r api base_url api_key image_url wait_seconds o s s'
          there h = elim (Bool-cases (holds o)) [
            | inr no_id ↦ let bad = rw no_id at h in cc
            | inl id ↦
                let (v, (e, t)) = (holds-true_iff o).0 id in
                (
                  v,
                  (
                    e,
                    (
                      t,
                      poll_task-Polled r api base_url api_key image_url moves sleeps mode
                          (text_of r v) _ (suc fuel) s s' (rw (e, t) at h),
                    ),
                  ),
                )
          ]

          back :
              Watched r api base_url api_key image_url wait_seconds o s s'
              → watch mode o s ≡ (ok [], s')
          back (v, (e, (t, polled))) =
              rw (e, t)
                (Polled-poll_task r api base_url api_key image_url moves sleeps mode (text_of r v) _
                  fuel s s' (omega (arith, enough)) polled)

      on_created_iff :
          (mode : String) (p : Reply × api.State) (s' : api.State)
          → (on_created r api base_url api_key image_url wait_seconds (suc fuel) mode p.0 p.1
              ≡ (ok [], s'))
            ↔ ((d : Fields) × ((mid : api.State) × ((p ≡ (answer (dict d), mid))
                    × Watched r api base_url api_key image_url wait_seconds
                        (Value.get d "task_id")
                        mid
                        s')))
      on_created_iff mode (http_error code e, t) s' = (λ h. cc, λ (d, (mid, (h, rest))). cc)
      on_created_iff mode (failure e, t) s' = (λ h. cc, λ (d, (mid, (h, rest))). cc)
      on_created_iff mode (answer v, t) s' =
          let dicts = with_dict_iff v _ t s' in
          (
            λ h.
                let (d, (same, ends)) = dicts.0 h in
                (d, (t, (cc, (watch_iff mode (Value.get d "task_id") t s').0 ends))),
            λ (d, (mid, (h, watched))).
                let here : mid ≡ t = cc in
                dicts.1 (
                  d,
                  (
                    cc,
                    (watch_iff mode (Value.get d "task_id") t s').1 (
                        subst
                          (λ x.
                            Watched r api base_url api_key image_url wait_seconds
                              (Value.get d "task_id") x s')
                          here watched),
                  ),
                ),
          )

      pub smoke_one_iff :
          (mode : String) (s s' : api.State)
          → Quiet (smoke_one r api base_url api_key image_url wait_seconds (suc fuel)) mode s s'
            ↔ Completed r api base_url api_key image_url wait_seconds mode s s'
      unfolding smoke_one
      smoke_one_iff mode s s' = on_created_iff mode _ s'
