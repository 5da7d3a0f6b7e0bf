-- ===== src/ApiKeyRepo/Access.antt =====
-- Which keys and which tasks a caller gets.
use ai_generation_api.Prelude.{
  ◌⊎◌, none, Option, String, ◌≡◌, ◌↔◌, refl, sym, ap, ◌∙◌, ==_self, true, false, some, Option-cases,
  Bool-cases, inl, inr, arith, string_eq, option_eq, ◌==◌,
}
use ai_generation_api.Errors.{Error, raised, not_found}
use ai_generation_api.Exec.{ok, err}
use ai_generation_api.Models.{ApiKey, ApiKey_keyed, KeyStatus_eq, Task, Task_keyed}
use ai_generation_api.Models.Table
use ai_generation_api.Session.{Session}
use ai_generation_api.ApiKeyRepo.{get_task, foreign}

-- A task of no key, or of the caller's.
abbrev pub IsOwn : Option String → ApiKey → Type 0
IsOwn owner k = (owner ≡ none) ⊎ ((owner ≡ some "") ⊎ (owner ≡ some k.id))

foreign-false_iff : (owner : Option String) (k : ApiKey) → (foreign owner k ≡ false) ↔ IsOwn owner k
foreign-false_iff none k = (λ h. inl refl, λ h. refl)
foreign-false_iff (some owner) k = (there, back)
  where
    there : foreign (some owner) k ≡ false → IsOwn (some owner) k
    there h = elim (Bool-cases (owner == "")) [
      | inl e ↦ inr (inl (ap some (ground arith)))
      | inr e ↦ elim (Bool-cases (owner == k.id)) [
        | inl e' ↦ inr (inr (ap some (ground arith)))
        | inr e' ↦ absurd (ground arith)
      ]
    ]

    back : IsOwn (some owner) k → foreign (some owner) k ≡ false
    back (inl h) = cc
    back (inr (inl h)) = let same : owner ≡ "" = cc in rw (same, ==_self {A = String} "") refl
    back (inr (inr h)) = let same : owner ≡ k.id = cc in rw (same, ==_self k.id) (ground arith)

-- The route for a task returns a row exactly if it is the row of that id, and it has no key, an
-- empty one, or the caller's. Any error is the 404 of a missing task, so that another key's task
-- cannot be told from none, and the session is left as it was.
pub get_task-ok :
    (id : String) (k : ApiKey) (s : Session)
    → ((t : Task)
        → ((get_task id k s).0 ≡ ok t)
          ↔ ((Table.get id s.current.tasks ≡ some t) × IsOwn t.api_key_id k))
      × ((e : Error) → (get_task id k s).0 ≡ err e → e ≡ raised not_found "task not found")
      × ((get_task id k s).1 ≡ s)
unfolding get_task
get_task-ok id k s = elim (Option-cases (Table.get id s.current.tasks)) [
  | inl missing ↦ rw missing (λ t. (λ h. cc, λ h. cc), λ e h. cc, refl)
  | inr (x, found) ↦ elim (Bool-cases (foreign x.api_key_id k)) [
    | inl other ↦
        rw (found, other)
          (
            λ t. (
              λ h. cc,
              λ h.
                  let same : x ≡ t = cc in
                  let own = (foreign-false_iff x.api_key_id k).1 (rw same h.1) in
                  let bad : true ≡ false = sym other ∙ own in cc,
            ),
            λ e h. cc,
            refl,
          )
    | inr own ↦
        rw (found, own)
          (
            λ t. (
              λ h.
                  let same : x ≡ t = cc in
                  (ap some same, rw (← same) ((foreign-false_iff x.api_key_id k).0 own)),
              λ h. let same : x ≡ t = cc in ap ok same,
            ),
            λ e h. cc,
            refl,
          )
  ]
]
