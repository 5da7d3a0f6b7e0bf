-- ===== src/Scripts/VideoModes/Loops.antt =====
-- What a loop of checks without errors has done.
use ai_generation_api.Prelude.{String, ◌≡◌, ◌↔◌, refl, List, [], ◌∷◌, ◌++◌}
use ai_generation_api.Exec.{Result, ok, err, Exec, pure, continue, ◌>>=◌}
use ai_generation_api.Scripts.VideoModes.{each}

pub append-nil_iff : {A : Type 0} (xs ys : List A) → (xs ++ ys ≡ []) ↔ ((xs ≡ []) × (ys ≡ []))
append-nil_iff [] ys = (λ h. (refl, h), λ h. h.1)
append-nil_iff (x ∷ xs) ys = (λ h. cc, λ h. cc)

-- A check that appends no error.
abbrev pub Quiet : {S : Type 0} → (String → Exec S (List String)) → String → S → S → Type 0
Quiet f m s s' = f m s ≡ (ok [], s')

-- Steps from one state to another, one for each name.
abbrev pub Chain : {S : Type 0} → (String → S → S → Type 0) → List String → S → S → Type 0
Chain step [] s s' = s ≡ s'
Chain {S = S} step (m ∷ ms) s s' = (mid : S) × (step m s mid × Chain step ms mid s')

module _ {S : Type 0} where
  ended_iff :
      (errors : List String) (q : Result (List String) × S) (s' : S)
      → (continue q.0 (λ rest. pure (errors ++ rest)) q.1 ≡ (ok [], s'))
        ↔ ((errors ≡ []) × (q ≡ (ok [], s')))
  ended_iff errors (err e, t) s' = (λ h. cc, λ h. cc)
  ended_iff errors (ok more, t) s' =
      let parts = append-nil_iff errors more in
      (
        λ h. let e : errors ++ more ≡ [] = cc in let no_more = (parts.0 e).1 in ((parts.0 e).0, cc),
        λ h. let none_left : errors ++ more ≡ [] = parts.1 (h.0, cc) in cc,
      )

  step_iff :
      (p : Result (List String) × S) (k : Exec S (List String)) (s' : S)
      → (continue p.0 (λ errors. k >>= λ rest. pure (errors ++ rest)) p.1 ≡ (ok [], s'))
        ↔ ((mid : S) × ((p ≡ (ok [], mid)) × (k mid ≡ (ok [], s'))))
  step_iff (err e, t) k s' = (λ h. cc, λ (mid, (h, rest)). cc)
  step_iff (ok errors, t) k s' =
      let last = ended_iff errors (k t) s' in
      (
        λ h. let both = last.0 h in let none_here = both.0 in (t, (cc, both.1)),
        λ (mid, (h, rest)). let same : mid ≡ t = cc in last.1 (cc, rw (← same) rest),
      )

  pub each-Chain :
      (f : String → Exec S (List String)) (names : List String) (s s' : S)
      → (each f names s ≡ (ok [], s')) ↔ Chain (Quiet f) names s s'
  unfolding each
  each-Chain f [] s s' = (λ h. cc, λ h. cc)
  each-Chain f (m ∷ ms) s s' =
      let here = step_iff (f m s) (each f ms) s' in
      (
        λ h. let (mid, (quiet, rest)) = here.0 h in (mid, (quiet, (each-Chain f ms mid s').0 rest)),
        λ (mid, (quiet, rest)). here.1 (mid, (quiet, (each-Chain f ms mid s').1 rest)),
      )

  pub Chain-iff :
      (P Q : String → S → S → Type 0)
      → ((m : String) (s s' : S) → P m s s' ↔ Q m s s')
      → (names : List String) (s s' : S) → Chain P names s s' ↔ Chain Q names s s'
  Chain-iff P Q same [] s s' = (λ h. h, λ h. h)
  Chain-iff P Q same (m ∷ ms) s s' = (
    λ (mid, (here, rest)). (mid, ((same m s mid).0 here, (Chain-iff P Q same ms mid s').0 rest)),
    λ (mid, (here, rest)). (mid, ((same m s mid).1 here, (Chain-iff P Q same ms mid s').1 rest)),
  )
