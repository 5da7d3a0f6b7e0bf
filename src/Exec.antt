-- ===== src/Exec.antt =====
-- Python's statements over a mutable state: what was written before a raise stays written, so the
-- state comes back beside the error too.
use ai_generation_api.Prelude.{◌≡◌, refl, ◌⊎◌, inl, inr, Bool, if◌then◌else◌}
use ai_generation_api.Errors.{Error, integrity_error}

pub data Result {ℓ} (A : Type ℓ) : Type ℓ where
  ok : A → Result A
  err : Error → Result A

pub Result-cases {ℓ} :
    {A : Type ℓ} (r : Result A) → ((a : A) × (r ≡ ok a)) ⊎ ((e : Error) × (r ≡ err e))
Result-cases (ok a) = inl (a, refl)
Result-cases (err e) = inr (e, refl)

abbrev pub Exec {ℓ} : Type ℓ → Type ℓ → Type ℓ
Exec S A = S → Result A × S

module _ {ℓ} {S A : Type ℓ} where
  abbrev pub pure : A → Exec S A
  pure a s = (ok a, s)

  abbrev pub raise : Error → Exec S A
  raise e s = (err e, s)

  abbrev pub gets : (S → A) → Exec S A
  gets f s = (ok (f s), s)

  abbrev pub lift : Result A → Exec S A
  lift r s = (r, s)

module _ {ℓ} {S A B : Type ℓ} where
  abbrev pub continue : Result A → (A → Exec S B) → Exec S B
  continue (ok a) f s = f a s
  continue (err e) f s = (err e, s)

  infixl 10 ◌>>=◌ ◌>>◌
  abbrev pub ◌>>=◌ : Exec S A → (A → Exec S B) → Exec S B
  ◌>>=◌ m f s = let (r, s') = m s in continue r f s'

  abbrev pub ◌>>◌ : Exec S A → Exec S B → Exec S B
  m >> n = m >>= λ _. n

abbrev pub modify : {S : Type 0} → (S → S) → Exec S Unit
modify f s = (ok tt, f s)

abbrev pub raise_if : {S : Type 0} → Bool → Error → Exec S Unit
raise_if b e s = (if b then err e else ok tt, s)

abbrev caught : {S A : Type 0} → Result A → Exec S A → Exec S A
caught (err integrity_error) handler s = handler s
caught r handler s = (r, s)

-- `try: m except IntegrityError: handler`
abbrev pub except_integrity : {S A : Type 0} → Exec S A → Exec S A → Exec S A
except_integrity m handler s = let (r, s') = m s in caught r handler s'
