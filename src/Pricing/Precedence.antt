-- ===== src/Pricing/Precedence.antt =====
-- Which price applies, and that none is free.
use ai_generation_api.Prelude.{
  String, ◌≡◌, refl, ◌⊎◌, inl, inr, Bool, Option, none, some, List, [], ◌∷◌, arith,
}
use ai_generation_api.Prelude.Int.{ℤ, pos, ◌<ℤ◌}
use ai_generation_api.Errors.{Error, validation, app_raised}
use ai_generation_api.Exec.{Result, ok, err}
use ai_generation_api.Models.{ApiKey}
use ai_generation_api.Value
use ai_generation_api.Value.{Value, float, infinite}
use ai_generation_api.Pricing.{PricingRegistry, price_for, as_int, key_config, positive, or_invalid}

-- The places that may name a price, the first to decide first.
abbrev pub sources : PricingRegistry → String → String → Option ApiKey → List (Option Value)
sources r task_type mode none = Value.get r.modes mode ∷ Value.get r.defaults task_type ∷ []
sources r task_type mode (some key) =
    Value.get key.price_overrides mode
    ∷ Value.get key.price_overrides task_type
    ∷ Value.get (key_config r.api_keys key.id) mode
    ∷ Value.get (key_config r.api_keys key.id) task_type
    ∷ Value.get r.modes mode
    ∷ Value.get r.defaults task_type
    ∷ []

abbrev pub first {ℓ} : {A : Type ℓ} → List (Option A) → Option A
first [] = none
first (none ∷ xs) = first xs
first (some a ∷ xs) = some a

-- Errors of the class `ValidationAppError`.
abbrev pub IsValidation : Error → Type 0
IsValidation (app_raised e) = e.class ≡ validation
IsValidation _ = ⊥

module _ (repr : Value → String) where
  abbrev pub Decided : String → Option Value → Result ℤ → Type 0
  Decided mode none (ok _) = ⊥
  Decided mode none (err e) = IsValidation e
  Decided mode (some v) r = r ≡ as_int repr v mode

  -- The price is that of the first place which names one, and its value decides also where it is
  -- no valid price; with no such place the call fails with a validation error.
  pub price_for-Decided :
      (r : PricingRegistry) (task_type mode : String) (key : Option ApiKey)
      → Decided mode (first (sources r task_type mode key)) (price_for repr r task_type mode key)
  unfolding price_for
  price_for-Decided r task_type mode key = ground arith

  -- What a priced call may come to: a price above 0, a validation error, or the overflow of a
  -- configured value that is infinite.
  abbrev pub Outcome : Option Value → Result ℤ → Type 0
  Outcome decisive (ok price) = pos 0 <ℤ price
  Outcome decisive (err e) =
      IsValidation e ⊎ ((sign : Bool) × (decisive ≡ some (float (infinite sign))))

  positive-Outcome :
      (v : Value) (mode : String) (r : Result ℤ)
      → Outcome (some v) r
      → Outcome (some v) (positive repr mode r)
  positive-Outcome v mode (ok p) h = ground arith
  positive-Outcome v mode (err e) h = h

  or_invalid-Outcome :
      (v : Value) (mode : String) (o : Option ℤ)
      → Outcome (some v) (positive repr mode (or_invalid repr mode v o))
  or_invalid-Outcome v mode none = inl refl
  or_invalid-Outcome v mode (some p) = ground arith

  as_int-Outcome : (v : Value) (mode : String) → Outcome (some v) (as_int repr v mode)
  unfolding as_int
  as_int-Outcome (Value.bool b) mode = ground arith
  as_int-Outcome (Value.int z) mode = ground arith
  as_int-Outcome (float (Value.finite m k)) mode = ground arith
  as_int-Outcome (float (infinite sign)) mode = inr (sign, refl)
  as_int-Outcome (float Value.nan) mode = inl refl
  as_int-Outcome (Value.str s) mode = or_invalid-Outcome (Value.str s) mode (Value.int_of_text s)
  as_int-Outcome Value.null mode = inl refl
  as_int-Outcome (Value.list xs) mode = inl refl
  as_int-Outcome (Value.dict d) mode = inl refl

  -- A priced call comes to a price above 0, to a validation error, or, where the deciding value
  -- is an infinite float, to some exception.
  pub price_for-Outcome :
      (r : PricingRegistry) (task_type mode : String) (key : Option ApiKey)
      → Outcome (first (sources r task_type mode key)) (price_for repr r task_type mode key)
  price_for-Outcome r task_type mode key =
      decided (first (sources r task_type mode key)) (price_for repr r task_type mode key)
        (price_for-Decided r task_type mode key)
    where
      decided : (o : Option Value) (x : Result ℤ) → Decided mode o x → Outcome o x
      decided none (ok p) h = absurd h
      decided none (err e) h = inl h
      decided (some v) x h = rw h (as_int-Outcome v mode)
