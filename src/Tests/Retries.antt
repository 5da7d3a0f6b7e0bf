-- ===== src/Tests/Retries.antt =====
-- Tenacity's loop, as a function: the laws that the model takes for it can hold.
use ai_generation_api.Prelude.{ℕ, zero, suc, ◌≡◌, refl}
use ai_generation_api.Errors.{Error}
use ai_generation_api.Exec.{Result, ok, err, Exec}
use ai_generation_api.Callback.{Tenacity}

module _ {S A : Type 0} where
  abbrev pub next : Exec S A → Result A → S → Result A × S
  next m (ok a) s = (ok a, s)
  next m (err e) s = m s

  -- The first call, and at most `n` more.
  unfoldable pub attempts : ℕ → Exec S A → Exec S A
  attempts zero m s = m s
  attempts (suc n) m s = let (r, s') = m s in next (attempts n m) r s'

  abbrev pub retry : ℕ → Exec S A → Exec S A
  retry zero m = attempts zero m
  retry (suc n) m = attempts n m

  pub retry-ok :
      (n : ℕ) (m : Exec S A) (s s' : S) (a : A) → m s ≡ (ok a, s') → retry (suc n) m s ≡ (ok a, s')
  unfolding attempts
  retry-ok zero m s s' a h = h
  retry-ok (suc n) m s s' a h = rw h refl

  pub retry-more :
      (n : ℕ) (m : Exec S A) (s s' : S) (e : Error)
      → m s ≡ (err e, s')
      → retry (suc (suc n)) m s ≡ retry (suc n) m s'
  unfolding attempts
  retry-more n m s s' e h = rw h refl

  pub retry-last :
      (m : Exec S A) (s s' : S) (e : Error) → m s ≡ (err e, s') → retry 1 m s ≡ (err e, s')
  unfolding attempts
  retry-last m s s' e h = h

abbrev pub tenacity : Tenacity
tenacity = record {
  retry = retry;
  retry-zero = λ m s. refl;
  retry-ok = retry-ok;
  retry-last = retry-last;
  retry-more = retry-more;
}
