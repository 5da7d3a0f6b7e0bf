-- ===== src/Callback/Attempts.antt =====
-- How often a post is tried under tenacity's `retry`.
use ai_generation_api.Prelude.{
  ℕ, zero, suc, ◌+◌, ◌<◌, String, ◌≡◌, refl, ap, inl, inr, ◌∷◌, length, arith,
}
use native.Mathlib.Nat.{add-zero}
use ai_generation_api.Errors.{Error}
use ai_generation_api.Exec.{Result, ok, err, Result-cases}
use ai_generation_api.Value.{Fields}
use ai_generation_api.Callback.{Tenacity, Locals, attempt, code_of}

abbrev pub IsError : Result ℕ → Type 0
IsError (ok _) = ⊥
IsError (err _) = Unit

-- The retries of one delivery: `count` posts failed, and the next one ended it.
pub record Tries (n : ℕ) (s s' : Locals) (r : Result ℕ) : Type 0 where
  pub count : ℕ
  pub within : count < n
  pub before : (k : ℕ) → k < count → IsError (s.world.replies (length s.world.posted + k))
  pub last : s.world.replies (length s.world.posted + count) ≡ r
  pub ended : IsError r → suc count ≡ n
  pub coded : IsError r → s'.last_code ≡ s.last_code
  pub counted : s'.attempts ≡ s.attempts + suc count
  pub posts : length s'.world.posted ≡ length s.world.posted + suc count
  pub kept : s'.world.database ≡ s.world.database
  pub same_replies : s'.world.replies ≡ s.world.replies

module _ (url : String) (payload : Fields) where
  -- One attempt.
  abbrev next : Locals → Result ℕ → Locals
  next s r = record {
    world = record s.world { posted = record { url = url; payload = payload } ∷ s.world.posted };
    attempts = s.attempts + 1;
    last_code = code_of r s.last_code;
  }

  attempt_lem :
      (s : Locals) (r : Result ℕ)
      → s.world.replies (length s.world.posted) ≡ r
      → attempt url payload s ≡ (r, next s r)
  unfolding attempt
  attempt_lem s r e = rw e refl

  Tries-one :
      (n : ℕ) (s : Locals) (r : Result ℕ)
      → s.world.replies (length s.world.posted) ≡ r
      → (IsError r → 1 ≡ suc n)
      → Tries (suc n) s (next s r) r
  Tries-one n s r e end = record {
    count = 0;
    within = omega arith;
    before = λ k h. absurd (omega arith);
    last = rw add-zero e;
    ended = end;
    coded = coded r;
    counted = refl;
    posts = omega arith;
    kept = refl;
    same_replies = refl;
  }
    where
      coded : (x : Result ℕ) → IsError x → code_of x s.last_code ≡ s.last_code
      coded (ok code) h = absurd h
      coded (err e) h = refl

  Tries-more :
      (n : ℕ) (s s' : Locals) (e : Error) (r : Result ℕ)
      → s.world.replies (length s.world.posted) ≡ err e
      → Tries (suc n) (next s (err e)) s' r
      → Tries (suc (suc n)) s s' r
  Tries-more n s s' e r fails t = record {
    count = suc t.count;
    within = omega (arith, t.within);
    before = before;
    last =
        let e : length s.world.posted + suc t.count ≡ suc (length s.world.posted) + t.count =
          omega arith in
        rw e t.last;
    ended = λ h. ap suc (t.ended h);
    coded = t.coded;
    counted = omega (arith, t.counted);
    posts = omega (arith, t.posts);
    kept = t.kept;
    same_replies = t.same_replies;
  }
    where
      before : (k : ℕ) → k < suc t.count → IsError (s.world.replies (length s.world.posted + k))
      before zero h = rw (add-zero, fails) tt
      before (suc k) h =
          let e : length s.world.posted + suc k ≡ suc (length s.world.posted) + k = omega arith in
          rw e (t.before k (omega arith))

  module _ (tenacity : Tenacity) where
    pub retry-Tries :
        (n : ℕ) (s : Locals)
        → let (r, s') = tenacity.retry (suc n) (attempt url payload) s in Tries (suc n) s s' r
    retry-Tries zero s = elim (Result-cases (s.world.replies (length s.world.posted))) [
      | inl (code, e) ↦
          rw
            (tenacity.retry-ok zero (attempt url payload) s (next s (ok code)) code
              (attempt_lem s (ok code) e))
            (Tries-one zero s (ok code) e (λ h. absurd h))
      | inr (x, e) ↦
          rw
            (tenacity.retry-last (attempt url payload) s (next s (err x)) x
              (attempt_lem s (err x) e))
            (Tries-one zero s (err x) e (λ h. refl))
    ]
    retry-Tries (suc n) s = elim (Result-cases (s.world.replies (length s.world.posted))) [
      | inl (code, e) ↦
          rw
            (tenacity.retry-ok (suc n) (attempt url payload) s (next s (ok code)) code
              (attempt_lem s (ok code) e))
            (Tries-one (suc n) s (ok code) e (λ h. absurd h))
      | inr (x, e) ↦
          rw
            (tenacity.retry-more n (attempt url payload) s (next s (err x)) x
              (attempt_lem s (err x) e))
            (Tries-more n s _ x _ e (retry-Tries n (next s (err x))))
    ]
