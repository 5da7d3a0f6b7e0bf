-- ===== src/RateLimiter/Window.antt =====
-- How many requests of one window pass.
use ai_generation_api.Prelude.{
  ℕ, suc, ◌+◌, ◌*◌, ◌-◌, ◌/◌, ◌%◌, ◌≤◌, ◌<◌, min, String, ◌≡◌, ◌≢◌, ap, ◌∙◌, List, [], ◌∷◌, length,
  ==_ne, string_eq, arith,
}
use native.Mathlib.Nat.{div-add-mod', mod-lt}
use ai_generation_api.Exec.{Result, ok, err}
use ai_generation_api.RateLimiter.{Redis, window_key, hit}

abbrev pub passes : Result (Unit {0}) → ℕ
passes (ok _) = 1
passes (err _) = 0

-- The times are in order, and all in the window `bucket`.
abbrev pub InWindow : ℕ → ℕ → ℕ → List ℕ → Type 0
InWindow window bucket last [] = Unit
InWindow window bucket last (t ∷ ts) =
    (last ≤ t) × (t / window ≡ bucket) × InWindow window bucket t ts

module _ (redis : Redis) (digits : ℕ → String) (scope identifier : String) (limit window : ℕ) where
  -- The requests at the times given, and how many of them pass.
  unfoldable pub accepted : List ℕ → redis.State → ℕ
  unfolding hit
  accepted [] s = 0
  accepted (t ∷ ts) s =
      let (r, s') = hit redis digits scope identifier limit window t s in passes r + accepted ts s'

  same_window :
      (t later bucket : ℕ)
      → 0 < window
      → t / window ≡ bucket
      → later / window ≡ bucket
      → later < t + window
  same_window t later bucket wide e e' =
      let first : bucket * window + t % window ≡ t = rw (← e) (div-add-mod' t window) in
      let second : bucket * window + later % window ≡ later =
        rw (← e') (div-add-mod' later window) in
      omega (arith, first, second, mod-lt later wide)

  module _ (wide : 0 < window) (named : identifier ≢ "") (bucket : ℕ) where
    abbrev key : String
    key = window_key redis digits scope identifier bucket

    -- The count that the rest of the window sees.
    abbrev Counted : ℕ → ℕ → redis.State → Type 0
    Counted last c s = (t : ℕ) → last ≤ t → t / window ≡ bucket → redis.count key t s ≡ c

    accepted_lem :
        (ts : List ℕ) (last c : ℕ) (s : redis.State)
        → InWindow window bucket last ts
        → Counted last c s
        → accepted ts s ≡ min (length ts) (limit - c)
    unfolding accepted
    accepted_lem [] last c s inside counted = omega arith
    accepted_lem (t ∷ ts) last c s (after, here, rest) counted =
        let s' = (redis.incr_expire key window t s).1 in
        let n : (redis.incr_expire key window t s).0 ≡ suc c =
          redis.incr key window t s ∙ ap suc (counted t after here) in
        let counted' : Counted t (suc c) s' = λ later h e.
          redis.lasts key window t later s h (same_window t later bucket wide here e)
          ∙ ap suc (counted t after here) in
        let ih = accepted_lem ts t (suc c) s' rest counted' in
        rw (==_ne identifier "" named, here, n, ih) (ground arith)

    -- Of requests at times in order in one window of a positive length, from a nonempty
    -- identifier whose counter stands at `c` for the rest of the window, as many pass as the
    -- limit leaves above `c`, and all where it leaves more.
    pub accepted-Window :
        (t : ℕ) (ts : List ℕ) (c : ℕ) (s : redis.State)
        → InWindow window bucket t (t ∷ ts)
        → ((later : ℕ) → t ≤ later → later / window ≡ bucket → redis.count key later s ≡ c)
        → accepted (t ∷ ts) s ≡ min (length (t ∷ ts)) (limit - c)
    accepted-Window t ts c s inside counted = accepted_lem (t ∷ ts) t c s inside counted
