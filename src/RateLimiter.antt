-- ===== src/RateLimiter.antt =====
-- app/services/rate_limiter.py: limits per key, user and address, counted in Redis. Redis is a
-- parameter with the documented behaviour of INCR and EXPIRE; `digits` prints a number.
pub mod Window
pub mod Counters
use ai_generation_api.Prelude.{
  ℕ, suc, ◌+◌, ◌/◌, ◌≤◌, ◌<◌, String, ◌<>◌, ◌≡◌, ◌≢◌, Bool, true, false, Option, none, some, ltb,
  ◌==◌, string_eq, if◌then◌else◌,
}
use ai_generation_api.Errors.{raised, rate_limit}
use ai_generation_api.Exec.{Result, ok, err, Exec, pure, ◌>>=◌, ◌>>◌}
use ai_generation_api.Settings.{Settings}

-- A pipeline of `INCR key` and `EXPIRE key window`, at a time: a missing or expired key counts as 0.
pub record Redis : Type 1 where
  pub State : Type 0
  pub count : String → ℕ → State → ℕ
  pub incr_expire : String → ℕ → ℕ → State → ℕ × State
  pub incr :
      (key : String) (window now : ℕ) (s : State)
      → (incr_expire key window now s).0 ≡ suc (count key now s)
  pub lasts :
      (key : String) (window now later : ℕ) (s : State)
      → now ≤ later
      → later < now + window
      → count key later (incr_expire key window now s).1 ≡ suc (count key now s)
  pub apart :
      (key other : String) (window now later : ℕ) (s : State)
      → key ≢ other
      → count other later (incr_expire key window now s).1 ≡ count other later s

-- `value or ""`
abbrev pub text_or_empty : Option String → String
text_or_empty none = ""
text_or_empty (some s) = s

module _ (redis : Redis) (digits : ℕ → String) where
  -- The key of the window that the time is in.
  abbrev pub window_key : String → String → ℕ → String
  window_key scope identifier bucket =
      "ratelimit:" <> (scope <> (":" <> (identifier <> (":" <> digits bucket))))

  abbrev pub over : String → ℕ → ℕ → Result (Unit {0})
  over scope limit count =
      if ltb limit count
      then err (raised rate_limit ("rate limit exceeded for " <> scope))
      else ok tt

  -- `_hit`; the window is not 0.
  unfoldable pub hit : String → String → ℕ → ℕ → ℕ → Exec redis.State Unit
  hit scope identifier limit window now s =
      if identifier == ""
      then (ok tt, s)
      else let (n, s') =
          redis.incr_expire (window_key scope identifier (now / window)) window now s in
        (over scope limit n, s')

  -- `enforce`
  unfoldable pub enforce :
      Settings → Option String → Option String → Option String → ℕ → Exec redis.State Unit
  enforce c api_key_id user_id ip now = do
    hit "api_key" (text_or_empty api_key_id) c.rate_limit_per_api_key c.rate_limit_window_seconds
        now
    hit "user" (text_or_empty user_id) c.rate_limit_per_user c.rate_limit_window_seconds now
    hit "ip" (text_or_empty ip) c.rate_limit_per_ip c.rate_limit_window_seconds now
