-- ===== src/RateLimiter/Counters.antt =====
-- What `enforce` promises, with Redis out of sight: three counters, for the API key, the user and the
-- address, each asked in turn. The code's calls implement these.
use Prim.Native.Char.{code}
use text.Mathlib.TextLemmas.{nil-append, cons-append, append_cancel_left}
use ai_generation_api.Prelude.{
  ℕ, suc, ◌/◌, ◌<◌, String, ◌<>◌, ◌≡◌, ◌≢◌, refl, sym, ap, ◌∙◌, Bool, true, false, not, Option,
  Bool-cases, inl, inr, leb, ◌==◌, string_eq, if◌then◌else◌, arith,
}
use ai_generation_api.Errors.{raised, rate_limit}
use ai_generation_api.Exec.{Result, ok, err, Exec, ◌>>◌, continue}
use ai_generation_api.Settings.{Settings}
use ai_generation_api.RateLimiter.{Redis, window_key, hit, text_or_empty, enforce}

pub record Counters : Type 0 where
  pub api_key : ℕ
  pub user : ℕ
  pub ip : ℕ

-- A request of one scope: counted where it names itself, and let through up to the limit.
abbrev pub count_in : Bool → String → ℕ → Exec ℕ Unit
count_in false scope limit n = (ok tt, n)
count_in true scope limit n = (
  if leb (suc n) limit
      then ok tt
      else err (raised rate_limit ("rate limit exceeded for " <> scope)),
  suc n,
)

abbrev pub on_api_key : Exec ℕ Unit → Exec Counters Unit
on_api_key m c = let (r, n) = m c.api_key in (r, record c { api_key = n })

abbrev pub on_user : Exec ℕ Unit → Exec Counters Unit
on_user m c = let (r, n) = m c.user in (r, record c { user = n })

abbrev pub on_ip : Exec ℕ Unit → Exec Counters Unit
on_ip m c = let (r, n) = m c.ip in (r, record c { ip = n })

-- `None` and the empty text name nobody.
abbrev pub names : Option String → Bool
names who = not (text_or_empty who == "")

-- The specification of `enforce`.
abbrev pub admit : Settings → Option String → Option String → Option String → Exec Counters Unit
admit c api_key_id user_id ip = do
  on_api_key (count_in (names api_key_id) "api_key" c.rate_limit_per_api_key)
  on_user (count_in (names user_id) "user" c.rate_limit_per_user)
  on_ip (count_in (names ip) "ip" c.rate_limit_per_ip)

first : ℕ → String → ℕ
first d String.[] = d
first d (String.◌∷◌ c s) = code c

first-append : (d : ℕ) (s t : String) → first d (s <> t) ≡ first (first d t) s
unfolding first
first-append d String.[] t = ap (first d) (nil-append t)
first-append d (String.◌∷◌ c s) t = ap (first d) (cons-append c s t)

module _ (redis : Redis) (digits : ℕ → String) (bucket : ℕ) where
  abbrev key_of : String → Option String → String
  key_of scope who = window_key redis digits scope (text_or_empty who) bucket

  -- Two scopes whose names begin differently have no key in common.
  key_of_apart :
      (scope other : String) (a b : Option String)
      → ((d e : ℕ) → first d scope ≢ first e other)
      → key_of scope a ≢ key_of other b
  key_of_apart scope other a b h e =
      let tails = append_cancel_left "ratelimit:" _ _ e in
      h _ _ (sym (first-append 0 scope _) ∙ ap (first 0) tails ∙ first-append 0 other _)

module _ (redis : Redis) (digits : ℕ → String) (c : Settings)
    (api_key_id user_id ip : Option String) (now : ℕ) (wide : 0 < c.rate_limit_window_seconds) where
  abbrev window : ℕ
  window = c.rate_limit_window_seconds

  abbrev bucket : ℕ
  bucket = now / window

  abbrev count_of : String → Option String → redis.State → ℕ
  count_of scope who s = redis.count (key_of redis digits bucket scope who) now s

  -- The counters of the window that the time is in.
  abbrev pub view : redis.State → Counters
  view s = record {
    api_key = count_of "api_key" api_key_id s;
    user = count_of "user" user_id s;
    ip = count_of "ip" ip s;
  }

  -- `m` does on Redis what `n` does on the counters.
  abbrev Implements : Exec redis.State Unit → Exec Counters Unit → Type 0
  Implements m n = (s : redis.State) → ((m s).0 ≡ (n (view s)).0) × (view (m s).1 ≡ (n (view s)).1)

  Implements-then :
      (m m' : Exec redis.State Unit) (n n' : Exec Counters Unit)
      → Implements m n
      → Implements m' n'
      → Implements (m >> m') (n >> n')
  Implements-then m m' n n' h h' s =
      let (result, state) = h s in rw (← result, ← state) (continued (m s).0 (m s).1)
    where
      continued :
          (r : Result (Unit {0})) (t : redis.State)
          → ((continue r (λ _. m') t).0 ≡ (continue r (λ _. n') (view t)).0)
            × (view (continue r (λ _. m') t).1 ≡ (continue r (λ _. n') (view t)).1)
      continued (ok _) t = h' t
      continued (err e) t = (refl, refl)

  hit_lem :
      (scope : String) (who : Option String) (limit : ℕ) (s : redis.State)
      → let m = hit redis digits scope (text_or_empty who) limit window now s in
        let n = count_in (names who) scope limit (count_of scope who s) in
        (m.0 ≡ n.0) × (count_of scope who m.1 ≡ n.1)
  unfolding hit
  hit_lem scope who limit s = elim (Bool-cases (text_or_empty who == "")) [
    | inl nobody ↦ rw nobody (refl, refl)
    | inr named ↦
        let key = key_of redis digits bucket scope who in
        rw
          (
            named,
            redis.incr key window now s,
            redis.lasts key window now now s (omega arith) (omega arith),
          )
          (ground arith, refl)
  ]

  hit_apart :
      (scope other : String) (who whom : Option String) (limit : ℕ) (s : redis.State)
      → ((d e : ℕ) → first d scope ≢ first e other)
      → count_of other whom (hit redis digits scope (text_or_empty who) limit window now s).1
        ≡ count_of other whom s
  unfolding hit
  hit_apart scope other who whom limit s h = elim (Bool-cases (text_or_empty who == "")) [
    | inl nobody ↦ rw nobody refl
    | inr named ↦
        let distinct = key_of_apart redis digits bucket scope other who whom h in
        rw (named, redis.apart _ _ window now now s distinct) refl
  ]

  on_api_key_lem :
      Implements
        (hit redis digits "api_key" (text_or_empty api_key_id) c.rate_limit_per_api_key window now)
        (on_api_key (count_in (names api_key_id) "api_key" c.rate_limit_per_api_key))
  unfolding first
  on_api_key_lem s =
      let limit = c.rate_limit_per_api_key in
      let (result, mine) = hit_lem "api_key" api_key_id limit s in
      let users =
        hit_apart "api_key" "user" api_key_id user_id limit s (λ d e p. omega (arith, p)) in
      let ips = hit_apart "api_key" "ip" api_key_id ip limit s (λ d e p. omega (arith, p)) in
      (result, rw (mine, users, ips) refl)

  on_user_lem :
      Implements
        (hit redis digits "user" (text_or_empty user_id) c.rate_limit_per_user window now)
        (on_user (count_in (names user_id) "user" c.rate_limit_per_user))
  unfolding first
  on_user_lem s =
      let limit = c.rate_limit_per_user in
      let (result, mine) = hit_lem "user" user_id limit s in
      let keys =
        hit_apart "user" "api_key" user_id api_key_id limit s (λ d e p. omega (arith, p)) in
      let ips = hit_apart "user" "ip" user_id ip limit s (λ d e p. omega (arith, p)) in
      (result, rw (keys, mine, ips) refl)

  on_ip_lem :
      Implements
        (hit redis digits "ip" (text_or_empty ip) c.rate_limit_per_ip window now)
        (on_ip (count_in (names ip) "ip" c.rate_limit_per_ip))
  unfolding first
  on_ip_lem s =
      let limit = c.rate_limit_per_ip in
      let (result, mine) = hit_lem "ip" ip limit s in
      let keys = hit_apart "ip" "api_key" ip api_key_id limit s (λ d e p. omega (arith, p)) in
      let users = hit_apart "ip" "user" ip user_id limit s (λ d e p. omega (arith, p)) in
      (result, rw (keys, users, mine) refl)

  -- With a window of a positive length, at a time: `enforce` returns or raises what the
  -- specification on three counters does, and Redis' counts of the three keys in the window of
  -- that time are the counters that the specification leaves.
  pub enforce-admit :
      (s : redis.State)
      → let (r, s') = enforce redis digits c api_key_id user_id ip now s in
        let (r', counters) = admit c api_key_id user_id ip (view s) in
        (r ≡ r') × (view s' ≡ counters)
  unfolding enforce
  enforce-admit s =
      let window = c.rate_limit_window_seconds in
      let key_hit =
        hit redis digits "api_key" (text_or_empty api_key_id) c.rate_limit_per_api_key window now in
      let user_hit =
        hit redis digits "user" (text_or_empty user_id) c.rate_limit_per_user window now in
      let ip_hit = hit redis digits "ip" (text_or_empty ip) c.rate_limit_per_ip window now in
      let key_count = on_api_key (count_in (names api_key_id) "api_key" c.rate_limit_per_api_key) in
      let user_count = on_user (count_in (names user_id) "user" c.rate_limit_per_user) in
      let ip_count = on_ip (count_in (names ip) "ip" c.rate_limit_per_ip) in
      Implements-then key_hit (user_hit >> ip_hit) key_count (user_count >> ip_count) on_api_key_lem
        (Implements-then user_hit ip_hit user_count ip_count on_user_lem on_ip_lem) s
