-- ===== src/Routes/Admission.antt =====
-- What has been checked when a generation is accepted.
use mathlib.Core.Path.{subst}
use ai_generation_api.Prelude.{
  ℕ, ◌≤◌, ◌<◌, String, ◌≡◌, refl, sym, ap, ◌∙◌, true, false, Option, none, some, find, Option-cases,
  Bool-cases, inl, inr, arith, ◌==◌, string_eq,
}
use ai_generation_api.Exec.{Result, ok, err, Exec, pure, Result-cases, continue, ◌>>=◌, ◌>>◌}
use ai_generation_api.Settings.{Settings}
use ai_generation_api.Models.{ApiKey, KeyStatus_eq, active}
use ai_generation_api.Session.{Session}
use ai_generation_api.ApiKeyRepo.{
  has_hash, is_past, get_active_by_raw, get_api_key, or_refused, checked,
}
use ai_generation_api.RateLimiter.Counters.{Counters, admit, names, view, enforce-admit}
use ai_generation_api.TaskService.{App, GenerateRequest, on_session, create_task}
use ai_generation_api.Routes.{Request, enforce_rate_limit, client_ip}
use ai_generation_api.Routes.Generation.{Service, Site, on_redis, on_app, post_generate}

-- A key that may act at a time, for a raw value with its hash.
abbrev pub IsAdmitted : (String → String) → String → Session → ApiKey → Type 0
IsAdmitted hash raw s k =
    (find (has_hash (hash raw)) s.current.api_keys ≡ some k)
    × (k.status ≡ active)
    × (is_past k.expires_at s.now ≡ false)

checked-active :
    (x k : ApiKey) (s : Session)
    → (checked x s).0 ≡ ok (some k)
    → (x ≡ k) × (k.status ≡ active) × (is_past k.expires_at s.now ≡ false)
checked-active x k s h = elim (Bool-cases (x.status == active)) [
  | inl e ↦ elim (Bool-cases (is_past x.expires_at s.now)) [
    | inl p ↦ absurd (ground arith)
    | inr p ↦ let same : x ≡ k = ground arith in (same, rw (← same) (ground arith), rw (← same) p)
  ]
  | inr e ↦ absurd (ground arith)
]

module _ (hash : String → String) (header : String) (s : Session) (k : ApiKey) where
  get_active_by_raw-IsAdmitted :
      (raw : String) → (get_active_by_raw hash raw s).0 ≡ ok (some k) → IsAdmitted hash raw s k
  unfolding get_active_by_raw
  get_active_by_raw-IsAdmitted raw h =
      elim (Option-cases (find (has_hash (hash raw)) s.current.api_keys)) [
        | inl missing ↦ absurd (ground arith)
        | inr (x, found) ↦
            let (same, live, valid) = checked-active x k s (rw found at h) in
            (found ∙ ap some same, live, valid)
      ]

  granted :
      (r : Result (Option ApiKey)) (t : Session)
      → (continue r (or_refused hash) t).0 ≡ ok k
      → r ≡ ok (some k)
  granted (err e) t h = absurd (ground arith)
  granted (ok none) t h = absurd (ground arith)
  granted (ok (some x)) t h = ground arith

  get_api_key-IsAdmitted :
      (raw : Option String)
      → (get_api_key hash header raw s).0 ≡ ok k
      → (value : String) × (raw ≡ some value) × IsAdmitted hash value s k
  unfolding get_api_key
  get_api_key-IsAdmitted none h = absurd (ground arith)
  get_api_key-IsAdmitted (some raw) h = elim (Bool-cases (raw == "")) [
    | inl empty ↦ absurd (ground arith)
    | inr given ↦
        let (r, t) = get_active_by_raw hash raw s in
        (raw, refl, get_active_by_raw-IsAdmitted raw (granted r t (rw given at h)))
  ]

-- No named counter is above its limit.
abbrev pub Within : Settings → Option String → Option String → Option String → Counters → Type 0
Within c key user ip n =
    (names key ≡ true → n.api_key ≤ c.rate_limit_per_api_key)
    × (names user ≡ true → n.user ≤ c.rate_limit_per_user)
    × (names ip ≡ true → n.ip ≤ c.rate_limit_per_ip)

admit-Within :
    (c : Settings) (key user ip : Option String) (n : Counters)
    → (admit c key user ip n).0 ≡ ok tt
    → Within c key user ip (admit c key user ip n).1
admit-Within c key user ip n h = ground arith

module _ (v : Service) (request : Request) (req : GenerateRequest) (now : ℕ) (rs : v.redis.State)
    (wide : 0 < v.settings.rate_limit_window_seconds) where
  abbrev counters : ApiKey → v.redis.State → Counters
  counters k =
      view v.redis v.digits v.settings (some k.id) req.user_id (some (client_ip request)) now wide

  abbrev limit_for : ApiKey → Exec v.redis.State Unit
  limit_for k = enforce_rate_limit v.redis v.digits v.settings request k req.user_id now

  abbrev accept_for : ApiKey → Exec (Site v) String
  accept_for k = on_app v (create_task v.settings v.modes v.pricing v.repr req (some k)) >>= λ task.
      pure task.0

  limit_for-Within :
      (k : ApiKey)
      → (limit_for k rs).0 ≡ ok tt
      → Within v.settings
          (some k.id)
          req.user_id
          (some (client_ip request))
          (counters k (limit_for k rs).1)
  unfolding enforce_rate_limit
  limit_for-Within k h =
      let ip = some (client_ip request) in
      let (result, state) =
        enforce-admit v.redis v.digits v.settings (some k.id) req.user_id ip now wide rs in
      subst (Within v.settings (some k.id) req.user_id ip) (sym state)
        (admit-Within v.settings (some k.id) req.user_id ip (counters k rs) (sym result ∙ h))

  accept_for-redis : (k : ApiKey) (t : v.redis.State) (a : App) → (accept_for k (t, a)).1.0 ≡ t
  accept_for-redis k t a =
      elim (Result-cases (create_task v.settings v.modes v.pricing v.repr req (some k) a).0) [
        | inl (task, e) ↦ rw e refl
        | inr (x, e) ↦ rw e refl
      ]

  passed :
      (k : ApiKey) (id : String) (a : App)
      → ((on_redis v (limit_for k) >> accept_for k) (rs, a)).0 ≡ ok id
      → Within v.settings
          (some k.id)
          req.user_id
          (some (client_ip request))
          (counters k ((on_redis v (limit_for k) >> accept_for k) (rs, a)).1.0)
  passed k id a h = elim (Result-cases (limit_for k rs).0) [
    | inl (_, e) ↦ rw e (rw (accept_for-redis k (limit_for k rs).1 a) (limit_for-Within k e))
    | inr (x, e) ↦ absurd (ground arith)
  ]

  -- With a rate limit's window of a positive length. Where the route replies with an id, the
  -- request has a raw key whose first row of its hash is active and not past its expiry, and
  -- after the call none of the counters of the key, of the user and of the client's address, as
  -- far as they are named, is above its limit.
  pub post_generate-Within :
      (id : String) (a : App)
      → (post_generate v request req now (rs, a)).0 ≡ ok id
      → (raw : String) × (k : ApiKey) × (request.api_key ≡ some raw)
        × IsAdmitted v.hash_api_key raw a.session k
        × Within v.settings
            (some k.id)
            req.user_id
            (some (client_ip request))
            (counters k (post_generate v request req now (rs, a)).1.0)
  unfolding post_generate on_session
  post_generate-Within id a h =
      elim (Result-cases
        (get_api_key v.hash_api_key v.api_key_header request.api_key a.session).0) [
          | inl (k, e) ↦
              let (raw, given, admitted) =
                get_api_key-IsAdmitted v.hash_api_key v.api_key_header a.session k request.api_key
                  e in
              (raw, k, given, admitted, rw e (passed k id _ (rw e at h)))
          | inr (x, e) ↦ absurd (ground arith)
        ]
