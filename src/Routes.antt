-- ===== src/Routes.antt =====
-- app/api/deps.py: what the routes read of a request. Header values are text of single bytes, as
-- Starlette decodes them. The routes of app/api/routes/ stand in the children; the one of a task is in
-- ApiKeyRepo, and the guard of the admin routes in Security.
pub mod Generation
pub mod Admission
pub mod Accounts
pub mod Deposits
pub mod Catalog
pub mod Uploads
use Prim.Native.Char.{code}
use ai_generation_api.Prelude.{
  ℕ, String, Bool, true, false, ◌&&◌, ◌||◌, Option, none, some, ◌==◌, nat_eq, string_eq, leb,
  if◌then◌else◌,
}
use ai_generation_api.Exec.{Exec}
use ai_generation_api.Settings.{Settings}
use ai_generation_api.Models.{ApiKey}
use ai_generation_api.RateLimiter
use ai_generation_api.RateLimiter.{Redis}

-- The header `API_KEY_HEADER`, `X-Forwarded-For` and `Authorization` ("" where there is none), and
-- `request.client.host`.
pub record Request : Type 0 where
  pub api_key : Option String
  pub forwarded_for : Option String
  pub authorization : String
  pub host : Option String

-- `str.strip` takes these away.
abbrev is_blank : ℕ → Bool
is_blank c = c == 32 || (leb 9 c && leb c 13) || (leb 28 c && leb c 31) || c == 0x85 || c == 0xa0

-- `text.split(",")[0]`
unfoldable pub before_comma : String → String
before_comma String.[] = ""
before_comma (String.◌∷◌ c s) =
    let rest = before_comma s in if code c == b',' then "" else String.◌∷◌ c rest

unfoldable pub strip_left : String → String
strip_left String.[] = ""
strip_left (String.◌∷◌ c s) =
    let rest = strip_left s in if is_blank (code c) then rest else String.◌∷◌ c s

unfoldable pub strip_right : String → String
strip_right String.[] = ""
strip_right (String.◌∷◌ c s) =
    let rest = strip_right s in if is_blank (code c) && rest == "" then "" else String.◌∷◌ c rest

abbrev or_host : Option String → String
or_host none = ""
or_host (some host) = host

-- `client_ip`
unfoldable pub client_ip : Request → String
unfolding before_comma strip_left strip_right
client_ip req = elim req.forwarded_for [
  | none ↦ or_host req.host
  | some fwd ↦ if fwd == "" then or_host req.host else strip_right (strip_left (before_comma fwd))
]

-- `enforce_rate_limit`
unfoldable pub enforce_rate_limit :
    (redis : Redis)
    → (ℕ → String)
    → Settings
    → Request
    → ApiKey
    → Option String
    → ℕ
    → Exec redis.State Unit
enforce_rate_limit redis digits c req key user_id now =
    RateLimiter.enforce redis digits c (some key.id) user_id (some (client_ip req)) now
