-- ===== src/Security.antt =====
-- app/core/security.py: signatures of callbacks and internal tokens, and the guard of the admin routes
-- in app/api/deps.py. HMAC-SHA256 and PyJWT are parameters; `digits` prints a number. Time is in whole
-- seconds.
pub mod RoundTrip
use ai_generation_api.Prelude.{
  ℕ, suc, ◌+◌, ◌≤◌, ◌<◌, String, ◌<>◌, ◌≡◌, ◌⊎◌, inl, inr, Bool, true, false, Option, none, some,
  ◌==◌, string_eq, nat_eq, if◌then◌else◌,
}
use ai_generation_api.Prelude.Int.{pos}
use ai_generation_api.Errors.{raised, auth}
use ai_generation_api.Exec.{Result, ok, err}
use ai_generation_api.Value
use ai_generation_api.Value.{Value, Fields, field, end, str, int}

module _ (hmac : String → String → String) (digits : ℕ → String) (secret : String) where
  abbrev stamp : Option ℕ → ℕ → ℕ
  stamp none now = now
  stamp (some t) now = if t == 0 then now else t

  -- `sign_payload`, with the `timestamp` that may be given, at a time.
  unfoldable pub sign_payload : String → Option ℕ → ℕ → String × String
  sign_payload body timestamp now =
      let ts = digits (stamp timestamp now) in (ts, hmac secret (ts <> ("." <> body)))

  -- `verify_signature`; `compare_digest` is equality.
  unfoldable pub verify_signature : String → String → String → Bool
  verify_signature body timestamp signature = hmac secret (timestamp <> ("." <> body)) == signature

-- PyJWT with HS256: `decode` gives the claims or the text of an `InvalidTokenError`, at a time.
pub record Jwt : Type 0 where
  pub encode : Fields → String → String
  pub decode : String → String → ℕ → String ⊎ Fields

-- `text[len(prefix):]` of a text that starts with the prefix.
unfoldable pub strip_prefix : String → String → Option String
strip_prefix String.[] text = some text
strip_prefix (String.◌∷◌ c p) String.[] = none
strip_prefix (String.◌∷◌ c p) (String.◌∷◌ d text) =
    let rest = strip_prefix p text in
    if (String.◌∷◌ c String.[]) == (String.◌∷◌ d String.[]) then rest else none

abbrev pub is_internal : Option Value → Bool
is_internal (some (str scope)) = scope == "internal"
is_internal _ = false

module _ (jwt : Jwt) (secret : String) where
  abbrev pub claims_of : String → ℕ → ℕ → Fields
  claims_of subject ttl now = field "sub" (str subject) (
      field "scope" (str "internal")
        (field "iat" (int (pos now)) (field "exp" (int (pos (now + ttl))) end)))

  -- `issue_internal_token`
  unfoldable pub issue_internal_token : String → ℕ → ℕ → String
  issue_internal_token subject ttl now = jwt.encode (claims_of subject ttl now) secret

  abbrev pub scoped : String ⊎ Fields → String ⊎ Fields
  scoped (inl e) = inl e
  scoped (inr claims) =
      if is_internal (Value.get claims "scope") then inr claims else inl "not an internal token"

  -- `verify_internal_token`
  unfoldable pub verify_internal_token : String → ℕ → String ⊎ Fields
  verify_internal_token token now = scoped (jwt.decode token secret now)

  abbrev pub or_invalid : String ⊎ Fields → Result Fields
  or_invalid (inl e) = err (raised auth ("invalid internal token: " <> e))
  or_invalid (inr claims) = ok claims

  abbrev pub bearer : Option String → ℕ → Result Fields
  bearer none now = err (raised auth "missing internal bearer token")
  bearer (some token) now = or_invalid (verify_internal_token token now)

  -- `require_internal_token`, for the header `Authorization`, empty where there is none.
  unfoldable pub require_internal_token : String → ℕ → Result Fields
  unfolding strip_prefix verify_internal_token
  require_internal_token header now = bearer (strip_prefix "Bearer " header) now
