-- ===== src/Scripts.antt =====
-- scripts/create_api_key.py and scripts/topup.py, the administrator's commands, with
-- `generate_api_key` of app/core/security.py. What is printed is what is returned. SHA-256 and the
-- random text of `secrets.token_urlsafe` are parameters.
pub mod Keys
pub mod VideoModes
pub mod Workflow
use ai_generation_api.Prelude.{
  String, ◌<>◌, Bool, Option, none, some, is_some, List, [], ◌∷◌, ◌++◌, any, ◌||◌, if◌then◌else◌,
}
use ai_generation_api.Prelude.Int.{ℤ, pos}
use ai_generation_api.Errors.{integrity_error}
use ai_generation_api.Exec.{ok, err, Exec, pure, ◌>>=◌, ◌>>◌, modify}
use ai_generation_api.Value.{end}
use ai_generation_api.Models.{ApiKey, ApiKey_keyed, active, Tables}
use ai_generation_api.Models.Table
use ai_generation_api.Session.{Database, Session, commit, write, next_id, draw, with_session}
use ai_generation_api.ApiKeyRepo.{has_hash}
use ai_generation_api.Billing

-- The columns that the script leaves out have their defaults.
abbrev pub new_key : String → String → Option String → String → ApiKey
new_key name key_hash callback id = record {
  id = id;
  name = name;
  key_hash = key_hash;
  callback_url = callback;
  user_id = none;
  status = active;
  expires_at = none;
  balance_credits = pos 0;
  price_overrides = end;
}

-- The primary key and the unique `key_hash`.
abbrev pub key_clashes : ApiKey → List ApiKey → Bool
key_clashes k keys = is_some (Table.get k.id keys) || any (has_hash k.key_hash) keys

abbrev pub with_new_key : ApiKey → Tables → Tables
with_new_key k t = record t { api_keys = t.api_keys ++ k ∷ [] }

-- `db.add(key)`, whose flush checks the constraints.
unfoldable pub add_key : (String → ApiKey) → Exec Session ApiKey
unfolding write
add_key fields s =
    let k = fields (next_id s) in
    if key_clashes k s.current.api_keys
    then (err integrity_error, draw s)
    else (ok k, draw (write (with_new_key k) s))

module _ (hash_api_key : String → String) where
  -- `generate_api_key`, for the random text.
  unfoldable pub generate_api_key : String → String × String
  generate_api_key token = let raw = "sk_" <> token in (raw, hash_api_key raw)

  -- scripts/create_api_key.py `main`: the row, and the raw key.
  unfoldable pub create_api_key : String → Option String → String → Exec Database (ApiKey × String)
  unfolding generate_api_key add_key commit with_session
  create_api_key name callback token =
      let (raw, key_hash) = generate_api_key token in
      with_session
        (do key ← add_key (new_key name key_hash callback); modify commit; pure (key, raw))

-- scripts/topup.py `main`
unfoldable pub topup_main : String → ℤ → Option String → Exec Database ℤ
unfolding with_session
topup_main api_key_id amount note = with_session (Billing.topup api_key_id amount note)
