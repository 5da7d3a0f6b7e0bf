-- ===== src/ApiKeyRepo.antt =====
-- app/repositories/api_key_repo.py and the guards of app/api/deps.py and app/api/routes/tasks.py.
-- SHA-256 (`hash_api_key`) is a parameter. The header's value and the id in the path are what FastAPI
-- gives.
pub mod Access
use ai_generation_api.Prelude.{
  ℕ, String, ◌<>◌, Bool, true, false, not, ◌&&◌, Option, none, some, find, ltb, ◌==◌, string_eq,
  option_eq, if◌then◌else◌,
}
use ai_generation_api.Errors.{raised, auth, not_found}
use ai_generation_api.Exec.{Result, ok, err, Exec, pure, raise, ◌>>=◌}
use ai_generation_api.Models.{
  ApiKey, ApiKey_keyed, KeyStatus, KeyStatus_eq, active, expired, Task, Tables,
}
use ai_generation_api.Models.Table
use ai_generation_api.Session.{Session, commit, write}
use ai_generation_api.TaskRepo

abbrev missing : String → String
missing header = "missing " <> (header <> " header")

abbrev pub has_hash : String → ApiKey → Bool
has_hash h k = k.key_hash == h

-- `key.expires_at and key.expires_at < datetime.now(UTC)`
abbrev pub is_past : Option ℕ → ℕ → Bool
is_past none now = false
is_past (some t) now = ltb t now

abbrev pub expire : ApiKey → ApiKey
expire k = record k { status = expired }

-- `key.status = "expired"; db.commit()`
unfoldable pub mark_expired : String → Session → Session
unfolding commit write
mark_expired id s =
    commit (write (λ t. record t { api_keys = Table.update id expire t.api_keys }) s)

-- The checks of a row that was found.
abbrev pub checked : ApiKey → Exec Session (Option ApiKey)
checked k s =
    if k.status == active
    then (if is_past k.expires_at s.now then (ok none, mark_expired k.id s) else (ok (some k), s))
    else (ok none, s)

abbrev check_row : Option ApiKey → Exec Session (Option ApiKey)
check_row none s = (ok none, s)
check_row (some k) s = checked k s

module _ (hash_api_key : String → String) where
  unfoldable pub get_active_by_raw : String → Exec Session (Option ApiKey)
  unfolding mark_expired
  get_active_by_raw raw s = check_row (find (has_hash (hash_api_key raw)) s.current.api_keys) s

  abbrev pub or_refused : Option ApiKey → Exec Session ApiKey
  or_refused none = raise (raised auth "invalid, suspended or expired API key")
  or_refused (some k) = pure k

  -- `get_api_key`, for the value of the header `API_KEY_HEADER`.
  unfoldable pub get_api_key : String → Option String → Exec Session ApiKey
  unfolding get_active_by_raw
  get_api_key header none = raise (raised auth (missing header))
  get_api_key header (some raw) =
      if raw == ""
      then raise (raised auth (missing header))
      else (get_active_by_raw raw >>= or_refused)

abbrev pub foreign : Option String → ApiKey → Bool
foreign none k = false
foreign (some owner) k = not (owner == "") && not (owner == k.id)

abbrev own_task : ApiKey → Option Task → Result Task
own_task k none = err (raised not_found "task not found")
own_task k (some t) =
    if foreign t.api_key_id k then err (raised not_found "task not found") else ok t

-- app/api/routes/tasks.py `get_task`, for the key of the caller.
unfoldable pub get_task : String → ApiKey → Exec Session Task
unfolding TaskRepo.get
get_task id k = TaskRepo.get id >>= λ t s. (own_task k t, s)
