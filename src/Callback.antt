-- ===== src/Callback.antt =====
-- app/services/callback_service.py: delivery of a result to the source server. Tenacity's `retry` is
-- a parameter with its documented laws; the signature's HMAC, the JSON text and the pauses are left
-- out: a post carries the payload.
pub mod Attempts
pub mod Delivery
pub mod Frame
use ai_generation_api.Prelude.{
  ℕ, zero, suc, ◌+◌, String, ◌≡◌, Bool, true, false, Option, none, some, List, [], ◌∷◌, ◌++◌,
  length, is_some, ◌==◌, string_eq, if◌then◌else◌,
}
use ai_generation_api.Errors.{Error, http_error, integrity_error}
use ai_generation_api.Exec.{Result, ok, err, Exec, pure, raise, ◌>>=◌, ◌>>◌, modify}
use ai_generation_api.Models.{
  Task_keyed, Webhook, Webhook_keyed, HookState, pending, delivered, failed, Tables,
}
use ai_generation_api.Models.Table
use ai_generation_api.Session.{Session, commit, write, next_id, draw}
use ai_generation_api.Settings.{Settings}
use ai_generation_api.Value.{Fields}
use ai_generation_api.World.{World, Post, in_session}

-- `retry(stop=stop_after_attempt(n), reraise=True)`: the call is made until it returns or has been
-- made `n` times, at least once, and the last exception is raised.
pub record Tenacity : Type 1 where
  pub retry : {S A : Type 0} → ℕ → Exec S A → Exec S A
  pub retry-zero : {S A : Type 0} (m : Exec S A) (s : S) → retry zero m s ≡ retry 1 m s
  pub retry-ok :
      {S A : Type 0} (n : ℕ) (m : Exec S A) (s s' : S) (a : A)
      → m s ≡ (ok a, s')
      → retry (suc n) m s ≡ (ok a, s')
  pub retry-last :
      {S A : Type 0} (m : Exec S A) (s s' : S) (e : Error)
      → m s ≡ (err e, s')
      → retry 1 m s ≡ (err e, s')
  pub retry-more :
      {S A : Type 0} (n : ℕ) (m : Exec S A) (s s' : S) (e : Error)
      → m s ≡ (err e, s')
      → retry (suc (suc n)) m s ≡ retry (suc n) m s'

-- `_post_once`: the next reply of the stream.
unfoldable pub post_once : String → Fields → Exec World ℕ
post_once url payload w = (
  w.replies (length w.posted),
  record w { posted = record { url = url; payload = payload } ∷ w.posted },
)

-- The world and the local dicts `attempts` and `last_code`.
pub record Locals : Type 0 where
  pub world : World
  pub attempts : ℕ
  pub last_code : Option ℕ

abbrev pub code_of : Result ℕ → Option ℕ → Option ℕ
code_of (ok code) old = some code
code_of (err e) old = old

-- `_do`
unfoldable pub attempt : String → Fields → Exec Locals ℕ
unfolding post_once
attempt url payload s =
    let (r, w) = post_once url payload s.world in
    (r, record { world = w; attempts = s.attempts + 1; last_code = code_of r s.last_code })

abbrev pub new_hook : String → String → Fields → String → Webhook
new_hook task_id url payload id = record {
  id = id;
  task_id = task_id;
  url = url;
  payload = payload;
  status = pending;
  attempts = 0;
  response_code = none;
  last_error = none;
}

-- `db.add(hook); db.commit()`, with the id that the row drew and the foreign key of the task.
unfoldable pub add_hook : String → String → Fields → Exec Session String
unfolding commit write
add_hook task_id url payload s =
    let id = next_id s in
    if is_some (Table.get task_id s.current.tasks)
    then (
      ok id,
      commit (
          draw (
            write (λ t. record t { webhooks = t.webhooks ++ new_hook task_id url payload id ∷ [] })
              s)),
    )
    else (err integrity_error, draw s)

abbrev pub set_outcome : HookState → ℕ → Option ℕ → Option String → Webhook → Webhook
set_outcome status attempts code error h = record h {
  status = status;
  attempts = attempts;
  response_code = code;
  last_error = error;
}

-- `_finalize`
unfoldable pub finalize : String → HookState → ℕ → Option ℕ → Option String → Exec Session Unit
unfolding commit write
finalize id status attempts code error s = elim (Table.get id s.current.webhooks) [
  | none ↦ (ok tt, s)
  | some hook ↦ (
    ok tt,
    commit (
        write
          (λ t. record t {
            webhooks = Table.update id (set_outcome status attempts code error) t.webhooks;
          })
          s),
  )
]

-- `str(e)` of the exceptions that are caught.
abbrev pub settle : String → Result ℕ → Locals → Result Bool × World
settle id (ok code) s =
    (in_session (finalize id delivered s.attempts (some code) none) >> pure true) s.world
settle id (err (http_error text)) s =
    (in_session (finalize id failed s.attempts s.last_code (some text)) >> pure false) s.world
settle id (err e) s = (err e, s.world)

module _ (tenacity : Tenacity) (c : Settings) where
  abbrev deliver : String → Fields → String → Exec World Bool
  deliver url payload id w =
      let (r, s) =
        tenacity.retry c.callback_max_retries (attempt url payload)
          (record { world = w; attempts = 0; last_code = none }) in
      settle id r s

  -- `send_callback`
  unfoldable pub send_callback : String → String → Fields → Exec World Bool
  unfolding in_session add_hook finalize
  send_callback task_id url payload =
      if url == ""
      then pure false
      else (in_session (add_hook task_id url payload) >>= deliver url payload)
