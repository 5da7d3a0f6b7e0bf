-- ===== src/DeadLetter.antt =====
-- app/queues/tasks.py: what follows an error of `process_generation`, a retry or the dead letter,
-- and the callback that both ends of a task send. The metrics are left out.
use ai_generation_api.Prelude.{
  ℕ, ◌+◌, ◌*◌, min, String, ◌<>◌, Bool, true, false, ◌&&◌, Option, none, some, [], ◌∷◌, ◌++◌, ◌==◌,
  string_eq, ltb, if◌then◌else◌,
}
use ai_generation_api.Errors.{
  Error, AppError, ErrorClass, app_raised, safety_blocked, soft_time_limit, validation,
}
use ai_generation_api.Exec.{Result, ok, err, Exec, pure, ◌>>=◌, ◌>>◌, modify}
use ai_generation_api.Models.{Task, Task_keyed, SystemEvent, failed}
use ai_generation_api.Session.{Session, commit, write}
use ai_generation_api.Value.{Fields, field, end, str, dict}
use ai_generation_api.TaskRepo
use ai_generation_api.Billing
use ai_generation_api.World.{World, in_session}
use ai_generation_api.Callback.{send_callback}
use ai_generation_api.Engine.{Engine, Verdict, finished, retry_after}

abbrev pub add_event : SystemEvent → Session → Session
add_event row s = commit (write (λ t. record t { system_events = t.system_events ++ row ∷ [] }) s)

-- `try: … except Exception:` around a call whose error is only logged.
abbrev pub swallow : {A : Type 0} → Exec Session A → Exec Session Unit
swallow m s = (ok tt, (m s).1)

abbrev pub no_error : Exec Session Unit
no_error s = (ok tt, s)

abbrev pub callback_of : Option Task → Option String
callback_of none = none
callback_of (some t) = t.callback_url

-- `dict(task.meta) if task and task.meta else {}`
abbrev pub meta_of : Option Task → Fields
meta_of none = end
meta_of (some t) = t.meta

abbrev pub nothing : Exec World Unit
nothing w = (ok tt, w)

-- The payload of the callback for a failed task.
abbrev pub failure_payload : String → String → Fields → Fields
failure_payload id error meta =
    field "task_id" (str id)
      (field "status" (str "failed") (field "error" (str error) (field "metadata" (dict meta) end)))

-- The row that records a dead letter.
abbrev pub dead_event : String → String → SystemEvent
dead_event id error = record {
  level = "error";
  source = "worker";
  event = "dead_letter";
  message = some error;
  detail = field "task_id" (str id) end;
}

abbrev pub fail_fields : String → Task → Task
fail_fields error t = record t { status = failed; error = some error }

abbrev pub with_retries : ℕ → Task → Task
with_retries n t = record t { retries = n }

module _ (g : Engine) where
  -- `if callback_url: send_callback(…)`
  abbrev pub notify : String → Fields → Option String → Exec World Unit
  notify id payload none = nothing
  notify id payload (some url) =
      if url == "" then nothing else (send_callback g.tenacity g.settings id url payload >> nothing)

  -- The block of `_dead_letter`.
  unfoldable pub record_failure : String → String → Exec Session (Option Task)
  unfolding commit write TaskRepo.update TaskRepo.get
  record_failure id error = do
    TaskRepo.update id (fail_fields error)
    modify (add_event (dead_event id error))
    if g.billing_enabled then swallow (Billing.refund id) else no_error
    TaskRepo.get id

  -- `_dead_letter`
  unfoldable pub dead_letter : String → String → Exec World Unit
  unfolding in_session record_failure send_callback
  dead_letter id error = do
    task ← in_session (record_failure id error)
    notify id (failure_payload id error (meta_of task)) (callback_of task)

  abbrev pub log_error : String → ℕ → String → Exec Session Unit
  log_error id retries error =
      TaskRepo.update id (with_retries retries)
      >> TaskRepo.add_log id "error" "error" (some error) end

  -- `_fail_or_retry`, where `self.request.retries` is `retries`.
  unfoldable pub fail_or_retry : String → ℕ → String → Bool → Exec World Verdict
  unfolding in_session TaskRepo.update TaskRepo.add_log dead_letter
  fail_or_retry id retries error retryable = do
    in_session (log_error id retries error)
    if retryable && ltb retries g.task_max_retries
        then pure (retry_after (min 60 (10 * (retries + 1))))
        else (dead_letter id error >> pure finished)

  abbrev class_failure : ErrorClass → AppError → String × Bool
  class_failure validation e = ("validation_error: " <> e.message, false)
  class_failure c e = (g.describe (app_raised e), true)

  -- The `except` clauses: the text of the error, and whether a retry can help.
  abbrev pub failure_of : Error → String × Bool
  failure_of (safety_blocked m) = ("content_blocked: " <> m, false)
  failure_of (app_raised e) = class_failure e.class e
  failure_of soft_time_limit = ("soft time limit exceeded", false)
  failure_of e = (g.describe e, true)

  unfoldable pub handle : String → ℕ → Result (Unit {0}) → Exec World Verdict
  unfolding fail_or_retry
  handle id retries (ok _) = pure finished
  handle id retries (err e) =
      let (error, retryable) = failure_of e in fail_or_retry id retries error retryable
