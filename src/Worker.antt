-- ===== src/Worker.antt =====
-- app/queues/tasks.py: the Celery task `process_generation`. Left out: the metrics, the log lines of
-- the process and `gc.collect`.
pub mod Blocks
pub mod Keeps
pub mod Ends
pub mod Refunds
pub mod Settles
pub mod Invariants
use ai_generation_api.Prelude.{
  ℕ, zero, suc, String, ◌<>◌, Bool, Option, none, some, List, [], ◌∷◌, ◌++◌, map, string_eq,
  if◌then◌else◌,
}
use ai_generation_api.Prelude.Int.{ℤ, pos, max_ℤ, min_ℤ}
use ai_generation_api.Exec.{Result, ok, Exec, lift, ◌>>=◌, ◌>>◌, modify}
use ai_generation_api.Models.{Task, Task_keyed, Generation, processing, completed}
use ai_generation_api.Session.{Session, commit, write}
use ai_generation_api.Value
use ai_generation_api.Value.{Value, Fields, field, end, str, int, dict}
use ai_generation_api.Modes
use ai_generation_api.Modes.{ModeRegistry, ModeConfig}
use ai_generation_api.Safety.{enforce_safety}
use ai_generation_api.TaskRepo
use ai_generation_api.Billing
use ai_generation_api.World.{World, in_session}
use ai_generation_api.Callback.{send_callback}
use ai_generation_api.Engine.{
  Engine, Verdict, finished, retry_after, GenerationRequest, GenerationResult, Provider,
  get_provider, build_prompt, opt_text, resolve,
}
use ai_generation_api.DeadLetter.{swallow, no_error, callback_of, notify, handle}

-- `task_repo_update`, in a session of its own.
abbrev pub task_repo_update : String → (Task → Task) → Exec World (Option Task)
task_repo_update id fields = in_session (TaskRepo.update id fields)

abbrev pub clamp : ℤ → ℤ
clamp p = max_ℤ (pos 0) (min_ℤ (pos 100) p)

abbrev pub with_progress : ℤ → Task → Task
with_progress p t = record t { progress = clamp p }

-- The function that `_progress_setter` returns.
unfoldable pub set_progress : String → ℤ → Exec World (Option Task)
unfolding in_session TaskRepo.update
set_progress id p = task_repo_update id (with_progress p)

unfoldable pub report_all : String → List ℤ → Exec World Unit
unfolding set_progress
report_all id [] w = (ok tt, w)
report_all id (p ∷ ps) w = report_all id ps (set_progress id p w).1

abbrev pub context_of : Task → Fields
context_of t = field "image_url" (opt_text t.image_url) (
    field "user_id" (opt_text t.user_id) (
      field "request_id" (opt_text t.request_id) (
        field "task_type" (str t.task_type)
          (field "mode" (str t.mode) (field "metadata" (dict t.meta) end)))))

-- `{"name": mode.model, **model_cfg}`: a name that the configuration gives replaces the mode's.
abbrev named : Value → Option Value → Value
named name none = name
named name (some other) = other

abbrev pub request_of : String → Task → ModeConfig → Fields → String × String → GenerationRequest
request_of id t mode model prompts = record {
  task_id = id;
  task_type = t.task_type;
  mode_id = t.mode;
  prompt = prompts.0;
  negative_prompt = prompts.1;
  image_url = t.image_url;
  model = field "name" (named (str mode.model) (Value.get model "name")) model;
  workflow = mode.workflow;
  params = mode.params;
  preserve_face = mode.preserve_face;
  reference_strength = mode.reference_strength;
  reference_urls = t.reference_urls;
  driving_url = t.driving_url;
  mask_url = t.mask_url;
}

-- `provider.generate(gen_req, _progress_setter(task_id))`
abbrev pub generate : Provider → ℕ → GenerationRequest → Exec World GenerationResult
generate provider run req =
    report_all req.task_id (provider.reports req run) >> lift (provider.generate req run)

abbrev pub start_fields : Task → Task
start_fields t = record t { status = processing; progress = pos 0 }

abbrev pub done_fields : String → ℕ → Task → Task
done_fields url ms t = record t {
  status = completed;
  progress = pos 100;
  result_url = some url;
  error = none;
  generation_time_ms = some ms;
}

-- `db.add(row); db.commit()`
abbrev pub add_generation : Generation → Exec Session Unit
add_generation row =
    TaskRepo.add_row row.task_id (λ t. record t { generations = t.generations ++ row ∷ [] })

abbrev pub success_detail : String → ℕ → Fields
success_detail url ms = field "url" (str url) (field "ms" (int (pos ms)) end)

-- The payload of the callback for a completed task.
abbrev pub success_payload : String → String → ℕ → Fields → Fields
success_payload id url ms meta = field "task_id" (str id) (
    field "status" (str "completed") (
      field "result_url" (str url)
        (field "generation_time" (int (pos ms)) (field "metadata" (dict meta) end))))

-- The block after a generation.
unfoldable pub record_success : Bool → String → Generation → ℕ → String → Exec Session Unit
unfolding TaskRepo.update TaskRepo.add_row TaskRepo.add_log
record_success billing id row ms url = do
  add_generation row
  TaskRepo.update id (done_fields url ms)
  TaskRepo.add_log id "completed" "info" none (success_detail url ms)
  if billing then swallow (Billing.commit_charge_audit id) else no_error

module _ (g : Engine) where
  -- `_send_success_callback`
  unfoldable pub send_success_callback : String → String → ℕ → Fields → Exec World Unit
  unfolding in_session TaskRepo.get send_callback
  send_success_callback id url ms meta = do
    task ← in_session (TaskRepo.get id)
    notify g id (success_payload id url ms meta) (callback_of task)

  abbrev pub check_safety : Task → Result (Unit {0})
  check_safety t =
      enforce_safety g.detector g.settings g.load_bytes (t.image_url ∷ map some t.reference_urls)
        t.meta

  abbrev pub generation_row :
      String → Task → ModeConfig → String × String → GenerationResult → String → ℕ → Generation
  generation_row id t mode prompts result url ms = record {
    task_id = id;
    provider = (get_provider g).name;
    model = result.model;
    prompt = some prompts.0;
    params = mode.params;
    result_url = some url;
    duration_ms = some ms;
  }

  -- The `try` block, for the row that was read.
  unfoldable pub work : String → ℕ → Task → Exec World Unit
  unfolding in_session TaskRepo.update report_all record_success send_success_callback build_prompt
      get_provider
  work id retries t = do
    task_repo_update id start_fields
    lift (check_safety t)
    mode ← lift (Modes.get g.modes t.mode)
    prompts ← lift (build_prompt g mode (context_of t))
    result ←
        generate (get_provider g) retries
          (request_of id t mode (resolve (g.models mode.model)) prompts)
    url ← lift (g.save (id <> ("." <> result.ext)) result.content result.content_type)
    in_session (
        record_success g.billing_enabled id
          (generation_row id t mode prompts result url (g.elapsed_ms retries))
          (g.elapsed_ms retries) url)
    send_success_callback id url (g.elapsed_ms retries) t.meta

  abbrev pub process : String → ℕ → Option Task → Exec World Verdict
  process id retries none w = (ok finished, w)
  process id retries (some t) w = let (r, w') = work id retries t w in handle g id retries r w'

  -- `process_generation`
  unfoldable pub process_generation : String → ℕ → Exec World Verdict
  unfolding in_session TaskRepo.get work handle
  process_generation id retries = do task ← in_session (TaskRepo.get id); process id retries task

  abbrev pub again : (ℕ → Exec World Verdict) → ℕ → Verdict → Exec World Verdict
  again rest retries finished w = (ok finished, w)
  again rest retries (retry_after s) w = rest (suc retries) w

  -- Celery's redeliveries of one message, with at most `fuel` runs: each retry raises `retries` by 1.
  unfoldable pub run_task : ℕ → String → ℕ → Exec World Verdict
  unfolding process_generation
  run_task zero id retries w = (ok (retry_after 0), w)
  run_task (suc fuel) id retries w =
      (process_generation id retries >>= again (run_task fuel id) retries) w
