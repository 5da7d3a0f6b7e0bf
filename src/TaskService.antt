-- ===== src/TaskService.antt =====
-- app/services/task_service.py: acceptance of a generation task. The broker is the list of messages
-- that `apply_async` has put into Celery's queues, or it is out of reach.
pub mod Accept
pub mod Outcomes
pub mod Replay
pub mod Books
use ai_generation_api.Prelude.{
  ℕ, String, ◌<>◌, Bool, true, false, not, ◌&&◌, Option, none, some, is_some, List, [], ◌∷◌, ◌++◌,
  ◌==◌, string_eq, if◌then◌else◌,
}
use ai_generation_api.Prelude.Int.{ℤ, pos}
use ai_generation_api.Errors.{
  Error, ErrorClass, AppError, app_raised, raised, validation, payment_required,
}
use ai_generation_api.Exec.{Result, ok, err, Exec, pure, raise, lift, ◌>>=◌, ◌>>◌, modify, raise_if}
use ai_generation_api.Models.{ApiKey, Task, queued, failed}
use ai_generation_api.Session.{Session}
use ai_generation_api.Settings.{Settings}
use ai_generation_api.Value.{Value, Fields, field, end, str}
use ai_generation_api.Modes
use ai_generation_api.Modes.{ModeRegistry, ModeConfig}
use ai_generation_api.Pricing.{PricingRegistry, price_for}
use ai_generation_api.TaskRepo
use ai_generation_api.Billing

-- app/schemas/generate.py `GenerateRequest`, after validation.
pub record GenerateRequest : Type 0 where
  pub task_type : String
  pub mode : String
  pub image_url : Option String
  pub reference_urls : List String
  pub driving_url : Option String
  pub mask_url : Option String
  pub user_id : Option String
  pub request_id : Option String
  pub callback_url : Option String
  pub metadata : Fields

-- A message: the queue and the task's id.
pub record Message : Type 0 where
  pub queue : String
  pub task_id : String

-- What a request acts on: its database session, the broker's messages, and the error that
-- `apply_async` raises where the broker cannot be reached.
pub record App : Type 0 where
  pub session : Session
  pub open session use *
  pub broker : List Message
  pub outage : Option Error

unfoldable pub on_session : {A : Type 0} → Exec Session A → Exec App A
on_session m a = let (r, s) = m a.session in (r, record a { session = s })

-- `api_key.id if api_key else None`
abbrev pub key_id : Option ApiKey → Option String
key_id none = none
key_id (some k) = some k.id

abbrev default_callback : Option ApiKey → Option String
default_callback none = none
default_callback (some k) = k.callback_url

abbrev pub callback_for : Option String → Option ApiKey → Option String
callback_for none key = default_callback key
callback_for (some url) key = some url

-- The row that `task_repo.create` is given.
abbrev pub new_task : GenerateRequest → Option ApiKey → String → Task
new_task req key id = record {
  id = id;
  request_id = req.request_id;
  task_type = req.task_type;
  mode = req.mode;
  image_url = req.image_url;
  reference_urls = req.reference_urls;
  driving_url = req.driving_url;
  mask_url = req.mask_url;
  user_id = req.user_id;
  api_key_id = key_id key;
  callback_url = callback_for req.callback_url key;
  meta = req.metadata;
  status = queued;
  progress = pos 0;
  result_url = none;
  error = none;
  retries = 0;
  generation_time_ms = none;
  price_credits = none;
}

-- `if req.request_id:` and the query for an earlier task.
abbrev pub find_existing : Option String → Option String → Exec Session (Option Task)
find_existing none key_id = pure none
find_existing (some request) key_id =
    if request == "" then pure none else TaskRepo.get_by_request_id key_id request

abbrev pub reject : Task → Task
reject t = record t { status = failed; error = some "insufficient_balance" }

-- `except PaymentRequiredError:` the task is marked failed, and the error goes on.
abbrev pub give_up : ErrorClass → String → AppError → Exec Session Unit
give_up payment_required id e = do TaskRepo.update id reject; raise (app_raised e)
give_up class id e = raise (app_raised e)

abbrev pub settle_hold : String → Result (Unit {0}) → Exec Session Unit
settle_hold id (err (app_raised e)) = give_up e.class id e
settle_hold id r = lift r

-- `if billing_on:` the reservation, for a key and a price.
abbrev pub hold_price : Option (ApiKey × ℤ) → String → Exec Session Unit
hold_price none id s = (ok tt, s)
hold_price (some (key, price)) id s =
    let (r, s') = Billing.reserve key id price s in settle_hold id r s'

abbrev pub queue_of : String → String
queue_of task_type = if task_type == "video" then "generation_video" else "generation"

abbrev pub sent : {A : Type 0} → Option Error → A → Result A
sent none x = ok x
sent (some e) x = err e

abbrev pub delivered : Option Error → List Message → Message → List Message
delivered none broker m = broker ++ m ∷ []
delivered (some e) broker m = broker

-- `process_generation.apply_async(args=[task.id], queue=queue)`
abbrev pub enqueue : String → String → Exec App Unit
enqueue queue id a = (
  sent a.outage tt,
  record a { broker = delivered a.outage a.broker (record { queue = queue; task_id = id }) },
)

abbrev pub wrong_type : GenerateRequest → ModeConfig → Error
wrong_type req mode = raised validation (
    "mode '"
    <> (req.mode <> ("' is type '" <> (mode.type <> ("', not '" <> (req.task_type <> "'"))))))

abbrev pub with_key : ApiKey → Result ℤ → Result (Option (ApiKey × ℤ))
with_key key (ok price) = ok (some (key, price))
with_key key (err e) = err e

-- The task's row and its first log.
abbrev pub open_task : GenerateRequest → Option ApiKey → Exec Session Task
open_task req key = do
  task ← TaskRepo.create (new_task req key)
  TaskRepo.add_log task.id "task_created" "info" none (field "mode" (str req.mode) end)
  pure task

module _ (c : Settings) (modes : ModeRegistry) (pricing : PricingRegistry)
    (repr : Value → String) where
  -- `billing_on` and the price, which is computed before the task exists.
  abbrev pub quote : GenerateRequest → Option ApiKey → Result (Option (ApiKey × ℤ))
  quote req none = ok none
  quote req (some key) =
      if c.billing_enabled
      then with_key key (price_for repr pricing req.task_type req.mode (some key))
      else ok none

  -- What follows the query for an earlier task.
  abbrev pub accept : GenerateRequest → Option ApiKey → Option Task → Exec App (String × Bool)
  accept req key (some existing) = pure (existing.id, false)
  accept req key none = do
    price ← lift (quote req key)
    task ← on_session (open_task req key)
    on_session (hold_price price task.id)
    enqueue (queue_of req.task_type) task.id
    pure (task.id, true)

  unfoldable pub create_task : GenerateRequest → Option ApiKey → Exec App (String × Bool)
  unfolding on_session TaskRepo.create TaskRepo.add_log TaskRepo.update
  create_task req key = do
    mode ← lift (Modes.get modes req.mode)
    raise_if (not (mode.type == req.task_type)) (wrong_type req mode)
    existing ← on_session (find_existing req.request_id (key_id key))
    accept req key existing
