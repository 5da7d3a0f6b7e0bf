-- ===== src/Tests/Samples.antt =====
-- A small database, its keys and tasks, and the settings of the runs.
use ai_generation_api.Prelude.{true, none, some, List, [], ◌∷◌}
use ai_generation_api.Prelude.Int.{ℤ, pos}
use ai_generation_api.Models.{ApiKey, active, Task, Tables, BillingLedger, EntryType}
use ai_generation_api.Session.{Database}
use ai_generation_api.Settings.{Settings}
use ai_generation_api.Value.{end}
use ai_generation_api.Modes.{ModeConfig}
use ai_generation_api.TaskService.{GenerateRequest, new_task}

abbrev pub partner : ApiKey
partner = record {
  id = "k1";
  name = "partner";
  key_hash = "h1";
  callback_url = none;
  user_id = none;
  status = active;
  expires_at = none;
  balance_credits = pos 100;
  price_overrides = end;
}

abbrev pub request : GenerateRequest
request = record {
  task_type = "photo";
  mode = "portrait";
  image_url = some "http://img/1.png";
  reference_urls = [];
  driving_url = none;
  mask_url = none;
  user_id = none;
  request_id = some "r1";
  callback_url = none;
  metadata = end;
}

abbrev pub portrait : Task
portrait = new_task request (some partner) "t1"

abbrev pub paid_portrait : Task
paid_portrait = record portrait { price_credits = some (pos 30) }

abbrev pub tables_of : List Task → List BillingLedger → Tables
tables_of tasks ledger = record {
  api_keys = partner ∷ [];
  tasks = tasks;
  ledger = ledger;
  generations = [];
  task_logs = [];
  system_events = [];
  webhooks = [];
}

abbrev pub database_of : Tables → Database
database_of t = record { stored = t; now = 7; uuid = λ n. "id"; drawn = 0 }

-- One task, not charged yet.
abbrev pub fresh_database : Database
fresh_database = database_of (tables_of (portrait ∷ []) [])

abbrev pub entry : EntryType → ℤ → BillingLedger
entry e amount = record {
  id = "e1";
  api_key_id = "k1";
  task_id = some "t1";
  entry_type = e;
  amount_credits = amount;
  balance_after = pos 100;
  note = none;
  created_at = 3;
}

abbrev pub settings : Settings
settings = record {
  app_env = "local";
  log_level = "INFO";
  generation_provider = "mock";
  comfyui_url = "http://localhost:8188";
  comfyui_timeout = 600;
  comfyui_poll_interval_ms = 1000;
  safety_provider = "insightface";
  safety_min_age = 21;
  safety_fail_closed = true;
  database_url = "postgresql://db";
  redis_url = "redis://localhost:6379/0";
  celery_broker_url = "redis://localhost:6379/1";
  celery_result_backend = "redis://localhost:6379/2";
  modes_dir = "./config/modes";
  workflows_dir = "./config/workflows";
  models_config = "./config/models.yaml";
  storage_provider = "local";
  storage_local_dir = "storage";
  public_base_url = "http://api";
  s3_endpoint_url = "";
  s3_region = "auto";
  s3_bucket = "";
  s3_access_key = "";
  s3_secret_key = "";
  s3_public_url = "";
  task_soft_timeout = 540;
  task_hard_timeout = 600;
  task_max_retries = 1;
  callback_max_retries = 2;
  api_key_header = "X-API-Key";
  webhook_signing_secret = "key";
  internal_jwt_secret = "key";
  rate_limit_per_api_key = 10;
  rate_limit_per_user = 10;
  rate_limit_per_ip = 10;
  rate_limit_window_seconds = 60;
  billing_enabled = true;
  pricing_config = "./config/pricing.yaml";
}

abbrev pub portrait_mode : ModeConfig
portrait_mode = record {
  id = "portrait";
  type = "photo";
  enabled = true;
  model = "flux";
  workflow = none;
  params = end;
  prompt_template = "a portrait";
  negative_prompt = "";
  preserve_face = true;
  reference_strength = none;
}
