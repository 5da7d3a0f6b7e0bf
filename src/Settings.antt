-- ===== src/Settings.antt =====
-- app/core/config.py: the settings. The interval between polls is in milliseconds.
use ai_generation_api.Prelude.{ℕ, String, Bool}

pub record Settings : Type 0 where
  pub app_env : String
  pub log_level : String
  pub generation_provider : String
  pub comfyui_url : String
  pub comfyui_timeout : ℕ
  pub comfyui_poll_interval_ms : ℕ
  pub safety_provider : String
  pub safety_min_age : ℕ
  pub safety_fail_closed : Bool
  pub database_url : String
  pub redis_url : String
  pub celery_broker_url : String
  pub celery_result_backend : String
  pub modes_dir : String
  pub workflows_dir : String
  pub models_config : String
  pub storage_provider : String
  pub storage_local_dir : String
  pub public_base_url : String
  pub s3_endpoint_url : String
  pub s3_region : String
  pub s3_bucket : String
  pub s3_access_key : String
  pub s3_secret_key : String
  pub s3_public_url : String
  pub task_soft_timeout : ℕ
  pub task_hard_timeout : ℕ
  pub task_max_retries : ℕ
  pub callback_max_retries : ℕ
  pub api_key_header : String
  pub webhook_signing_secret : String
  pub internal_jwt_secret : String
  pub rate_limit_per_api_key : ℕ
  pub rate_limit_per_user : ℕ
  pub rate_limit_per_ip : ℕ
  pub rate_limit_window_seconds : ℕ
  pub billing_enabled : Bool
  pub pricing_config : String
