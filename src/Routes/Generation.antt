-- ===== src/Routes/Generation.antt =====
-- app/api/routes/generate.py: a request for a generation, from its key to the accepted task. The
-- state is Redis, and the session with the broker. The metric is left out.
use ai_generation_api.Prelude.{ℕ, String, some}
use ai_generation_api.Exec.{Exec, pure, ◌>>=◌, ◌>>◌}
use ai_generation_api.Settings.{Settings}
use ai_generation_api.Value.{Value}
use ai_generation_api.Modes.{ModeRegistry}
use ai_generation_api.Pricing.{PricingRegistry}
use ai_generation_api.RateLimiter.{Redis}
use ai_generation_api.ApiKeyRepo.{get_api_key}
use ai_generation_api.TaskService.{App, GenerateRequest, on_session, create_task}
use ai_generation_api.Routes.{Request, enforce_rate_limit}

-- What the route is built from.
pub record Service : Type 1 where
  pub settings : Settings
  pub redis : Redis
  pub digits : ℕ → String
  pub modes : ModeRegistry
  pub pricing : PricingRegistry
  pub repr : Value → String
  pub hash_api_key : String → String
  pub api_key_header : String

module _ (v : Service) where
  abbrev pub Site : Type 0
  Site = v.redis.State × App

  abbrev pub on_redis : {A : Type 0} → Exec v.redis.State A → Exec Site A
  on_redis m (s, a) = let (r, s') = m s in (r, (s', a))

  abbrev pub on_app : {A : Type 0} → Exec App A → Exec Site A
  on_app m (s, a) = let (r, a') = m a in (r, (s, a'))

  -- `generate`, at a time in seconds; it replies with the task's id.
  unfoldable pub post_generate : Request → GenerateRequest → ℕ → Exec Site String
  post_generate request req now = do
    key ← on_app (on_session (get_api_key v.hash_api_key v.api_key_header request.api_key))
    on_redis (enforce_rate_limit v.redis v.digits v.settings request key req.user_id now)
    task ← on_app (create_task v.settings v.modes v.pricing v.repr req (some key))
    pure task.0
