-- ===== src/Routes/Catalog.antt =====
-- app/api/routes/modes.py: the list of modes, the preview of a prompt, and the reload of the modes.
use ai_generation_api.Prelude.{
  ℕ, String, Bool, true, false, ◌||◌, Option, none, some, List, map, length, or_else, ◌==◌,
  string_eq, if◌then◌else◌,
}
use ai_generation_api.Prelude.Int.{pos}
use ai_generation_api.Errors.{other}
use ai_generation_api.Exec.{Result, ok, Exec, pure, lift, ◌>>=◌, ◌>>◌, raise_if, modify}
use ai_generation_api.Value.{Fields, field, end, str, int, dict, Value}
use ai_generation_api.Models.{ApiKey, SystemEvent}
use ai_generation_api.Session.{Session, Database, with_session}
use ai_generation_api.Modes
use ai_generation_api.Modes.{ModeRegistry, ModeConfig, list_modes}
use ai_generation_api.Engine.{Engine, build_prompt, opt_text}
use ai_generation_api.DeadLetter.{add_event}

pub record PreviewRequest : Type 0 where
  pub image_url : Option String
  pub user_id : Option String
  pub request_id : Option String
  pub metadata : Fields

pub record ModeSummary : Type 0 where
  pub id : String
  pub type : String
  pub enabled : Bool
  pub model : String

pub record ModeList : Type 0 where
  pub count : ℕ
  pub modes : List ModeSummary

pub record Preview : Type 0 where
  pub mode : String
  pub model : String
  pub workflow : Option String
  pub params : Fields
  pub prompt : String
  pub negative_prompt : String

abbrev pub summary_of : ModeConfig → ModeSummary
summary_of m = record { id = m.id; type = m.type; enabled = m.enabled; model = m.model }

-- `pattern="^(photo|video)$"`
abbrev pub is_task_type : Option String → Bool
is_task_type none = true
is_task_type (some t) = t == "photo" || t == "video"

abbrev listed : List ModeConfig → ModeList
listed modes = record { count = length modes; modes = map summary_of modes }

-- The route `list_modes`, behind a guard.
unfoldable pub get_modes :
    Exec Session ApiKey → ModeRegistry → Option String → Exec Session ModeList
unfolding list_modes
get_modes guard registry task_type = do
  guard
  raise_if (if is_task_type task_type then false else true) (other "RequestValidationError")
  pure (listed (list_modes registry task_type))

abbrev pub preview_context : PreviewRequest → ModeConfig → Fields
preview_context body mode = field "image_url" (str (or_else body.image_url "")) (
    field "user_id" (opt_text body.user_id) (
      field "request_id" (opt_text body.request_id) (
        field "task_type" (str mode.type)
          (field "mode" (str mode.id) (field "metadata" (dict body.metadata) end)))))

abbrev preview_of : ModeConfig → String × String → Preview
preview_of mode (prompt, negative) = record {
  mode = mode.id;
  model = mode.model;
  workflow = mode.workflow;
  params = mode.params;
  prompt = prompt;
  negative_prompt = negative;
}

-- `preview_mode`, behind a guard.
unfoldable pub preview_mode :
    Engine → Exec Session ApiKey → String → PreviewRequest → Exec Session Preview
unfolding build_prompt
preview_mode g guard mode_id body = do
  guard
  mode ← lift (Modes.get g.modes mode_id)
  prompts ← lift (build_prompt g mode (preview_context body mode))
  pure (preview_of mode prompts)

abbrev pub reload_event : ℕ → SystemEvent
reload_event count = record {
  level = "info";
  source = "api";
  event = "modes_reloaded";
  message = none;
  detail = field "count" (int (pos count)) end;
}

-- `with SessionLocal() as db: db.add(…); db.commit()`
abbrev pub record_event : SystemEvent → Database → Database
record_event row d = (with_session (λ s. (ok tt, add_event row s)) d).1

abbrev on_registry : {A : Type 0} → Exec ModeRegistry A → Exec (ModeRegistry × Database) A
on_registry m (registry, d) = let (x, registry') = m registry in (x, (registry', d))

abbrev on_events : (Database → Database) → ModeRegistry × Database → ModeRegistry × Database
on_events f (registry, d) = (registry, f d)

-- `reload_modes`, with what the guard of the admin routes says and what the files hold.
unfoldable pub reload_modes :
    Result Fields
    → Option (Result Value)
    → Option (List (Option ModeConfig))
    → Exec (ModeRegistry × Database) ℕ
unfolding with_session
reload_modes claims models_file files = do
  lift claims
  count ← on_registry (Modes.reload models_file files)
  modify (on_events (record_event (reload_event count)))
  pure count
