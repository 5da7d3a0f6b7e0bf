-- ===== src/Engine.antt =====
-- What a worker runs on: app/providers/base.py, app/providers/registry.py, app/storage/base.py and
-- app/services/prompt_builder.py. The providers, the storage, Jinja and the face detection are
-- parameters.
pub mod Contract
use ai_generation_api.Prelude.{
  ℕ, String, ◌<>◌, Bool, Option, none, some, List, ◌==◌, string_eq, if◌then◌else◌,
}
use ai_generation_api.Prelude.Int.{ℤ}
use ai_generation_api.Errors.{Error, raised, validation}
use ai_generation_api.Exec.{Result, ok, err}
use ai_generation_api.Models.{Task_keyed}
use ai_generation_api.Settings.{Settings}
use ai_generation_api.Value.{Value, Fields, end, str, null, Float}
use ai_generation_api.Modes.{ModeRegistry, ModeConfig}
use ai_generation_api.Safety.{Detector}
use ai_generation_api.Callback.{Tenacity}

-- app/providers/base.py `GenerationRequest`
pub record GenerationRequest : Type 0 where
  pub task_id : String
  pub task_type : String
  pub mode_id : String
  pub prompt : String
  pub negative_prompt : String
  pub image_url : Option String
  pub model : Fields
  pub workflow : Option String
  pub params : Fields
  pub preserve_face : Bool
  pub reference_strength : Option Float
  pub reference_urls : List String
  pub driving_url : Option String
  pub mask_url : Option String

-- app/providers/base.py `GenerationResult`; the bytes are a text.
pub record GenerationResult : Type 0 where
  pub content : String
  pub ext : String
  pub content_type : String
  pub model : Option String

-- app/providers/base.py `GenerationProvider`: for a request and the number of the run, the progress
-- it reports and what it returns or raises.
pub record Provider : Type 0 where
  pub name : String
  pub reports : GenerationRequest → ℕ → List ℤ
  pub generate : GenerationRequest → ℕ → Result GenerationResult

-- What Jinja makes of a template: the text, stripped; a `TemplateError`; another exception.
pub data Rendered : Type 0 where
  text : String → Rendered
  template_error : String → Rendered
  render_error : Error → Rendered

-- What a worker is built from: its settings and registries, and the code outside of it.
pub record Engine : Type 1 where
  pub settings : Settings
  pub open settings use *
  pub modes : ModeRegistry
  pub models : String → Option Fields
  pub detector : Detector
  pub load_bytes : String → Option detector.Image
  pub render : String → Fields → Rendered
  pub mock : Provider
  pub comfyui : Provider
  pub save : String → String → String → Result String
  pub elapsed_ms : ℕ → ℕ
  pub tenacity : Tenacity
  -- `f"{type(e).__name__}: {e}"`
  pub describe : Error → String

-- How a run of the task ends, where it does not raise: it returns, or `self.retry` is raised.
pub data Verdict : Type 0 where
  finished : Verdict
  retry_after : ℕ → Verdict

-- app/providers/registry.py `get_provider`
unfoldable pub get_provider : Engine → Provider
get_provider g = if g.generation_provider == "comfyui" then g.comfyui else g.mock

abbrev rendered : ModeConfig → Rendered → Result String
rendered mode (text s) = ok s
rendered mode (template_error e) =
    err (raised validation ("prompt template error in mode '" <> (mode.id <> ("': " <> e))))
rendered mode (render_error e) = err e

abbrev both : Result String → Result String → Result (String × String)
both (err e) r = err e
both (ok a) (err e) = err e
both (ok a) (ok b) = ok (a, b)

-- app/services/prompt_builder.py `build_prompt`
unfoldable pub build_prompt : Engine → ModeConfig → Fields → Result (String × String)
build_prompt g mode context =
    both (rendered mode (g.render mode.prompt_template context))
      (rendered mode (g.render mode.negative_prompt context))

abbrev pub opt_text : Option String → Value
opt_text none = null
opt_text (some s) = str s

-- app/services/mode_registry.py `ModelsConfig.resolve`
abbrev pub resolve : Option Fields → Fields
resolve none = end
resolve (some model) = model
