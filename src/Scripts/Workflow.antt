-- ===== src/Scripts/Workflow.antt =====
-- scripts/ops/validate_video_workflow.py: the check of an exported ComfyUI workflow. `json.loads`, with
-- the text of its error, `json.dumps` as `_flatten` calls it, and Python's `str` of a value that is no
-- text are parameters.
use ai_generation_api.Prelude.{
  ℕ, String, ◌<>◌, Bool, false, ◌||◌, Option, none, some, List, [], ◌∷◌, ◌++◌, ◌⊎◌, inl, inr,
  if◌then◌else◌,
}
use ai_generation_api.Value
use ai_generation_api.Value.{Value, Fields, null, str, dict}
use ai_generation_api.Storage.{Disk}
use ai_generation_api.Scripts.VideoModes.{contains, unless}

abbrev pub required_placeholders : List String
required_placeholders =
    "{{prompt}}" ∷ "{{negative}}" ∷ "{{seed}}" ∷ "{{param.steps}}" ∷ "{{param.cfg}}"
    ∷ "{{param.width}}" ∷ "{{param.height}}" ∷ "{{param.num_frames}}" ∷ "{{param.fps}}" ∷ []

abbrev pub recommended_placeholders : List String
recommended_placeholders = "{{model.name}}" ∷ "{{image_name}}" ∷ "{{image_url}}" ∷ []

-- What the script reads JSON with; the left is a `JSONDecodeError`.
pub record Parser : Type 0 where
  pub loads : String → String ⊎ Value
  pub dumps : Fields → String
  pub str_value : Value → String

-- The errors and the warnings.
pub record Report : Type 0 where
  pub errors : List String
  pub warnings : List String

-- The loop over the placeholders.
unfoldable pub missing_tokens : String → String → List String → List String
unfolding contains
missing_tokens message packed [] = []
missing_tokens message packed (token ∷ tokens) =
    unless (contains token packed) (message <> token) ++ missing_tokens message packed tokens

module _ (p : Parser) where
  abbrev text_of : Value → String
  text_of (str s) = s
  text_of null = "None"
  text_of v = p.str_value v

  abbrev marked : Option Value → Bool
  marked none = false
  marked (some v) = contains "ЗАГЛУШКА" (text_of v)

  abbrev rejected : String → Report
  rejected e = record { errors = e ∷ []; warnings = [] }

  abbrev check_packed : Bool → String → Report
  check_packed stub packed = record {
    errors =
        (if stub then "Workflow still contains placeholder marker 'ЗАГЛУШКА'" ∷ [] else [])
        ++ (missing_tokens "Missing required placeholder: " packed required_placeholders
            ++ unless (contains "{{image_name}}" packed || contains "{{image_url}}" packed)
                "Workflow must reference either {{image_name}} or {{image_url}}");
    warnings = missing_tokens "Recommended placeholder not found: " packed recommended_placeholders;
  }

  abbrev check_parsed : String ⊎ Value → Report
  check_parsed (inl e) = rejected ("Invalid JSON: " <> e)
  check_parsed (inr (dict d)) = check_packed (marked (Value.get d "_comment")) (p.dumps d)
  check_parsed (inr v) = rejected "Workflow root must be a JSON object"

  abbrev check_raw : String → Option String → Report
  check_raw path none = rejected ("Workflow file not found: " <> path)
  check_raw path (some raw) = check_parsed (p.loads raw)

  -- `validate`, for the path and the disk.
  unfoldable pub validate : String → Disk → Report
  unfolding missing_tokens contains
  validate path disk = check_raw path (disk path)

  abbrev exit_code : List String → ℕ
  exit_code [] = 0
  exit_code (_ ∷ _) = 1

  -- `main`: the exit code.
  unfoldable pub workflow_main : String → Disk → ℕ
  unfolding validate
  workflow_main path disk = exit_code (validate path disk).errors
