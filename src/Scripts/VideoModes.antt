-- ===== src/Scripts/VideoModes.antt =====
-- scripts/ops/validate_video_modes.py: the checks of the 40 video modes, of their files and against
-- a running API. PyYAML, the API with its clock, Python's `str` of a value that is no text, and the
-- decimal digits of a number are parameters. Each list of errors is built by appending. The paths
-- are those of `Path`; times are in milliseconds, and a negative timeout is one of 0.
pub mod Loops
pub mod Files
pub mod Client
pub mod Polls
pub mod Tasks
pub mod Passed
use ai_generation_api.Prelude.{
  ℕ, zero, suc, ◌+◌, ◌*◌, String, ◌<>◌, Bool, true, false, not, ◌&&◌, ◌||◌, Option, none, some,
  is_some, or_else, List, [], ◌∷◌, ◌++◌, ltb, ◌==◌, string_eq, if◌then◌else◌,
}
use ai_generation_api.Errors.{other}
use ai_generation_api.Exec.{Result, ok, err, Exec, pure, lift, ◌>>=◌}
use ai_generation_api.Value
use ai_generation_api.Value.{Value, Items, Fields, end, field, null, bool, str, list, dict}
use ai_generation_api.Security.{strip_prefix}
use ai_generation_api.Storage.{Disk, join_path}

-- `part in text`
unfoldable pub contains : String → String → Bool
contains part String.[] = is_some (strip_prefix part "")
contains part (String.◌∷◌ c text) =
    is_some (strip_prefix part (String.◌∷◌ c text)) || contains part text

-- `value == text`, for what `get` gives.
abbrev pub equals : Option Value → String → Bool
equals (some (str s)) text = s == text
equals _ text = false

-- `value is True`
abbrev pub is_true : Option Value → Bool
is_true (some (bool b)) = b
is_true _ = false

abbrev member : String → Items → Bool
member key Items.nil = false
member key (Items.cons v vs) = equals (some v) key || member key vs

-- `key in value`
unfoldable pub key_in : String → Value → Result Bool
unfolding contains
key_in key (dict d) = ok (is_some (Value.get d key))
key_in key (list vs) = ok (member key vs)
key_in key (str text) = ok (contains key text)
key_in key v = err (other "TypeError")

-- `if not good: errors.append(message)`
abbrev pub unless : Bool → String → List String
unless good message = if good then [] else message ∷ []

-- The loop over the modes, each with the errors that it appends.
unfoldable pub each :
    {S : Type 0} → (String → Exec S (List String)) → List String → Exec S (List String)
each f [] = pure []
each f (m ∷ ms) = do errors ← f m; rest ← each f ms; pure (errors ++ rest)

abbrev pub anchor_face : String
anchor_face = "Keep the SAME face and identity across ALL frames"

abbrev pub anchor_scene : String
anchor_scene = "Keep the SAME location and background as in the source image"

abbrev pub anchor_metadata : String
anchor_metadata = "{{ metadata.change | default('') }}"

abbrev pub required_params : List String
required_params = "width" ∷ "height" ∷ "num_frames" ∷ "fps" ∷ "steps" ∷ "cfg" ∷ []

-- What the script reads files with.
pub record Reader : Type 0 where
  pub safe_load : String → Result Value
  pub str_value : Value → String
  pub digits : ℕ → String

module _ (r : Reader) where
  -- `f"VIDEO_VARIATION_{i}"` for the numbers from `i` on.
  abbrev pub names_from : ℕ → ℕ → List String
  names_from i zero = []
  names_from i (suc n) = ("VIDEO_VARIATION_" <> r.digits i) ∷ names_from (suc i) n

  unfoldable pub mode_names : List String
  mode_names = names_from 1 40

  -- `str(value)`
  abbrev pub text_of : Value → String
  text_of (str s) = s
  text_of null = "None"
  text_of v = r.str_value v

  abbrev or_empty : Value → Value
  or_empty v = if Value.truthy v then v else dict end

  abbrev pub as_dict : String → Value → Result Fields
  as_dict path (dict d) = ok d
  as_dict path v = err (other (path <> " must contain YAML object"))

  abbrev pub read_dict : String → Result Value → Result Fields
  read_dict path (err e) = err e
  read_dict path (ok v) = as_dict path (or_empty v)

  -- `load_yaml`, for the text of the file.
  unfoldable pub load_yaml : String → String → Result Fields
  load_yaml path raw = read_dict path (r.safe_load raw)

  abbrev pub required : String → String → Result Bool → Result (List String) → Result (List String)
  required path key (err e) rest = err e
  required path key (ok there) (err e) = err e
  required path key (ok there) (ok rest) =
      ok (unless there (path <> (": params." <> (key <> " is required"))) ++ rest)

  -- The loop over the keys; the first `in` that raises ends it.
  unfoldable pub check_params : String → Value → List String → Result (List String)
  unfolding key_in
  check_params path params [] = ok []
  check_params path params (key ∷ keys) =
      required path key (key_in key params) (check_params path params keys)

  abbrev pub params_of : Fields → Value
  params_of d = or_else (Value.get d "params") (dict end)

  abbrev pub prompt_of : Fields → String
  prompt_of d = text_of (or_else (Value.get d "prompt_template") (str ""))

  abbrev pub before_params : String → String → Fields → List String
  before_params path name d =
      unless (equals (Value.get d "id") name) (
        path
        <> (": id must be '"
            <> (name <> ("', got '" <> (text_of (or_else (Value.get d "id") null) <> "'")))))
      ++ (unless (equals (Value.get d "type") "video") (path <> ": type must be 'video'")
          ++ (unless (is_true (Value.get d "enabled")) (path <> ": enabled must be true")
              ++ (unless (equals (Value.get d "model") "video_generation_model")
                    (path <> ": model must be 'video_generation_model'")
                  ++ unless (equals (Value.get d "workflow") "video_i2v")
                      (path <> ": workflow must be 'video_i2v'"))))

  abbrev pub after_params : String → Fields → List String
  after_params path d =
      unless (contains anchor_face (prompt_of d)) (path <> ": missing identity anchor")
      ++ (unless (contains anchor_scene (prompt_of d)) (path <> ": missing scene anchor")
          ++ unless (contains anchor_metadata (prompt_of d))
              (path <> ": missing metadata.change insertion"))

  abbrev pub around : String → String → Fields → Result (List String) → Result (List String)
  around path name d (err e) = err e
  around path name d (ok missing) =
      ok (before_params path name d ++ (missing ++ after_params path d))

  abbrev pub check_data : String → String → Result Fields → Result (List String)
  check_data path name (err e) = err e
  check_data path name (ok d) = around path name d (check_params path (params_of d) required_params)

  module _ (modes_dir : String) where
    abbrev pub path_of : String → String
    path_of name = join_path modes_dir (name <> ".yaml")

    abbrev pub check_text : String → Option String → Result (List String)
    check_text name none = ok (("Missing mode file: " <> path_of name) ∷ [])
    check_text name (some raw) = check_data (path_of name) name (load_yaml (path_of name) raw)

    unfoldable pub check_file : String → Exec Disk (List String)
    unfolding join_path load_yaml check_params contains
    check_file name disk = (check_text name (disk (path_of name)), disk)

    -- `validate_files`
    unfoldable pub validate_files : Exec Disk (List String)
    unfolding each check_file
    validate_files = each check_file mode_names
