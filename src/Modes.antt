-- ===== src/Modes.antt =====
-- app/services/mode_registry.py: the registry of generation modes. Reading a mode's file (PyYAML and
-- pydantic) is not modelled: `reload` takes the outcome of each file, in the order of the paths.
pub mod Reload
use Prim.Native.String.{compare}
use Prim.Native.Nat.{Ordering}
use ai_generation_api.Prelude.{
  ℕ, String, ◌<>◌, Bool, true, false, not, Option, none, some, is_some, List, [], ◌∷◌, ◌++◌, length,
  select, find, ◌==◌, string_eq, if◌then◌else◌,
}
use ai_generation_api.Errors.{raised, not_found, validation}
use ai_generation_api.Exec.{Result, ok, err, Exec, lift, modify, ◌>>=◌, ◌>>◌}
use ai_generation_api.Value
use ai_generation_api.Value.{Value, Fields, Float, end, dict}

pub record ModeConfig : Type 0 where
  pub id : String
  pub type : String
  pub enabled : Bool
  pub model : String
  pub workflow : Option String
  pub params : Fields
  pub prompt_template : String
  pub negative_prompt : String
  pub preserve_face : Bool
  pub reference_strength : Option Float

-- The dict from ids to modes, in insertion order, and what models.yaml holds.
pub record ModeRegistry : Type 0 where
  pub modes : List ModeConfig
  pub models : Value

abbrev pub has_id : String → ModeConfig → Bool
has_id id m = m.id == id

abbrev pub lookup : String → List ModeConfig → Option ModeConfig
lookup id modes = find (has_id id) modes

-- One file: an invalid one and a duplicate id are logged and skipped.
abbrev pub add_file : Option ModeConfig → List ModeConfig → List ModeConfig
add_file none modes = modes
add_file (some m) modes = if is_some (lookup m.id modes) then modes else modes ++ m ∷ []

unfoldable pub load : List (Option ModeConfig) → List ModeConfig → List ModeConfig
load [] modes = modes
load (file ∷ files) modes = load files (add_file file modes)

-- `ModelsConfig.load`: what `_models` is after it, for what YAML gives of the file, `none` where it is
-- missing.
unfoldable pub load_models : Option (Result Value) → Result Value
load_models none = ok (dict end)
load_models (some (err e)) = err e
load_models (some (ok v)) = ok (if Value.truthy v then v else dict end)

abbrev with_models : Value → ModeRegistry → ModeRegistry
with_models v r = record r { models = v }

abbrev pub reload_modes_dir : Option (List (Option ModeConfig)) → Exec ModeRegistry ℕ
reload_modes_dir none r = (ok 0, record r { modes = [] })
reload_modes_dir (some files) r =
    let modes = load files [] in (ok (length modes), record r { modes = modes })

-- `ModeRegistry.reload`, where `none` is a missing directory; it returns the count. An error of the
-- models' file passes.
unfoldable pub reload :
    Option (Result Value) → Option (List (Option ModeConfig)) → Exec ModeRegistry ℕ
unfolding load_models load
reload models_file files = do
  models ← lift (load_models models_file)
  modify (with_models models)
  reload_modes_dir files

abbrev pub or_missing : String → Option ModeConfig → Result ModeConfig
or_missing id none = err (raised not_found ("mode '" <> (id <> "' not found")))
or_missing id (some m) =
    if m.enabled then ok m else err (raised validation ("mode '" <> (id <> "' is disabled")))

-- `ModeRegistry.get`
unfoldable pub get : ModeRegistry → String → Result ModeConfig
get r id = or_missing id (lookup id r.modes)

abbrev leb_text : String → String → Bool
leb_text a b = elim (compare a b) [ Ordering.gt ↦ false | _ ↦ true ]

-- `sorted(modes, key=id)`
unfoldable pub insert_sorted : ModeConfig → List ModeConfig → List ModeConfig
insert_sorted m [] = m ∷ []
insert_sorted m (x ∷ xs) = if leb_text m.id x.id then m ∷ x ∷ xs else x ∷ insert_sorted m xs

unfoldable pub sort_modes : List ModeConfig → List ModeConfig
unfolding insert_sorted
sort_modes [] = []
sort_modes (m ∷ ms) = insert_sorted m (sort_modes ms)

-- `if task_type:`
abbrev of_type : Option String → List ModeConfig → List ModeConfig
of_type none modes = modes
of_type (some t) modes = if t == "" then modes else select (λ m. m.type == t) modes

-- `ModeRegistry.list`
unfoldable pub list_modes : ModeRegistry → Option String → List ModeConfig
unfolding sort_modes
list_modes r task_type = sort_modes (of_type task_type r.modes)
