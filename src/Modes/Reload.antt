-- ===== src/Modes/Reload.antt =====
-- What a reloaded registry holds and returns.
use ai_generation_api.Prelude.{
  ℕ, ap, is_some, length, refl, inl, inr, String, ◌≡◌, Option, none, some, List, [], ◌∷◌, ◌++◌,
  arith, ◌==◌, string_eq, if◌then◌else◌,
}
use ai_generation_api.Exec.{Result, ok, err, Result-cases}
use ai_generation_api.Value.{Value}
use ai_generation_api.Modes.{
  ModeConfig, ModeRegistry, lookup, add_file, load, load_models, reload, get, or_missing,
}

-- The first valid file with the id.
abbrev pub first_file : String → List (Option ModeConfig) → Option ModeConfig
first_file id [] = none
first_file id (none ∷ files) = first_file id files
first_file id (some m ∷ files) = if m.id == id then some m else first_file id files

abbrev orelse : Option ModeConfig → Option ModeConfig → Option ModeConfig
orelse none b = b
orelse (some a) b = some a

lookup-append :
    (id : String) (xs : List ModeConfig) (m : ModeConfig)
    → lookup id (xs ++ m ∷ []) ≡ orelse (lookup id xs) (if m.id == id then some m else none)
lookup-append id [] m = ground arith
lookup-append id (x ∷ xs) m = ground (arith, lookup-append id xs m)

lookup-add_file :
    (id : String) (m : ModeConfig) (xs : List ModeConfig)
    → lookup id (add_file (some m) xs) ≡ orelse (lookup id xs) (if m.id == id then some m else none)
lookup-add_file id m xs = ground (arith, lookup-append id xs m)

lookup-load :
    (id : String) (files : List (Option ModeConfig)) (xs : List ModeConfig)
    → lookup id (load files xs) ≡ orelse (lookup id xs) (first_file id files)
unfolding load
lookup-load id [] xs = ground arith
lookup-load id (none ∷ files) xs = lookup-load id files xs
lookup-load id (some m ∷ files) xs =
    ground (arith, lookup-load id files (add_file (some m) xs), lookup-add_file id m xs)

-- What a reload leaves.
abbrev pub Reloaded : List (Option ModeConfig) → ModeRegistry → Result ℕ × ModeRegistry → Type 0
Reloaded files r (err e, r') = r' ≡ r
Reloaded files r (ok n, r') =
    ((id : String) → get r' id ≡ or_missing id (first_file id files))
    × ((id : String) → is_some (lookup id r'.modes) ≡ is_some (first_file id files))
    × (n ≡ length r'.modes)

-- A reload of an existing directory of modes. If it raises, the registry is as before. Otherwise,
-- for each id, `get` gives what the first valid file with the id in the order of the paths has,
-- with the errors for none and for a disabled mode; a mode is in the registry exactly if a valid
-- file has its id; and the number that is returned is the number of modes.
pub get-reload :
    (models_file : Option (Result Value)) (files : List (Option ModeConfig)) (r : ModeRegistry)
    → Reloaded files r (reload models_file (some files) r)
unfolding get reload
get-reload models_file files r = elim (Result-cases (load_models models_file)) [
  | inr (e, broken) ↦ rw broken refl
  | inl (models, loads) ↦
      rw loads
        (λ id. rw (lookup-load id files []) refl, λ id. ap is_some (lookup-load id files []), refl)
]
