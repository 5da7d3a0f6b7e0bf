-- ===== src/Scripts/VideoModes/Files.antt =====
-- What the files of the modes are when no error is reported.
use mathlib.Core.Path.{subst}
use ai_generation_api.Prelude.{
  String, ◌≡◌, ◌↔◌, refl, ap, Bool, true, false, Option, none, some, List, [], ◌∷◌, ◌++◌, All,
  arith, string_eq,
}
use ai_generation_api.Exec.{Result, ok, err}
use ai_generation_api.Value
use ai_generation_api.Value.{Value, Fields, null, bool, int, float, str, list, dict}
use ai_generation_api.Storage.{Disk}
use ai_generation_api.Scripts.VideoModes.Loops.{append-nil_iff, Quiet, Chain, each-Chain}
use ai_generation_api.Scripts.VideoModes.{
  Reader, contains, equals, is_true, key_in, unless, load_yaml, check_params, required, params_of,
  prompt_of, required_params, anchor_face, anchor_scene, anchor_metadata, path_of, before_params,
  after_params, around, check_data, check_text, check_file, validate_files, mode_names,
}

-- Two parts that report nothing.
both-nil_iff :
    {A : Type 0} {P Q : Type 0} (xs ys : List A)
    → ((xs ≡ []) ↔ P)
    → ((ys ≡ []) ↔ Q)
    → (xs ++ ys ≡ []) ↔ (P × Q)
both-nil_iff xs ys p q =
    let parts = append-nil_iff xs ys in
    (λ h. (p.0 (parts.0 h).0, q.0 (parts.0 h).1), λ h. parts.1 (p.1 h.0, q.1 h.1))

pub unless-nil_iff : {P : Type 0} (b : Bool) (m : String) → ((b ≡ true) ↔ P) → (unless b m ≡ []) ↔ P
unless-nil_iff true m p = (λ h. p.0 refl, λ h. refl)
unless-nil_iff false m p = (λ h. cc, λ h. let bad : false ≡ true = p.1 h in cc)

pub equals-true_iff :
    (o : Option Value) (text : String) → (equals o text ≡ true) ↔ (o ≡ some (str text))
equals-true_iff none text = (λ h. cc, λ h. cc)
equals-true_iff (some (str s)) text = (λ h. ground arith, λ h. ground arith)
equals-true_iff (some null) text = (λ h. cc, λ h. cc)
equals-true_iff (some (bool b)) text = (λ h. cc, λ h. cc)
equals-true_iff (some (int z)) text = (λ h. cc, λ h. cc)
equals-true_iff (some (float x)) text = (λ h. cc, λ h. cc)
equals-true_iff (some (list vs)) text = (λ h. cc, λ h. cc)
equals-true_iff (some (dict d)) text = (λ h. cc, λ h. cc)

is_true-true_iff : (o : Option Value) → (is_true o ≡ true) ↔ (o ≡ some (bool true))
is_true-true_iff none = (λ h. cc, λ h. cc)
is_true-true_iff (some (bool b)) = (λ h. cc, λ h. cc)
is_true-true_iff (some null) = (λ h. cc, λ h. cc)
is_true-true_iff (some (str s)) = (λ h. cc, λ h. cc)
is_true-true_iff (some (int z)) = (λ h. cc, λ h. cc)
is_true-true_iff (some (float x)) = (λ h. cc, λ h. cc)
is_true-true_iff (some (list vs)) = (λ h. cc, λ h. cc)
is_true-true_iff (some (dict d)) = (λ h. cc, λ h. cc)

module _ (r : Reader) where
  -- The text of the prompt has the three anchors, and the other fields are the ones of a video mode.
  pub record IsVideoMode (name : String) (d : Fields) : Type 0 where
    pub id : Value.get d "id" ≡ some (str name)
    pub type : Value.get d "type" ≡ some (str "video")
    pub enabled : Value.get d "enabled" ≡ some (bool true)
    pub model : Value.get d "model" ≡ some (str "video_generation_model")
    pub workflow : Value.get d "workflow" ≡ some (str "video_i2v")
    pub params : All (λ key. key_in key (params_of r d) ≡ ok true) required_params
    pub face : contains anchor_face (prompt_of r d) ≡ true
    pub scene : contains anchor_scene (prompt_of r d) ≡ true
    pub metadata : contains anchor_metadata (prompt_of r d) ≡ true

  required-nil_iff :
      (path key : String) (there : Result Bool) (rest : Result (List String))
      → (required r path key there rest ≡ ok []) ↔ ((there ≡ ok true) × (rest ≡ ok []))
  required-nil_iff path key (err e) rest = (λ h. cc, λ h. cc)
  required-nil_iff path key (ok there) (err e) = (λ h. cc, λ h. cc)
  required-nil_iff path key (ok true) (ok rest) = (λ h. (refl, h), λ h. h.1)
  required-nil_iff path key (ok false) (ok rest) = (λ h. cc, λ h. cc)

  check_params-nil_iff :
      (path : String) (params : Value) (keys : List String)
      → (check_params r path params keys ≡ ok []) ↔ All (λ key. key_in key params ≡ ok true) keys
  unfolding check_params
  check_params-nil_iff path params [] = (λ h. tt, λ h. refl)
  check_params-nil_iff path params (key ∷ keys) =
      let here = required-nil_iff path key (key_in key params) (check_params r path params keys) in
      let there = check_params-nil_iff path params keys in
      (λ h. let both = here.0 h in (both.0, there.0 both.1), λ h. here.1 (h.0, there.1 h.1))

  before_params-nil_iff :
      (path name : String) (d : Fields)
      → (before_params r path name d ≡ []) ↔ (
          (Value.get d "id" ≡ some (str name))
          × ((Value.get d "type" ≡ some (str "video"))
              × ((Value.get d "enabled" ≡ some (bool true))
                  × ((Value.get d "model" ≡ some (str "video_generation_model"))
                      × (Value.get d "workflow" ≡ some (str "video_i2v"))))))
  before_params-nil_iff path name d = both-nil_iff _ _ (unless-nil_iff _ _ (equals-true_iff _ _)) (
      both-nil_iff _ _ (unless-nil_iff _ _ (equals-true_iff _ _)) (
        both-nil_iff _ _ (unless-nil_iff _ _ (is_true-true_iff _)) (
          both-nil_iff _ _ (unless-nil_iff _ _ (equals-true_iff _ _))
            (unless-nil_iff _ _ (equals-true_iff _ _)))))

  after_params-nil_iff :
      (path : String) (d : Fields)
      → (after_params r path d ≡ []) ↔ (
          (contains anchor_face (prompt_of r d) ≡ true)
          × ((contains anchor_scene (prompt_of r d) ≡ true)
              × (contains anchor_metadata (prompt_of r d) ≡ true)))
  after_params-nil_iff path d =
      both-nil_iff _ _ (unless-nil_iff _ _ (λ h. h, λ h. h)) (
        both-nil_iff _ _ (unless-nil_iff _ _ (λ h. h, λ h. h))
          (unless-nil_iff _ _ (λ h. h, λ h. h)))

  around-nil_iff :
      (path name : String) (d : Fields) (missing : Result (List String))
      → (around r path name d missing ≡ ok [])
        ↔ ((before_params r path name d ≡ []) × ((missing ≡ ok []) × (after_params r path d ≡ [])))
  around-nil_iff path name d (err e) = (λ h. cc, λ h. cc)
  around-nil_iff path name d (ok missing) =
      let parts : (before_params r path name d ++ (missing ++ after_params r path d) ≡ []) ↔ _ =
        both-nil_iff _ _ (λ h. h, λ h. h)
          (both-nil_iff missing _ (λ h. ap ok h, λ h. cc) (λ h. h, λ h. h)) in
      (λ h. parts.0 cc, λ h. ap ok (parts.1 h))

  check_data-nil_iff :
      (path name : String) (d : Fields)
      → (check_data r path name (ok d) ≡ ok []) ↔ IsVideoMode name d
  check_data-nil_iff path name d =
      let whole =
        around-nil_iff path name d (check_params r path (params_of r d) required_params) in
      let before = before_params-nil_iff path name d in
      let params = check_params-nil_iff path (params_of r d) required_params in
      let after = after_params-nil_iff path d in
      (
        λ h.
            let (b, (p, a)) = whole.0 h in
            let (id, (type, (enabled, (model, workflow)))) = before.0 b in
            let (face, (scene, metadata)) = after.0 a in
            record {
              id = id;
              type = type;
              enabled = enabled;
              model = model;
              workflow = workflow;
              params = params.0 p;
              face = face;
              scene = scene;
              metadata = metadata;
            },
        λ h. whole.1 (
          before.1 (h.id, (h.type, (h.enabled, (h.model, h.workflow)))),
          (params.1 h.params, after.1 (h.face, (h.scene, h.metadata))),
        ),
      )

  loaded-nil_iff :
      (path name : String) (x : Result Fields)
      → (check_data r path name x ≡ ok []) ↔ ((d : Fields) × ((x ≡ ok d) × IsVideoMode name d))
  loaded-nil_iff path name (err e) = (λ h. cc, λ (d, (loads, good)). cc)
  loaded-nil_iff path name (ok x) = (
    λ h. (x, (refl, (check_data-nil_iff path name x).0 h)),
    λ (d, (loads, good)).
        let same : d ≡ x = cc in (check_data-nil_iff path name x).1 (rw (← same) good),
  )

  module _ (modes_dir : String) where
    -- The file of a mode is there, is a YAML object, and describes a video mode.
    abbrev pub IsModeFile : Disk → String → Type 0
    IsModeFile disk name =
        (raw : String) × ((disk (path_of r modes_dir name) ≡ some raw)
          × ((d : Fields) × ((load_yaml r (path_of r modes_dir name) raw ≡ ok d)
                × IsVideoMode name d)))

    check_text-nil_iff :
        (name : String) (file : Option String)
        → (check_text r modes_dir name file ≡ ok []) ↔ (
            (raw : String) × ((file ≡ some raw)
              × ((d : Fields) × ((load_yaml r (path_of r modes_dir name) raw ≡ ok d)
                    × IsVideoMode name d))))
    check_text-nil_iff name none = (λ h. cc, λ (raw, (there, rest)). cc)
    check_text-nil_iff name (some text) =
        let loaded =
          loaded-nil_iff (path_of r modes_dir name) name
            (load_yaml r (path_of r modes_dir name) text) in
        (
          λ h. (text, (refl, loaded.0 h)),
          λ (raw, (there, rest)). let same : raw ≡ text = cc in loaded.1 (rw (← same) rest),
        )

    files-Chain :
        (names : List String) (disk disk' : Disk)
        → Chain (Quiet (check_file r modes_dir)) names disk disk'
          ↔ (All (IsModeFile disk) names × (disk ≡ disk'))
    unfolding check_file
    files-Chain [] disk disk' = (λ h. (tt, h), λ h. h.1)
    files-Chain (name ∷ names) disk disk' =
        let here = check_text-nil_iff name (disk (path_of r modes_dir name)) in
        let there = files-Chain names disk disk' in
        (
          λ (mid, (quiet, rest)).
              let same : mid ≡ disk = cc in
              let tail =
                there.0
                  (subst (λ x. Chain (Quiet (check_file r modes_dir)) names x disk') same rest) in
              ((here.0 (ap (λ p. p.0) quiet), tail.0), tail.1),
          λ (good, same). (disk, (ap (λ x. (x, disk)) (here.1 good.0), there.1 (good.1, same))),
        )

    -- `validate_files` ends without an error exactly if every mode has a good file.
    pub validate_files_lem :
        (disk disk' : Disk)
        → (validate_files r modes_dir disk ≡ (ok [], disk'))
          ↔ (All (IsModeFile disk) (mode_names r) × (disk ≡ disk'))
    unfolding validate_files
    validate_files_lem disk disk' =
        let loop = each-Chain (check_file r modes_dir) (mode_names r) disk disk' in
        let files = files-Chain (mode_names r) disk disk' in
        (λ h. files.0 (loop.0 h), λ h. loop.1 (files.1 h))
