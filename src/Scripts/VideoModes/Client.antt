-- ===== src/Scripts/VideoModes/Client.antt =====
-- scripts/ops/validate_video_modes.py: the checks against a running API, and the command.
use ai_generation_api.Prelude.{
  ℕ, zero, suc, ◌+◌, ◌*◌, String, ◌<>◌, Bool, true, false, ◌&&◌, Option, none, some, List, [], ◌∷◌,
  ltb, or_else, ◌==◌, string_eq, if◌then◌else◌,
}
use ai_generation_api.Errors.{other}
use ai_generation_api.Exec.{ok, err, Exec, pure, ◌>>=◌}
use ai_generation_api.Value
use ai_generation_api.Value.{Value, Fields, end, field, null, str, list, dict}
use ai_generation_api.Storage.{Disk}
use ai_generation_api.Scripts.VideoModes.{
  Reader, each, equals, unless, text_of, mode_names, validate_files,
}

-- What a request comes to: an `HTTPError` with its code and text, another exception, a JSON value.
pub data Reply : Type 0 where
  http_error : String → String → Reply
  failure : String → Reply
  answer : Value → Reply

-- The API under a base URL, which a request changes, and the clock, which also moves on during a
-- request.
pub record Api : Type 1 where
  pub State : Type 0
  pub post : String → String → Fields → State → Reply × State
  pub get : String → String → State → Reply × State
  pub time : State → ℕ
  pub sleep : ℕ → State → State

-- The arguments of the command.
pub record Arguments : Type 0 where
  pub modes_dir : String
  pub api_base_url : Option String
  pub api_key : Option String
  pub image_url : Option String
  pub smoke : Bool
  pub smoke_timeout_seconds : ℕ

-- `value.get(…)` needs a dict.
abbrev pub with_dict : {S : Type 0} → Value → (Fields → Exec S (List String)) → Exec S (List String)
with_dict (dict d) f s = f d s
with_dict v f s = (err (other "AttributeError"), s)

abbrev pub holds : Option Value → Bool
holds none = false
holds (some v) = Value.truthy v

abbrev pub is_unhashable : Option Value → Bool
is_unhashable (some (list _)) = true
is_unhashable (some (dict _)) = true
is_unhashable _ = false

abbrev change : Fields
change = field "change" (str "natural motion") end

module _ (r : Reader) (api : Api) (base_url api_key image_url : String) where
  abbrev report : String → String → String → Exec api.State (List String)
  report mode text e = pure ((mode <> (text <> e)) ∷ [])

  abbrev pub preview_payload : Fields
  preview_payload = field "image_url" (str image_url) (field "metadata" (dict change) end)

  abbrev pub on_preview : String → Reply → Exec api.State (List String)
  on_preview mode (http_error code e) s = report mode ": preview HTTP " code s
  on_preview mode (failure e) s = report mode ": preview failed: " e s
  on_preview mode (answer v) s =
      with_dict v
        (λ d.
          pure (unless (holds (Value.get d "prompt")) (mode <> ": preview returned empty prompt")))
        s

  abbrev pub preview_url : String → String
  preview_url mode = base_url <> ("/modes/" <> (mode <> "/preview"))

  -- A mode in `run_preview_checks`.
  unfoldable pub preview_one : String → Exec api.State (List String)
  preview_one mode s =
      let (reply, s') = api.post (preview_url mode) api_key preview_payload s in
      on_preview mode reply s'

  unfoldable pub run_preview_checks : Exec api.State (List String)
  unfolding each preview_one
  run_preview_checks = each preview_one (mode_names r)

  abbrev pub create_payload : String → Fields
  create_payload mode = field "task_type" (str "video") (
      field "mode" (str mode)
        (field "image_url" (str image_url) (field "metadata" (dict change) end)))

  abbrev pub shown_of : Option Value → String
  shown_of o = text_of r (or_else o null)

  -- `status in {"completed", "failed"}` hashes the status; another status lets the loop go on.
  abbrev pub on_status :
      String → Fields → Option Value → Exec api.State (List String) → Exec api.State (List String)
  on_status mode task status rest s =
      let later = rest (api.sleep 3000 s) in
      if is_unhashable status
      then (err (other "TypeError"), s)
      else if equals status "completed"
      then (ok [], s)
      else if equals status "failed"
      then (
        ok ((mode <> (": task failed (" <> (shown_of (Value.get task "error") <> ")"))) ∷ []),
        s,
      )
      else later

  abbrev pub on_poll : String → Reply → Exec api.State (List String) → Exec api.State (List String)
  on_poll mode (http_error code e) rest s = report mode ": task poll failed: " e s
  on_poll mode (failure e) rest s = report mode ": task poll failed: " e s
  on_poll mode (answer v) rest s =
      with_dict v (λ task. on_status mode task (Value.get task "status") rest) s

  abbrev pub task_url : String → String
  task_url task_id = base_url <> ("/tasks/" <> task_id)

  module _ (mode task_id : String) (deadline : ℕ) where
    -- The `while` loop.
    unfoldable pub poll_task : ℕ → Exec api.State (List String)
    poll_task zero s = (err (other "out of fuel"), s)
    poll_task (suc fuel) s =
        let rest = poll_task fuel in
        let (reply, s') = api.get (task_url task_id) api_key s in
        if ltb (api.time s) deadline
        then on_poll mode reply rest s'
        else (ok ((mode <> (": timeout waiting task completion (" <> (task_id <> ")"))) ∷ []), s)

  module _ (wait_seconds fuel : ℕ) where
    abbrev pub on_task : String → Option Value → Exec api.State (List String)
    on_task mode task_id s =
        if holds task_id
        then poll_task mode (shown_of task_id) (api.time s + wait_seconds * 1000) fuel s
        else report mode ": no task_id in response" "" s

    abbrev pub on_created : String → Reply → Exec api.State (List String)
    on_created mode (http_error code e) s = report mode ": generate HTTP " code s
    on_created mode (failure e) s = report mode ": generate failed: " e s
    on_created mode (answer v) s =
        with_dict v (λ created. on_task mode (Value.get created "task_id")) s

    -- A mode in `run_smoke_checks`.
    unfoldable pub smoke_one : String → Exec api.State (List String)
    unfolding poll_task
    smoke_one mode s =
        let (reply, s') = api.post (base_url <> "/generate") api_key (create_payload mode) s in
        on_created mode reply s'

    unfoldable pub run_smoke_checks : Exec api.State (List String)
    unfolding each smoke_one
    run_smoke_checks = each smoke_one (mode_names r)

abbrev pub given : Option String → Bool
given none = false
given (some s) = if s == "" then false else true

abbrev pub is_empty : List String → Bool
is_empty [] = true
is_empty (_ ∷ _) = false

abbrev pub text : Option String → String
text o = or_else o ""

module _ (api : Api) where
  abbrev pub Machine : Type 0
  Machine = Disk × api.State

  abbrev pub on_disk : {A : Type 0} → Exec Disk A → Exec Machine A
  on_disk m (disk, s) = let (x, disk') = m disk in (x, (disk', s))

  abbrev pub on_api : {A : Type 0} → Exec api.State A → Exec Machine A
  on_api m (disk, s) = let (x, s') = m s in (x, (disk, s'))

  -- The exit code is 1 if there are errors; else the command goes on.
  abbrev pub exit_if : List String → Exec Machine ℕ → Exec Machine ℕ
  exit_if errors rest = if is_empty errors then rest else pure 1

module _ (r : Reader) (api : Api) (fuel : ℕ) where
  abbrev pub smoke_part : Arguments → Exec (Machine api) ℕ
  smoke_part a = do
    errors ← on_api api (
        run_smoke_checks r api (text a.api_base_url) (text a.api_key) (text a.image_url)
          a.smoke_timeout_seconds fuel)
    exit_if api errors (pure 0)

  abbrev pub preview_part : Arguments → Exec (Machine api) ℕ
  preview_part a = do
    errors ←
        on_api api
          (run_preview_checks r api (text a.api_base_url) (text a.api_key) (text a.image_url))
    exit_if api errors (let next = smoke_part a in if a.smoke then next else pure 0)

  abbrev pub api_part : Arguments → Exec (Machine api) ℕ
  api_part a =
      let next = preview_part a in
      if given a.api_base_url
      then (if given a.api_key && given a.image_url then next else pure 1)
      else pure 0

  -- `main`
  unfoldable pub main : Arguments → Exec (Machine api) ℕ
  unfolding validate_files run_preview_checks run_smoke_checks
  main a = do errors ← on_disk api (validate_files r a.modes_dir); exit_if api errors (api_part a)
