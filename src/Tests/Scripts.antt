-- ===== src/Tests/Scripts.antt =====
-- The administrator's commands on small inputs.
use ai_generation_api.Prelude.{
  inr, [], ◌∷◌, ℕ, ◌+◌, String, ◌<>◌, ◌≡◌, ◌↔◌, refl, true, none, some, ltb, arith, string_eq,
  if◌then◌else◌,
}
use ai_generation_api.Exec.{ok}
use ai_generation_api.Value.{Value, Fields, end, field, str, dict, bool, int}
use ai_generation_api.Prelude.Int.{pos}
use ai_generation_api.Value
use ai_generation_api.Security.{strip_prefix}
use ai_generation_api.Storage.{Disk, join_path}
use ai_generation_api.Scripts.{create_api_key}
use ai_generation_api.Scripts.Keys.{Issued, create_api_key-Issued}
use ai_generation_api.Scripts.VideoModes.{
  Reader, anchor_face, anchor_scene, anchor_metadata, check_file, contains, validate_files, each,
  load_yaml, check_params, key_in, mode_names,
}
use ai_generation_api.Scripts.VideoModes.Client.{
  run_preview_checks, preview_one, run_smoke_checks, smoke_one, poll_task, answer, Api, Arguments,
  main,
}
use ai_generation_api.Scripts.VideoModes.Passed.{Passed, main-Passed}
use ai_generation_api.Scripts.Workflow.{Parser, validate, missing_tokens}
use ai_generation_api.Tests.Samples.{fresh_database}

abbrev hash : String → String
hash raw = raw

-- A second key beside the partner's.
create_api_key-Issued_example :
    Issued hash "X-API-Key" "site" "token" none fresh_database
      (create_api_key hash "site" none "token" fresh_database)
create_api_key-Issued_example =
    create_api_key-Issued hash "X-API-Key" "site" "token" none fresh_database

abbrev params : Fields
params = field "width" (int (pos 480)) (
    field "height" (int (pos 832)) (
      field "num_frames" (int (pos 81))
        (field "fps" (int (pos 16)) (field "steps" (int (pos 8)) (field "cfg" (int (pos 1)) end)))))

abbrev prompt : String
prompt = anchor_face <> (anchor_scene <> anchor_metadata)

-- The file's text is taken for the mode's id.
abbrev mode_of : String → Fields
mode_of id = field "id" (str id) (
    field "type" (str "video") (
      field "enabled" (bool true) (
        field "model" (str "video_generation_model") (
          field "workflow" (str "video_i2v")
            (field "params" (dict params) (field "prompt_template" (str prompt) end))))))

abbrev reader : Reader
reader = record {
  safe_load = λ raw. ok (dict (mode_of raw));
  str_value = λ v. "value";
  digits = λ n. "n";
}

abbrev disk : Disk
disk path = some "VIDEO_VARIATION_n"

-- The state is the clock; a task is completed one minute after the start.
abbrev api : Api
api = record {
  State = ℕ;
  post = λ url key payload now.
      (answer (dict (field "prompt" (str "a prompt") (field "task_id" (str "t1") end))), now + 10);
  get = λ url key now. (
    answer (dict (field "status" (str (if ltb now 60000 then "processing" else "completed")) end)),
    now + 10,
  );
  time = λ now. now;
  sleep = λ ms now. now + ms;
}

abbrev arguments : Arguments
arguments = record {
  modes_dir = "modes";
  api_base_url = some "http://api";
  api_key = some "sk_1";
  image_url = some "http://img/1.png";
  smoke = true;
  smoke_timeout_seconds = 180;
}

main-Passed_example :
    (main reader api 61 arguments (disk, 0) ≡ (ok 0, (disk, 61400)))
    ↔ Passed reader api arguments (disk, 0) (disk, 61400)
main-Passed_example =
    main-Passed reader api 60 (λ url key now. omega arith) (λ ms now. omega arith) arguments
      (omega arith) (disk, 0) (disk, 61400)

-- The wait for the first task takes a minute, and each request 10 ms.
main-passes : main reader api 61 arguments (disk, 0) ≡ (ok 0, (disk, 61400))
unfolding main validate_files each check_file load_yaml check_params key_in contains strip_prefix
    join_path mode_names string_eq Value.get Value.truthy run_preview_checks preview_one
    run_smoke_checks smoke_one poll_task
main-passes = refl

-- A workflow without its image and its prompt.
abbrev parser : Parser
parser = record {
  loads = λ raw. inr (dict end);
  dumps = λ d.
      "{{negative}}{{seed}}{{param.steps}}{{param.cfg}}{{param.width}}{{param.height}}"
      <> "{{param.num_frames}}{{param.fps}}{{model.name}}";
  str_value = λ v. "value";
}

validate-missing :
    (validate parser "w.json" disk).errors
    ≡ "Missing required placeholder: {{prompt}}"
      ∷ "Workflow must reference either {{image_name}} or {{image_url}}" ∷ []
unfolding validate missing_tokens contains strip_prefix string_eq Value.get
validate-missing = refl
