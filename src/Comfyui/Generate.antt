-- ===== src/Comfyui/Generate.antt =====
-- app/providers/comfyui.py: `_upload_url`, `generate`, `_download` and `health`. A client of ComfyUI's
-- server and the loader of images are parameters; the state is the number of `uuid4` drawn.
use ai_generation_api.Prelude.{
  ℕ, suc, String, ◌<>◌, Bool, false, Option, none, some, List, [], ◌∷◌, length, or_else,
  if◌then◌else◌, ◌==◌, nat_eq, string_eq,
}
use ai_generation_api.Prelude.Int.{ℤ, pos}
use ai_generation_api.Errors.{Error, raised, provider, http_error, other}
use ai_generation_api.Exec.{Result, ok, err, Exec, lift, ◌>>=◌}
use ai_generation_api.Value
use ai_generation_api.Value.{Value, Fields, Float, field, end, str, int, float, dict, truthy}
use ai_generation_api.Engine.{GenerationRequest, GenerationResult, Provider}
use ai_generation_api.Comfyui.{FileInfo, Answer, wait}
use ai_generation_api.Comfyui.Workflow.{Wide, Workflows, load_workflow}

-- What the server answers: to an upload and a submit, the name and the prompt's id in the reply's
-- JSON; to the poll of a prompt; a file's content; the status code of `/system_stats`.
pub record Client : Type 0 where
  pub upload : String → String → Result (Option String)
  pub submit : Value → Result (Option String)
  pub history : String → ℕ → Answer
  pub view : String → String → String → Result String
  pub stats : Result ℕ

-- `d[key] = v`
unfoldable pub put : String → Value → Fields → Fields
put k v end = field k v end
put k v (field j w d) = let rest = field j w (put k v d) in if j == k then field j v d else rest

abbrev pub get_or : Fields → String → Value → Value
get_or d k v = or_else (Value.get d k) v

abbrev strength : Option Float → Value
strength none = str ""
strength (some x) = if truthy (float x) then float x else str ""

abbrev provider_failed : String → Error → Error
provider_failed what (http_error e) = raised provider (what <> e)
provider_failed what e = e

abbrev pub reraise : {A : Type 0} → String → Result A → Result A
reraise what (err e) = err (provider_failed what e)
reraise what (ok a) = ok a

-- `(req.model or {}).get("name")`; the source passes a value that is no text on as it is.
abbrev name_of : Option Value → Option String
name_of (some (str s)) = some s
name_of _ = none

abbrev pub no_workflow : String → Error
no_workflow mode_id = raised provider ("mode '" <> (mode_id <> "' has no 'workflow' set"))

module _ (digits : ℕ → String) where
  -- `ctx[f"reference_{i}"] = url`
  abbrev pub add_references : ℕ → List String → Fields → Fields
  add_references i [] ctx = ctx
  add_references i (url ∷ urls) ctx =
      add_references (suc i) urls (put ("reference_" <> digits i) (str url) ctx)

  -- `ctx`, before the uploads.
  unfoldable pub context : GenerationRequest → Fields
  unfolding put truthy
  context req = add_references 0 req.reference_urls (
      field "prompt" (str req.prompt) (
        field "negative" (str req.negative_prompt) (
          field "image_url" (str (or_else req.image_url "")) (
            field "seed" (get_or req.params "seed" (int (pos 0))) (
              field "param" (dict req.params) (
                field "model" (dict req.model) (
                  field "reference_strength" (strength req.reference_strength) (
                    field "reference_count" (int (pos (length req.reference_urls))) (
                      field "driving_url" (str (or_else req.driving_url ""))
                        (field "mask_url" (str (or_else req.mask_url "")) end))))))))))

module _ (client : Client) (load_bytes : String → Option String) (uuid_hex : ℕ → String) where
  -- `r.json().get("name", name)`
  abbrev upload_name : String → Result (Option String) → Result String
  upload_name name (err e) = err (provider_failed "comfyui image upload failed: " e)
  upload_name name (ok reply) = ok (or_else reply name)

  abbrev send : Option String → Exec ℕ String
  send none n = (ok "", n)
  send (some body) n =
      if body == ""
      then (ok "", n)
      else let name = "in_" <> (uuid_hex n <> ".png") in
        (upload_name name (client.upload name body), suc n)

  -- `_upload_url`
  unfoldable pub upload_url : Option String → Exec ℕ String
  upload_url none n = (ok "", n)
  upload_url (some url) n = if url == "" then (ok "", n) else send (load_bytes url) n

  module _ (digits : ℕ → String) where
    unfoldable pub upload_references : ℕ → List String → Fields → Exec ℕ Fields
    upload_references i [] ctx n = (ok ctx, n)
    upload_references i (url ∷ urls) ctx n =
        (upload_url (some url) >>= λ name.
        upload_references (suc i) urls (put ("reference_" <> (digits i <> "_name")) (str name) ctx))
          n

    -- The uploads, with the names in the context.
    unfoldable pub upload_all : GenerationRequest → Fields → Exec ℕ Fields
    unfolding upload_url upload_references put
    upload_all req ctx = do
      image ← upload_url req.image_url
      mask ← upload_url req.mask_url
      upload_references 0 req.reference_urls
          (put "mask_name" (str mask) (put "image_name" (str image) ctx))

-- `_download`
unfoldable pub download : Client → FileInfo → Result String
download client info = elim info.filename [
  | none ↦ err (other "KeyError: 'filename'")
  | some name ↦ client.view name (or_else info.subfolder "") (or_else info.file_type "output")
]

-- `except httpx.HTTPError: return False`
abbrev healthy : Result ℕ → Result Bool
healthy (ok status) = ok (status == 200)
healthy (err (http_error _)) = ok false
healthy (err e) = err e

-- `health`
unfoldable pub health : Client → Result Bool
health client = healthy client.stats

-- What `generate` runs with: settings, and the code outside of it.
pub record Setup : Type 0 where
  pub timeout : ℕ
  pub interval : ℕ
  pub client : Client
  pub load_bytes : String → Option String
  pub uuid_hex : ℕ → String
  pub digits : ℕ → String
  pub lower : String → String
  pub wide : ℕ → Wide
  pub repr : Value → String
  pub files : Workflows

module _ (c : Setup) where
  abbrev pub prompt_id_of : Result (Option String) → Result String
  prompt_id_of (err e) = err (provider_failed "comfyui submit failed: " e)
  prompt_id_of (ok none) = err (raised provider "comfyui submit failed: 'prompt_id'")
  prompt_id_of (ok (some id)) = ok id

  -- Up to the prompt's id.
  unfoldable pub submit : GenerationRequest → String → Exec ℕ String
  unfolding context upload_all load_workflow
  submit req workflow = do
    ctx ← upload_all c.client c.load_bytes c.uuid_hex c.digits req (context c.digits req)
    filled ← lift (load_workflow c.wide c.repr c.files workflow ctx)
    lift (prompt_id_of (c.client.submit filled))

  -- From the prompt's id on.
  abbrev pub await : ℕ → GenerationRequest → Result String → List ℤ × Result GenerationResult
  await fuel req (err e) = ([], err e)
  await fuel req (ok id) =
      wait c.lower (download c.client) (name_of (Value.get req.model "name")) c.timeout c.interval
        (c.client.history id) fuel

  abbrev pub with_workflow :
      ℕ → GenerationRequest → ℕ → Option String → List ℤ × Result GenerationResult
  with_workflow fuel req drawn none = ([], err (no_workflow req.mode_id))
  with_workflow fuel req drawn (some workflow) =
      if workflow == ""
      then ([], err (no_workflow req.mode_id))
      else await fuel req (submit req workflow drawn).0

  -- `generate`: the progress that it reports, and its result.
  unfoldable pub generate : ℕ → GenerationRequest → ℕ → List ℤ × Result GenerationResult
  unfolding submit wait download
  generate fuel req drawn = with_workflow fuel req drawn req.workflow

  -- The provider `comfyui`; each run of a task draws its own ids.
  abbrev pub comfyui_provider : ℕ → (ℕ → ℕ) → Provider
  comfyui_provider fuel drawn = record {
    name = "comfyui";
    reports = λ req run. (generate fuel req (drawn run)).0;
    generate = λ req run. (generate fuel req (drawn run)).1;
  }
