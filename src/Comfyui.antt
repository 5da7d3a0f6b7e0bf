-- ===== src/Comfyui.antt =====
-- app/providers/comfyui.py: the wait for a generation in `ComfyUIProvider.generate`, from the
-- submitted prompt on, and `_extract_output`. The server's answers are a stream, one for each poll;
-- the time that a poll itself takes is not counted, as in the source. `lower` is `str.lower`.
pub mod Polling
pub mod Workflow
pub mod Substitute
pub mod Generate
pub mod Steady
use Prim.Native.Char.{code}
use ai_generation_api.Prelude.{
  ℕ, zero, suc, ◌+◌, ◌*◌, ◌/◌, min, String, ◌<>◌, Bool, true, false, not, Option, none, some, List,
  [], ◌∷◌, ltb, or_else, ◌==◌, string_eq, if◌then◌else◌,
}
use ai_generation_api.Prelude.Int.{ℤ, pos}
use ai_generation_api.Errors.{Error, other, raised, provider}
use ai_generation_api.Exec.{Result, ok, err}
use ai_generation_api.Engine.{GenerationResult}

-- A file that ComfyUI names, and a node's lists of files.
pub record FileInfo : Type 0 where
  pub filename : Option String
  pub subfolder : Option String
  pub file_type : Option String

pub record NodeOutput : Type 0 where
  pub images : List FileInfo
  pub gifs : List FileInfo

-- What a poll gives: an HTTP error, another exception, no entry for the prompt yet, or its entry with
-- the outputs and, for each `execution_error` among the messages, the detail's text.
pub data Answer : Type 0 where
  unreachable absent : Answer
  broken : Error → Answer
  entry : List NodeOutput → List String → Answer

-- `text.split(".")[-1]`
abbrev after_dot : String → String → String
after_dot part String.[] = part
after_dot part (String.◌∷◌ c s) =
    if (String.◌∷◌ c String.[]) == "." then after_dot s s else after_dot part s

abbrev pub timed_out : Error
timed_out = raised provider "comfyui generation timed out"

module _ (lower : String → String) where
  abbrev content_type : String → String
  content_type fmt = if fmt == "mp4" then "video/mp4" else "image/" <> fmt

  -- A node of the loop in `_extract_output`.
  abbrev pub node_file : NodeOutput → Option (FileInfo × String × String)
  node_file n = elim n.images [
    | info ∷ _ ↦ some (info, "png", "image/png")
    | [] ↦ elim n.gifs [
      | info ∷ _ ↦
          let name = or_else info.filename "out.mp4" in
          let fmt = lower (after_dot name name) in some (info, fmt, content_type fmt)
      | [] ↦ none
    ]
  ]

  abbrev first_or :
      Option (FileInfo × String × String)
      → Option (FileInfo × String × String)
      → Option (FileInfo × String × String)
  first_or none rest = rest
  first_or (some f) rest = some f

  -- `_extract_output`
  unfoldable pub extract_output : List NodeOutput → Option (FileInfo × String × String)
  extract_output [] = none
  extract_output (n ∷ ns) = first_or (node_file n) (extract_output ns)

  abbrev detail_of : List String → String
  detail_of [] = "no file output"
  detail_of (d ∷ _) = if d == "" then "no file output" else d

  module _ (download : FileInfo → Result String) (model : Option String) where
    abbrev pub fetched : String → String → Result String → List ℤ × Result GenerationResult
    fetched ext ctype (err e) = ([], err e)
    fetched ext ctype (ok body) = (
      pos 100 ∷ [],
      ok (record { content = body; ext = ext; content_type = ctype; model = model }),
    )

    -- An entry for the prompt ends the wait.
    abbrev pub finish :
        Option (FileInfo × String × String) → List String → List ℤ × Result GenerationResult
    finish none errors = ([], err (raised provider ("comfyui error: " <> detail_of errors)))
    finish (some (info, ext, ctype)) errors = fetched ext ctype (download info)

    -- What follows an answer: the progress reported from here on, and the result.
    abbrev pub on_answer :
        Answer → ℕ → List ℤ × Result GenerationResult → List ℤ × Result GenerationResult
    on_answer unreachable waited rest = rest
    on_answer absent waited rest = (pos (min 90 (10 + waited / 1000)) ∷ rest.0, rest.1)
    on_answer (broken e) waited rest = ([], err e)
    on_answer (entry outputs errors) waited rest = finish (extract_output outputs) errors

    -- The loop, from the poll `n` on, in milliseconds.
    module _ (timeout interval : ℕ) (answers : ℕ → Answer) where
      unfoldable pub poll : ℕ → ℕ → ℕ → List ℤ × Result GenerationResult
      unfolding extract_output
      poll zero n waited = ([], err (other "out of fuel"))
      poll (suc fuel) n waited =
          let rest = poll fuel (suc n) (waited + interval) in
          if ltb waited timeout
          then on_answer (answers n) (waited + interval) rest
          else ([], err timed_out)

      -- `progress(10)` and the loop.
      unfoldable pub wait : ℕ → List ℤ × Result GenerationResult
      unfolding poll
      wait fuel = let (reports, r) = poll fuel 0 0 in (pos 10 ∷ reports, r)
