-- ===== src/Mock.antt =====
-- app/providers/mock.py: the provider without a GPU. PIL, `textwrap` and SHA-256 are parameters; so is
-- the width of a zoomed frame, a float. `int((i + 1) / n * 100)` is the quotient for each `n` up to 48.
pub mod Progress
use ai_generation_api.Prelude.{
  ℕ, zero, suc, ◌+◌, ◌*◌, ◌-◌, ◌/◌, String, ◌<>◌, Bool, true, false, Option, none, some, List, [],
  ◌∷◌, or_else, leb, if◌then◌else◌, ◌==◌, string_eq,
}
use ai_generation_api.Prelude.Int.{ℤ, pos, ◌+ℤ◌, ◌-ℤ◌, pos_part, min_ℤ}
use ai_generation_api.Errors.{Error, other}
use ai_generation_api.Exec.{Result, ok, err}
use ai_generation_api.Value
use ai_generation_api.Value.{
  Value, Fields, null, bool, int, float, str, list, dict, finite, infinite, nan, trunc, int_of_text,
}
use ai_generation_api.Engine.{GenerationRequest, GenerationResult, Provider}

abbrev pub Color : Type 0
Color = ℕ × ℕ × ℕ × ℕ

-- What the source calls of PIL: each operation on a picture gives the picture after it.
pub record Pil : Type 1 where
  pub Image : Type 0
  pub open_rgb : String → Option Image
  pub new_rgb : ℤ → ℤ → Color → Result Image
  pub size : Image → ℕ × ℕ
  pub thumbnail : ℤ → ℤ → Image → Result Image
  pub resize : ℕ → ℕ → Image → Result Image
  pub crop : ℕ → ℕ → Image → Image
  pub rectangle : ℤ → ℤ → ℤ → ℤ → Color → Image → Image
  pub line : ℕ → ℕ → ℕ → ℕ → Color → Image → Image
  pub multiline_text : ℤ → ℤ → String → Color → Image → Image
  pub save_png : Image → Result String
  pub save_gif : List Image → ℕ → Result String

abbrev text_int : Option ℤ → Result ℤ
text_int none = err (other "ValueError: invalid literal for int()")
text_int (some z) = ok z

-- `int(value)`
unfoldable pub int_of : Value → Result ℤ
int_of (bool b) = ok (if b then pos 1 else pos 0)
int_of (int z) = ok z
int_of (float (finite m k)) = ok (trunc m k)
int_of (float (infinite s)) = err (other "OverflowError: cannot convert float infinity to integer")
int_of (float nan) = err (other "ValueError: cannot convert float NaN to integer")
int_of (str s) = text_int (int_of_text s)
int_of _ = err (other "TypeError: int() argument must be a string or a real number")

-- `int(req.params.get(key, default))`
abbrev pub int_param : GenerationRequest → String → ℕ → Result ℤ
int_param req key default = int_of (or_else (Value.get req.params key) (int (pos default)))

abbrev pub at_least : ℕ → ℕ → ℕ
at_least lo n = if leb n lo then lo else n

-- `"\n".join(lines)`
abbrev join_lines : List String → String
join_lines [] = ""
join_lines (s ∷ []) = s
join_lines (s ∷ t ∷ lines) = s <> ("\n" <> join_lines (t ∷ lines))

abbrev pub with_report : ℤ → List ℤ × Result GenerationResult → List ℤ × Result GenerationResult
with_report p run = (p ∷ run.0, run.1)

unfoldable pub then_run :
    {A : Type 0}
    → Result A
    → (A → List ℤ × Result GenerationResult)
    → List ℤ × Result GenerationResult
then_run (err e) f = ([], err e)
then_run (ok a) f = f a

abbrev pub result_of : String → String → Result String → Result GenerationResult
result_of ext ctype (err e) = err e
result_of ext ctype (ok body) =
    ok (record { content = body; ext = ext; content_type = ctype; model = some "mock" })

module _ (pil : Pil) (digest : String → ℕ → ℕ) (wrap : ℕ → String → List String) where
  open pil use {Image, size, rectangle, line, multiline_text}

  abbrev white : Color
  white = (255, 255, 255, 255)

  -- `_bg`
  abbrev pub bg : String → Color
  bg text = (digest text 0, digest text 1, digest text 2, 255)

  -- `_banner`
  unfoldable pub banner : String → String → Image → Image
  banner mode_id prompt img =
      let (w, h) = size img in
      let bar_h = at_least 60 (h / 6) in
      let top = pos h -ℤ pos bar_h in
      let text =
        "[MOCK] " <> (mode_id <> ("\n" <> join_lines (wrap (at_least 20 (w / 10)) prompt))) in
      multiline_text (pos 12) (top +ℤ pos 8) text white
        (rectangle (pos 0) top (pos w) (pos h) (0, 0, 0, 160) img)

  -- The lines from the column `i` on, so many of them.
  abbrev pub stripes : ℕ → ℕ → ℕ → ℕ → Image → Image
  stripes zero i h shift img = img
  stripes (suc k) i h shift img =
      stripes k (i + 40) h shift (line (i + shift) 0 (i + shift) h white img)

  abbrev draw_placeholder : String → ℕ → ℕ → ℕ → Result Image → Result Image
  draw_placeholder text w h shift (err e) = err e
  draw_placeholder text w h shift (ok img) =
      let body =
        join_lines (wrap (at_least 10 (w / 14)) (if text == "" then "(empty)" else text)) in
      ok (
        multiline_text (pos 20) (pos 20) ("[MOCK]\n" <> body) white
          (stripes ((w + 39) / 40) 0 h shift img))

  -- `_placeholder`; PIL refuses a negative size.
  unfoldable pub placeholder_image : String → ℤ → ℤ → ℕ → Result Image
  placeholder_image text w h shift =
      draw_placeholder text (pos_part w) (pos_part h) shift (pil.new_rgb w h (bg text))

  module _ (load_bytes : String → Option String) where
    abbrev open_image : Option String → Option Image
    open_image none = none
    open_image (some body) = if body == "" then none else pil.open_rgb body

    -- `_load_source_image`
    unfoldable pub load_source_image : Option String → Option Image
    load_source_image none = none
    load_source_image (some url) = open_image (if url == "" then none else load_bytes url)

    -- `src.thumbnail((w, h))`, where there is a source.
    abbrev shrink : ℤ → ℤ → Option Image → Result (Option Image)
    shrink w h none = ok none
    shrink w h (some img) = elim (pil.thumbnail w h img) [ ok i ↦ ok (some i) | err e ↦ err e ]

    abbrev main_picture : GenerationRequest → ℤ → ℤ → Option Image → Result Image
    main_picture req w h (some img) = ok (banner req.mode_id req.prompt img)
    main_picture req w h none = placeholder_image req.prompt w h 0

    -- The body of `generate_image` after the three steps.
    abbrev pub painted : Result Image → List ℤ × Result GenerationResult
    painted out = then_run out λ img. (pos 100 ∷ [], result_of "png" "image/png" (pil.save_png img))

    abbrev pub paint : GenerationRequest → ℤ → ℤ → List ℤ × Result GenerationResult
    paint req w h =
        then_run (shrink w h (load_source_image req.image_url))
          λ src. painted (main_picture req w h src)

    -- `generate_image`
    unfoldable pub generate_image : GenerationRequest → List ℤ × Result GenerationResult
    unfolding load_source_image banner placeholder_image int_of
    generate_image req = then_run (int_param req "width" 1024) λ w.
        then_run (int_param req "height" 1024)
          λ h. with_report (pos 20) (with_report (pos 50) (with_report (pos 80) (paint req w h)))

    module _ (zoomed : ℕ → ℕ → ℕ → ℕ) where
      abbrev zoom : String → String → Image → Result Image → Result Image
      zoom mode_id prompt src (err e) = err e
      zoom mode_id prompt src (ok big) =
          let (w, h) = size src in ok (banner mode_id prompt (pil.crop w h big))

      -- The frame `i` of `n`; `zoomed` is `int(side * (1.0 + 0.04 * (i / max(n - 1, 1))))`.
      abbrev pub make_frame : GenerationRequest → ℤ → ℤ → ℕ → Option Image → ℕ → Result Image
      make_frame req w h n (some src) i =
          let (sw, sh) = size src in
          let last = at_least 1 (n - 1) in
          zoom req.mode_id req.prompt src (pil.resize (zoomed sw i last) (zoomed sh i last) src)
      make_frame req w h n none i = placeholder_image req.prompt w h (i * 8)

      abbrev pub add_frame : Image → List ℤ × Result (List Image) → ℤ → List ℤ × Result (List Image)
      add_frame img (ps, ok imgs) p = (p ∷ ps, ok (img ∷ imgs))
      add_frame img (ps, err e) p = (p ∷ ps, err e)

      abbrev pub with_frame :
          Result Image → List ℤ × Result (List Image) → ℤ → List ℤ × Result (List Image)
      with_frame (err e) rest p = ([], err e)
      with_frame (ok img) rest p = add_frame img rest p

      -- The loop, with so many frames to come.
      unfoldable pub frames : (ℕ → Result Image) → ℕ → ℕ → ℕ → List ℤ × Result (List Image)
      frames make n zero i = ([], ok [])
      frames make n (suc k) i =
          let rest = frames make n k (suc i) in with_frame (make i) rest (pos ((i + 1) * 100 / n))

      abbrev pub animated : ℤ → Result (List Image) → Result GenerationResult
      animated fps (err e) = err e
      animated fps (ok []) = err (other "IndexError: list index out of range")
      animated fps (ok imgs) =
          result_of "gif" "image/gif" (pil.save_gif imgs (1000 / at_least 1 (pos_part fps)))

      -- `min(int(…), 48)`; `range` of a negative number is empty.
      abbrev pub frame_count : ℤ → ℕ
      frame_count z = pos_part (min_ℤ z (pos 48))

      abbrev pub animate : GenerationRequest → ℤ → ℤ → ℕ → ℤ → List ℤ × Result GenerationResult
      animate req w h n fps =
          then_run (shrink w h (load_source_image req.image_url)) λ src.
            let (ps, imgs) = frames (make_frame req w h n src) n n 0 in (ps, animated fps imgs)

      -- `_video`
      unfoldable pub generate_video : GenerationRequest → List ℤ × Result GenerationResult
      unfolding load_source_image banner placeholder_image int_of frames
      generate_video req = then_run (int_param req "width" 768) λ w.
          then_run (int_param req "height" 768) λ h.
            then_run (int_param req "num_frames" 24)
              λ n. then_run (int_param req "fps" 8) λ fps. animate req w h (frame_count n) fps

      -- `MockProvider.generate`
      unfoldable pub generate_mock : GenerationRequest → List ℤ × Result GenerationResult
      unfolding generate_image generate_video
      generate_mock req =
          if req.task_type == "video" then generate_video req else generate_image req

      abbrev pub mock_provider : Provider
      mock_provider = record {
        name = "mock";
        reports = λ req run. (generate_mock req).0;
        generate = λ req run. (generate_mock req).1;
      }
