-- ===== src/Mock/Progress.antt =====
-- The provider `mock` keeps the contract of a provider.
use ai_generation_api.Prelude.{
  ℕ, zero, suc, ◌+◌, ◌*◌, ◌/◌, ◌≤◌, ◌<◌, ◌≡◌, refl, ap, String, Option, some, List, [], ◌∷◌,
  Bool-cases, inl, inr, arith, ◌==◌, string_eq,
}
use native.Mathlib.Nat.{le-div_iff_mul-le, mul-div_right, div-mul-le_self}
use ai_generation_api.Prelude.Int.{ℤ, pos, ◌≤ℤ◌}
use ai_generation_api.Exec.{Result, ok, err, Result-cases}
use ai_generation_api.Engine.{GenerationRequest, GenerationResult}
use ai_generation_api.Engine.Contract.{
  Rising, Rising-weaken, Steady-full, last_report, last_report-cons, Completes, Steady, IsSteady,
  Steady-report, Steady-err,
}
use ai_generation_api.Mock.{
  Pil, then_run, result_of, painted, paint, frames, add_frame, animated, animate, generate_image,
  generate_video, generate_mock, mock_provider,
}

then_run-Steady :
    {A : Type 0} (low : ℤ) (r : Result A) (f : A → List ℤ × Result GenerationResult)
    → ((a : A) → Steady low (f a))
    → Steady low (then_run r f)
unfolding then_run
then_run-Steady low (err e) f h = Steady-err _ e
then_run-Steady low (ok a) f h = h a

-- How far `i` of `n` frames are.
abbrev part : ℕ → ℕ → ℕ
part i n = i * 100 / n

part_le : (i j n : ℕ) → 0 < n → i ≤ j → part i n ≤ part j n
part_le i j n pos_n h = (le-div_iff_mul-le pos_n).1 (omega (arith, div-mul-le_self (i * 100) n))

part_all : (n : ℕ) → 0 < n → part n n ≡ 100
part_all n h = mul-div_right 100 h

result_of-Completes :
    (ext ctype : String) (reports : List ℤ) (r : Result String)
    → last_report reports ≡ some (pos 100)
    → Completes reports (result_of ext ctype r)
result_of-Completes ext ctype reports (err e) h = tt
result_of-Completes ext ctype reports (ok body) h = h

module _ (pil : Pil) (digest : String → ℕ → ℕ) (wrap : ℕ → String → List String)
    (load_bytes : String → Option String) (zoomed : ℕ → ℕ → ℕ → ℕ) where
  open pil use {Image}

  painted-Steady : (out : Result Image) → Steady (pos 80) (painted pil digest wrap load_bytes out)
  unfolding then_run
  painted-Steady (err e) = Steady-err _ e
  painted-Steady (ok img) = Steady-full (pos 80) _ (omega arith)

  generate_image-Steady :
      (req : GenerationRequest) → Steady (pos 0) (generate_image pil digest wrap load_bytes req)
  unfolding generate_image
  generate_image-Steady req = then_run-Steady (pos 0) _ _ λ w. then_run-Steady (pos 0) _ _ λ h.
      Steady-report (pos 0) (pos 20) _ (omega arith) (omega arith) (
        Steady-report (pos 20) (pos 50) _ (omega arith) (omega arith) (
          Steady-report (pos 50) (pos 80) (paint pil digest wrap load_bytes req w h) (omega arith)
            (omega arith) (then_run-Steady (pos 80) _ _ λ src. painted-Steady _)))

  -- What the loop reports and makes with `k` frames to come.
  abbrev Ends : ℕ → List ℤ × Result (List Image) → Type 0
  Ends k (ps, err e) = Unit
  Ends zero (ps, ok imgs) = ps ≡ []
  Ends (suc k) (ps, ok imgs) = last_report ps ≡ some (pos 100)

  abbrev Framed : ℕ → ℤ → List ℤ × Result (List Image) → Type 0
  Framed k low run = Rising low run.0 × Ends k run

  add_frame-Framed :
      (k : ℕ) (low p : ℤ) (img : Image) (run : List ℤ × Result (List Image))
      → low ≤ℤ p
      → p ≤ℤ pos 100
      → (k ≡ 0 → p ≡ pos 100)
      → Framed k p run
      → Framed (suc k) low (add_frame pil digest wrap load_bytes zoomed img run p)
  add_frame-Framed k low p img (ps, err e) a b z (rising, ends) = ((a, b, rising), tt)
  add_frame-Framed zero low p img (ps, ok imgs) a b z (rising, ends) =
      ((a, b, rising), rw ends (ap some (z refl)))
  add_frame-Framed (suc k) low p img (ps, ok imgs) a b z (rising, ends) =
      ((a, b, rising), last_report-cons p (pos 100) ps ends)

  module _ (make : ℕ → Result Image) where
    frames-Framed :
        (n k i : ℕ)
        → i + k ≡ n
        → Framed k (pos (part i n)) (frames pil digest wrap load_bytes zoomed make n k i)
    unfolding frames
    frames-Framed n zero i h = (tt, refl)
    frames-Framed n (suc k) i h = elim (Result-cases (make i)) [
      | inr (e, made) ↦ rw made (tt, tt)
      | inl (img, made) ↦
          let some_n : 0 < n = omega arith in
          rw made (
            add_frame-Framed k (pos (part i n)) (pos (part (i + 1) n)) img _
              (omega (arith, part_le i (i + 1) n some_n (omega arith)))
              (omega (arith, part_le (i + 1) n n some_n (omega arith), part_all n some_n))
              (λ last. let whole : i + 1 ≡ n = omega arith in rw whole (ap pos (part_all n some_n)))
              (let next : i + 1 ≡ suc i = omega arith in
                rw next (frames-Framed n k (suc i) (omega arith))))
    ]

  animated-Completes :
      (k : ℕ) (fps : ℤ) (ps : List ℤ) (imgs : Result (List Image))
      → Ends (suc k) (ps, imgs)
      → Completes ps (animated pil digest wrap load_bytes zoomed fps imgs)
  animated-Completes k fps ps (err e) h = tt
  animated-Completes k fps ps (ok []) h = tt
  animated-Completes k fps ps (ok (img ∷ imgs)) h =
      result_of-Completes "gif" "image/gif" ps (pil.save_gif (img ∷ imgs) _) h

  no_clip :
      (make : ℕ → Result Image) (fps : ℤ)
      → let (ps, imgs) = frames pil digest wrap load_bytes zoomed make 0 0 0 in
        Steady (pos 0) (ps, animated pil digest wrap load_bytes zoomed fps imgs)
  unfolding frames
  no_clip make fps = Steady-err _ _

  clip-Steady :
      (make : ℕ → Result Image) (n : ℕ) (fps : ℤ)
      → let (ps, imgs) = frames pil digest wrap load_bytes zoomed make n n 0 in
        Steady (pos 0) (ps, animated pil digest wrap load_bytes zoomed fps imgs)
  clip-Steady make zero fps = no_clip make fps
  clip-Steady make (suc k) fps =
      let run = frames pil digest wrap load_bytes zoomed make (suc k) (suc k) 0 in
      let (rising, ends) = frames-Framed make (suc k) (suc k) 0 (omega arith) in
      record {
        rising = Rising-weaken (pos 0) (pos (part 0 (suc k))) _ (omega arith) rising;
        completes = animated-Completes k fps run.0 run.1 ends;
      }

  animate-Steady :
      (req : GenerationRequest) (w h : ℤ) (n : ℕ) (fps : ℤ)
      → Steady (pos 0) (animate pil digest wrap load_bytes zoomed req w h n fps)
  animate-Steady req w h n fps = then_run-Steady (pos 0) _ _ λ src. clip-Steady _ n fps

  generate_video-Steady :
      (req : GenerationRequest)
      → Steady (pos 0) (generate_video pil digest wrap load_bytes zoomed req)
  unfolding generate_video
  generate_video-Steady req = then_run-Steady (pos 0) _ _ λ w. then_run-Steady (pos 0) _ _ λ h.
      then_run-Steady (pos 0) _ _
        λ n. then_run-Steady (pos 0) _ _ λ fps. animate-Steady req w h _ fps

  generate_mock-Steady :
      (req : GenerationRequest)
      → Steady (pos 0) (generate_mock pil digest wrap load_bytes zoomed req)
  unfolding generate_mock
  generate_mock-Steady req = elim (Bool-cases (req.task_type == "video")) [
    | inl video ↦ rw video (generate_video-Steady req)
    | inr photo ↦ rw photo (generate_image-Steady req)
  ]

  -- The progress that the mock provider reports, for a photo and for a video of any number of
  -- frames, never falls and stays from 0 to 100, and where it returns a result the last report is
  -- 100.
  pub mock_provider-IsSteady : IsSteady (mock_provider pil digest wrap load_bytes zoomed)
  mock_provider-IsSteady = record { steady = λ req run. generate_mock-Steady req }
