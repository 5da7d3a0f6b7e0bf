-- ===== src/Safety/Guard.antt =====
-- What a passed check has seen.
use ai_generation_api.Prelude.{
  String, ◌≡◌, ◌≢◌, ◌↔◌, refl, any, Option-cases, ◌⊎◌, inl, inr, Bool, true, false, ◌&&◌, Option,
  none, some, List, [], ◌∷◌, arith, All, string_eq, if◌then◌else◌,
}
use ai_generation_api.Exec.{ok, err}
use ai_generation_api.Errors.{safety_blocked}
use ai_generation_api.Settings.{Settings}
use ai_generation_api.Value.{Fields, ltb_float}
use ai_generation_api.Safety.{
  Detector, SafetyResult, Face, age_of, Checker, none_checker, mock_checker, insightface_checker,
  enforce_with, get_safety_checker, check_faces, check_image, insightface_check, is_empty,
  block_or_pass, load_images, enforce_safety, is_url,
}

allowed-of-pass : (r : SafetyResult) → block_or_pass r ≡ ok tt → r.allowed ≡ true
allowed-of-pass r h = ground arith

pass-of-allowed : (r : SafetyResult) → r.allowed ≡ true → block_or_pass r ≡ ok tt
pass-of-allowed r h = ground arith

module _ (det : Detector) (c : Settings) where
  open det use {Image, faces}

  -- No face is younger than the least age.
  abbrev pub IsAdult : Face → Type 0
  IsAdult f = ltb_float (age_of f) c.safety_min_age ≡ false

  -- The image was decoded, and every face on it is of age.
  abbrev pub IsCleared : String ⊎ List Face → Type 0
  IsCleared (inl e) = ⊥
  IsCleared (inr fs) = All IsAdult fs

  check_faces-none : (fs : List Face) → (check_faces det c fs ≡ none) ↔ All IsAdult fs
  unfolding check_faces
  check_faces-none [] = (λ h. tt, λ h. refl)
  check_faces-none (f ∷ fs) = ground (arith, check_faces-none fs)

  check_faces-blocks :
      (fs : List Face) (r : SafetyResult) → check_faces det c fs ≡ some r → r.allowed ≡ false
  unfolding check_faces
  check_faces-blocks [] r h = cc
  check_faces-blocks (f ∷ fs) r h = ground (arith, check_faces-blocks fs r)

  module _ (closed : c.safety_fail_closed ≡ true) where
    check_image-none : (x : String ⊎ List Face) → (check_image det c x ≡ none) ↔ IsCleared x
    unfolding check_image
    check_image-none (inl e) = rw closed (λ h. cc, λ h. absurd h)
    check_image-none (inr fs) = check_faces-none fs

    check_image-blocks :
        (x : String ⊎ List Face) (r : SafetyResult)
        → check_image det c x ≡ some r
        → r.allowed ≡ false
    unfolding check_image
    check_image-blocks (inl e) r h = ground arith
    check_image-blocks (inr fs) r h = check_faces-blocks fs r h

    insightface_check-allowed :
        (images : List Image)
        → ((insightface_check det c images).allowed ≡ true) ↔ All (λ i. IsCleared (faces i)) images
    unfolding insightface_check
    insightface_check-allowed [] = (λ h. tt, λ h. refl)
    insightface_check-allowed (i ∷ images) = elim (Option-cases (check_image det c (faces i))) [
      | inl clear ↦
          let rest = insightface_check-allowed images in
          rw clear (λ h. ((check_image-none (faces i)).0 clear, rest.0 h), λ h. rest.1 h.1)
      | inr (r, blocked) ↦ rw blocked (
        λ h. absurd (ground (arith, check_image-blocks (faces i) r blocked)),
        λ h. absurd (ground (arith, (check_image-none (faces i)).1 h.0)),
      )
    ]

    -- The end of `enforce_safety`, for the images that were loaded.
    passed :
        (given : Bool) (images : List Image)
        → ((if is_empty images && (c.safety_fail_closed && given)
              then err (safety_blocked "safety_check_error: input image could not be loaded")
              else block_or_pass (insightface_check det c images))
            ≡ ok tt)
          ↔ (All (λ i. IsCleared (faces i)) images × (given ≡ true → images ≢ []))
    unfolding insightface_check
    passed true [] = rw closed (λ h. cc, λ h. absurd (h.1 refl refl))
    passed false [] = rw closed (λ h. (tt, λ e. cc), λ h. refl)
    passed given (i ∷ images) =
        let all = insightface_check-allowed (i ∷ images) in
        (
          λ h. (all.0 (allowed-of-pass (insightface_check det c (i ∷ images)) h), λ g e. cc e),
          λ h. pass-of-allowed (insightface_check det c (i ∷ images)) (all.1 h.0),
        )

    module _ (load_bytes : String → Option Image) (on : c.safety_provider ≡ "insightface") where
      checker_on : get_safety_checker c ≡ insightface_checker
      unfolding get_safety_checker
      checker_on = ground arith

      -- With InsightFace and fail-closed, a call passes exactly if every image that was loaded
      -- could be decoded and shows no face below the least age, and at least one was loaded where
      -- any URL was given.
      pub enforce_safety-ok :
          (urls : List (Option String)) (context : Fields)
          → (enforce_safety det c load_bytes urls context ≡ ok tt) ↔ (
              All (λ i. IsCleared (faces i)) (load_images det c load_bytes urls)
              × ((any is_url urls ≡ true) → load_images det c load_bytes urls ≢ []))
      unfolding enforce_safety
      enforce_safety-ok urls context =
          rw checker_on (passed (any is_url urls) (load_images det c load_bytes urls))

  module _ (load_bytes : String → Option Image) (u : String) (lost : load_bytes u ≡ none) where
    load_images_lost :
        (urls : List (Option String))
        → load_images det c load_bytes (some u ∷ urls) ≡ load_images det c load_bytes urls
    unfolding load_images
    load_images_lost urls = ground arith

    enforce_with_lost :
        (k : Checker) (urls : List (Option String)) (context : Fields)
        → load_images det c load_bytes urls ≢ []
        → enforce_with det c load_bytes k (some u ∷ urls) context
          ≡ enforce_with det c load_bytes k urls context
    enforce_with_lost none_checker urls context other = refl
    enforce_with_lost mock_checker urls context other = refl
    enforce_with_lost insightface_checker urls context other = ground (arith, load_images_lost urls)

  -- A first image that cannot be loaded does not change the outcome of the check where one of the
  -- others is loaded.
  pub enforce_safety_unloaded :
      (load_bytes : String → Option Image) (u : String) (urls : List (Option String))
      (context : Fields)
      → load_bytes u ≡ none
      → load_images det c load_bytes urls ≢ []
      → enforce_safety det c load_bytes (some u ∷ urls) context
        ≡ enforce_safety det c load_bytes urls context
  unfolding enforce_safety
  enforce_safety_unloaded load_bytes u urls context lost other =
      enforce_with_lost load_bytes u lost (get_safety_checker c) urls context other
