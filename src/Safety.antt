-- ===== src/Safety.antt =====
-- app/services/safety.py: the age check before a generation. Fetching an image (`load_bytes`) and the
-- face detection (PIL and InsightFace) are parameters.
pub mod Guard
use ai_generation_api.Prelude.{
  ℕ, String, ◌<>◌, ◌⊎◌, inl, inr, Bool, true, false, not, ◌&&◌, Option, none, some, List, [], ◌∷◌,
  any, or_else, ◌==◌, string_eq, if◌then◌else◌,
}
use ai_generation_api.Prelude.Int.{pos}
use ai_generation_api.Errors.{Error, safety_blocked}
use ai_generation_api.Exec.{Result, ok, err}
use ai_generation_api.Settings.{Settings}
use ai_generation_api.Value
use ai_generation_api.Value.{Value, Fields, Float, finite, ltb_float}

pub record SafetyResult : Type 0 where
  pub allowed : Bool
  pub reason : Option String
  pub detected_age : Option Float

abbrev pub allowed_result : SafetyResult
allowed_result = record { allowed = true; reason = none; detected_age = none }

-- `SAFETY_PROVIDER`: `get_safety_checker` takes any other text for none.
pub data Checker : Type 0 where
  none_checker mock_checker insightface_checker : Checker

unfoldable pub get_safety_checker : Settings → Checker
get_safety_checker c =
    if c.safety_provider == "insightface"
    then insightface_checker
    else if c.safety_provider == "mock"
    then mock_checker
    else none_checker

abbrev pub needs_images : Checker → Bool
needs_images insightface_checker = true
needs_images _ = false

abbrev flag_set : Option Value → Bool
flag_set none = false
flag_set (some v) = Value.truthy v

-- `MockSafetyChecker.check`
unfoldable pub mock_check : Fields → SafetyResult
mock_check context =
    if flag_set (Value.get context "simulate_minor")
    then record {
      allowed = false;
      reason = some "age_check_failed: minor detected (mock)";
      detected_age = some (finite (pos 12) 0);
    }
    else allowed_result

-- A face that the detector found; `getattr(f, "age", 99)`.
pub record Face : Type 0 where
  pub age : Option Float

abbrev pub age_of : Face → Float
age_of f = or_else f.age (finite (pos 99) 0)

-- An image's bytes are only passed on; `is_blank` says that there are none. `faces` decodes and detects, or gives the exception's text;
-- `rounded` prints an age without decimals and `digits` a number.
pub record Detector : Type 1 where
  pub Image : Type 0
  pub is_blank : Image → Bool
  pub faces : Image → String ⊎ List Face
  pub rounded : Float → String
  pub digits : ℕ → String

abbrev pub is_url : Option String → Bool
is_url none = false
is_url (some u) = not (u == "")

abbrev pub is_empty : {A : Type 0} → List A → Bool
is_empty [] = true
is_empty (_ ∷ _) = false

-- `if not result.allowed: raise SafetyBlocked(result.reason or "content blocked")`; an empty reason
-- never occurs.
abbrev pub block_or_pass : SafetyResult → Result (Unit {0})
block_or_pass r =
    if r.allowed then ok tt else err (safety_blocked (or_else r.reason "content blocked"))

module _ (det : Detector) (c : Settings) where
  open det use {Image, faces, rounded, digits}

  -- The loop over one image's faces: the first that is too young blocks.
  unfoldable pub check_faces : List Face → Option SafetyResult
  check_faces [] = none
  check_faces (f ∷ fs) =
      if ltb_float (age_of f) c.safety_min_age
      then some (record {
        allowed = false;
        reason = some (
            "age_check_failed: detected age ~"
            <> (rounded (age_of f) <> (" < " <> digits c.safety_min_age)));
        detected_age = some (age_of f);
      })
      else check_faces fs

  abbrev failed_check : String → SafetyResult
  failed_check e = record {
    allowed = false;
    reason = some ("safety_check_error: " <> e);
    detected_age = none;
  }

  -- One image: a result ends the loop, none goes on.
  unfoldable pub check_image : String ⊎ List Face → Option SafetyResult
  unfolding check_faces
  check_image (inl e) = if c.safety_fail_closed then some (failed_check e) else none
  check_image (inr fs) = check_faces fs

  -- `InsightFaceSafetyChecker.check`
  unfoldable pub insightface_check : List Image → SafetyResult
  unfolding check_image
  insightface_check [] = allowed_result
  insightface_check (image ∷ images) =
      or_else (check_image (faces image)) (insightface_check images)

  unfoldable pub check : Checker → List Image → Fields → SafetyResult
  unfolding insightface_check mock_check
  check none_checker images context = allowed_result
  check mock_checker images context = mock_check context
  check insightface_checker images context = insightface_check images

  -- `[b for b in (load_bytes(u) for u in image_urls if u) if b]`: a URL that is `None` or empty is
  -- passed over, and so is an image that could not be loaded or has no bytes.
  module _ (load_bytes : String → Option Image) where
    abbrev loaded : Option Image → List Image → List Image
    loaded none images = images
    loaded (some image) images = if det.is_blank image then images else image ∷ images

    unfoldable pub load_images : List (Option String) → List Image
    load_images [] = []
    load_images (none ∷ urls) = load_images urls
    load_images (some u ∷ urls) = loaded (if u == "" then none else load_bytes u) (load_images urls)

    -- `load_bytes` is called for the checker that needs images only.
    abbrev pub enforce_with : Checker → List (Option String) → Fields → Result (Unit {0})
    enforce_with none_checker urls context = ok tt
    enforce_with checker urls context =
        let images = if needs_images checker then load_images urls else [] in
        if needs_images checker && (is_empty images && (c.safety_fail_closed && any is_url urls))
        then err (safety_blocked "safety_check_error: input image could not be loaded")
        else block_or_pass (check checker images context)

    -- `enforce_safety`
    unfoldable pub enforce_safety : List (Option String) → Fields → Result (Unit {0})
    unfolding get_safety_checker check load_images
    enforce_safety urls context = enforce_with (get_safety_checker c) urls context
