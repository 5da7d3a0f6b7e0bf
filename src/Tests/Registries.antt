-- ===== src/Tests/Registries.antt =====
-- Prices, modes and the age check.
use ai_generation_api.Prelude.{
  false, ◌==◌, if◌then◌else◌, ℕ, String, ◌≡◌, ◌≢◌, ◌↔◌, refl, any, All, inr, true, Option, none,
  some, List, [], ◌∷◌, string_eq,
}
use ai_generation_api.Prelude.Int.{pos}
use ai_generation_api.Exec.{ok}
use ai_generation_api.Value
use ai_generation_api.Value.{Value, Fields, field, end, int, Float, finite, infinite, float, dict}
use ai_generation_api.Pricing.{PricingRegistry, price_for, as_int}
use ai_generation_api.Pricing.Precedence.{
  sources, first, Decided, Outcome, price_for-Decided, price_for-Outcome,
}
use ai_generation_api.Modes.{ModeConfig, ModeRegistry, reload, load_models, load, get}
use ai_generation_api.Modes.Reload.{Reloaded, get-reload}
use ai_generation_api.Safety.{Detector, enforce_safety, load_images, is_url}
use ai_generation_api.Safety.Guard.{IsCleared, enforce_safety-ok, enforce_safety_unloaded}
use ai_generation_api.Tests.Samples.{partner, settings, portrait_mode}

abbrev repr : Value → String
repr v = "?"

-- The mode costs 30, and every photo 10.
abbrev prices : PricingRegistry
prices = record {
  defaults = field "photo" (int (pos 10)) end;
  modes = field "portrait" (int (pos 30)) end;
  api_keys = [];
}

price_for-portrait : price_for repr prices "photo" "portrait" (some partner) ≡ ok (pos 30)
unfolding price_for as_int Value.get string_eq
price_for-portrait = refl

price_for-Decided_example :
    Decided repr "portrait"
      (first (sources prices "photo" "portrait" (some partner)))
      (price_for repr prices "photo" "portrait" (some partner))
price_for-Decided_example = price_for-Decided repr prices "photo" "portrait" (some partner)

price_for-Outcome_example :
    Outcome repr
      (first (sources prices "photo" "portrait" (some partner)))
      (price_for repr prices "photo" "portrait" (some partner))
price_for-Outcome_example = price_for-Outcome repr prices "photo" "portrait" (some partner)

-- Two files with one id: the second is skipped, as is the invalid one between them.
abbrev files : List (Option ModeConfig)
files = some portrait_mode ∷ none ∷ some (record portrait_mode { model = "other" }) ∷ []

abbrev no_modes : ModeRegistry
no_modes = record { modes = []; models = dict end }

get-reload_example : Reloaded files no_modes (reload none (some files) no_modes)
get-reload_example = get-reload none files no_modes

get-portrait : get (reload none (some files) no_modes).1 "portrait" ≡ ok portrait_mode
unfolding get reload load_models load string_eq
get-portrait = refl

-- An image is the age of the one face on it.
abbrev camera : Detector
camera = record {
  Image = ℕ;
  is_blank = λ n. false;
  faces = λ n. inr (record { age = some (finite (pos n) 0) } ∷ []);
  rounded = λ a. "age";
  digits = λ n. "n";
}

abbrev fetch : String → Option ℕ
fetch u = if u == "adult" then some 40 else if u == "minor" then some 12 else none

abbrev urls : List (Option String)
urls = some "adult" ∷ none ∷ []

enforce_safety-ok_example : (enforce_safety camera settings fetch urls end ≡ ok tt) ↔ (
    All (λ i. IsCleared camera settings (camera.faces i)) (load_images camera settings fetch urls)
    × ((any is_url urls ≡ true) → load_images camera settings fetch urls ≢ []))
unfolding string_eq
enforce_safety-ok_example = enforce_safety-ok camera settings refl fetch refl urls end

enforce_safety_unloaded_example :
    enforce_safety camera settings fetch (some "lost" ∷ urls) end
    ≡ enforce_safety camera settings fetch urls end
unfolding string_eq load_images
enforce_safety_unloaded_example =
    enforce_safety_unloaded camera settings fetch "lost" urls end refl (λ h. cc)
