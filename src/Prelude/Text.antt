-- ===== src/Prelude/Text.antt =====
-- Text as code points.
use Prim.Native.Nat.{ℕ}
use Prim.Native.Char.{code}
use Prim.Native.String.{String}
use mathlib.Core.Bool.{Bool}
use mathlib.Core.List.{List, [], ◌∷◌}
use ai_generation_api.Prelude.Tests.{if◌then◌else◌}

abbrev pub codes : String → List ℕ
codes String.[] = []
codes (String.◌∷◌ c s) = code c ∷ codes s

module _ {ℓ} {A : Type ℓ} (p : A → Bool) where
  abbrev pub take_while : List A → List A
  take_while [] = []
  take_while (x ∷ xs) = let rest = take_while xs in if p x then x ∷ rest else []

  abbrev pub drop_while : List A → List A
  drop_while [] = []
  drop_while (x ∷ xs) = let rest = drop_while xs in if p x then rest else x ∷ xs
