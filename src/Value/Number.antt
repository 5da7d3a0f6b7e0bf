-- ===== src/Value/Number.antt =====
-- Python's floats as far as the code reads them, and `int(text)`.
use ai_generation_api.Prelude.{
  ℕ, zero, suc, ◌+◌, ◌*◌, ◌-◌, ◌/◌, ◌^◌, String, Bool, true, false, ◌&&◌, ◌||◌, Option, none, some,
  List, [], ◌∷◌, leb, if◌then◌else◌, ◌==◌, nat_eq, codes,
}
use ai_generation_api.Prelude.Int.{ℤ, pos, negsuc, ltb_ℤ}

-- A finite float is exactly `m / 2 ^ k`; `infinite true` is +∞.
pub data Float : Type 0 where
  finite : ℤ → ℕ → Float
  infinite : Bool → Float
  nan : Float

abbrev pub negate : ℕ → ℤ
negate zero = pos 0
negate (suc n) = negsuc n

-- Truncation towards zero.
abbrev pub trunc : ℤ → ℕ → ℤ
trunc (pos m) k = pos (m / 2 ^ k)
trunc (negsuc m) k = negate (suc m / 2 ^ k)

abbrev scale : ℕ → ℕ → ℤ
scale n k = pos (n * 2 ^ k)

-- `x < n` for a whole number `n`; every comparison with nan is false.
abbrev pub ltb_float : Float → ℕ → Bool
ltb_float (finite m k) n = ltb_ℤ m (scale n k)
ltb_float (infinite positive) n = if positive then false else true
ltb_float nan n = false

abbrev is_space : ℕ → Bool
is_space c = c == 32 || (leb 9 c && leb c 13)

abbrev is_digit : ℕ → Bool
is_digit c = leb b'0' c && leb c b'9'

abbrev skip_spaces : List ℕ → List ℕ
skip_spaces [] = []
skip_spaces (c ∷ cs) = let rest = skip_spaces cs in if is_space c then rest else c ∷ cs

abbrev only_spaces : List ℕ → Bool
only_spaces [] = true
only_spaces (c ∷ cs) = is_space c && only_spaces cs

-- The digits after the first; an underscore stands between two digits, and spaces may follow.
abbrev more_digits : ℕ → Bool → List ℕ → Option ℕ
more_digits acc under [] = if under then none else some acc
more_digits acc under (c ∷ cs) =
    let digit = more_digits (acc * 10 + (c - b'0')) false cs in
    let underscore = more_digits acc true cs in
    if is_digit c
    then digit
    else if c == b'_' && (if under then false else true)
    then underscore
    else if under
    then none
    else if only_spaces (c ∷ cs)
    then some acc
    else none

abbrev digits : List ℕ → Option ℕ
digits [] = none
digits (c ∷ cs) = if is_digit c then more_digits (c - b'0') false cs else none

abbrev signed : (ℕ → ℤ) → Option ℕ → Option ℤ
signed f none = none
signed f (some n) = some (f n)

abbrev sign : List ℕ → Option ℤ
sign [] = none
sign (c ∷ cs) =
    if c == b'-'
    then signed negate (digits cs)
    else if c == b'+'
    then signed pos (digits cs)
    else signed pos (digits (c ∷ cs))

-- `int(text)` on ASCII text; `none` is its `ValueError`.
unfoldable pub int_of_text : String → Option ℤ
int_of_text s = sign (skip_spaces (codes s))
