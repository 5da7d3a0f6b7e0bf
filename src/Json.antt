-- ===== src/Json.antt =====
-- `json.dumps(text)[1:-1]`, as app/providers/comfyui.py puts values into a workflow: what stands
-- between the quotes of a JSON string, in ASCII.
pub mod Reader
use ai_generation_api.Prelude.{
  ℕ, ◌+◌, ◌-◌, ◌/◌, ◌%◌, ◌&&◌, Option, none, some, List, [], ◌∷◌, ◌++◌, ltb, leb, if◌then◌else◌,
  ◌==◌, nat_eq,
}

-- A digit of `{:04x}`.
unfoldable pub hex_digit : ℕ → ℕ
hex_digit n = if ltb n 10 then b'0' + n else 87 + n

abbrev pub hex_escape : ℕ → List ℕ
hex_escape n =
    b'\\'
    ∷ b'u'
    ∷ hex_digit (n / 4096 % 16)
    ∷ hex_digit (n / 256 % 16)
    ∷ hex_digit (n / 16 % 16)
    ∷ hex_digit (n % 16)
    ∷ []

-- A code point above 65535 is written as two surrogates.
abbrev pub surrogates : ℕ → List ℕ
surrogates n = hex_escape (0xd800 + n / 1024) ++ hex_escape (0xdc00 + n % 1024)

abbrev pub short : ℕ → List ℕ
short c = b'\\' ∷ c ∷ []

-- The characters with an escape of their own, and what stands behind the backslash.
unfoldable pub short_of : ℕ → Option ℕ
short_of c =
    if c == 34
    then some 34
    else if c == 92
    then some 92
    else if c == 10
    then some b'n'
    else if c == 13
    then some b'r'
    else if c == 9
    then some b't'
    else if c == 12
    then some b'f'
    else if c == 8
    then some b'b'
    else none

abbrev pub long : ℕ → List ℕ
long c =
    if leb 32 c && leb c 126
    then c ∷ []
    else if ltb c 65536
    then hex_escape c
    else surrogates (c - 65536)

abbrev pub short_or_long : ℕ → Option ℕ → List ℕ
short_or_long c (some x) = short x
short_or_long c none = long c

unfoldable pub escape_char : ℕ → List ℕ
escape_char c = short_or_long c (short_of c)

unfoldable pub escape : List ℕ → List ℕ
escape [] = []
escape (c ∷ cs) = escape_char c ++ escape cs
