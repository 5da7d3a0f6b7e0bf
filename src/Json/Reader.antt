-- ===== src/Json/Reader.antt =====
-- A reader of JSON strings by RFC 8259, and what it makes of escaped text.
use ai_generation_api.Prelude.{
  ℕ, zero, suc, ◌+◌, ◌*◌, ◌-◌, ◌/◌, ◌%◌, ◌≤◌, ◌<◌, ◌≡◌, refl, ap, ◌∙◌, ◌⊎◌, inl, inr, Bool, true,
  false, ◌&&◌, Option, none, some, List, [], ◌∷◌, ◌++◌, All, ltb, leb, if◌then◌else◌, ◌==◌, nat_eq,
  Bool-cases, Option-cases, arith,
}
use mathlib.Core.List.{append_assoc}
use ai_generation_api.Json.{
  escape, escape_char, short_of, long, hex_digit, hex_escape, surrogates, short,
}

pub hex_value : ℕ → Option ℕ
hex_value c =
    if leb b'0' c && leb c b'9'
    then some (c - b'0')
    else if leb b'a' c && leb c b'f'
    then some (c - 87)
    else if leb b'A' c && leb c b'F'
    then some (c - 55)
    else none

-- What a backslash and a character stand for, but for `u`.
pub named_escape : ℕ → Option ℕ
named_escape c =
    if c == 34
    then some 34
    else if c == 92
    then some 92
    else if c == b'/'
    then some b'/'
    else if c == b'n'
    then some 10
    else if c == b'r'
    then some 13
    else if c == b't'
    then some 9
    else if c == b'f'
    then some 12
    else if c == b'b'
    then some 8
    else none

-- Between characters, after a backslash, or in `\u` with so many more digits to come.
pub data Phase : Type 0 where
  plain escaped : Phase
  hex : ℕ → ℕ → Phase

abbrev pub emit : ℕ → Option (List ℕ × List ℕ) → Option (List ℕ × List ℕ)
emit u none = none
emit u (some (us, rest)) = some (u ∷ us, rest)

-- What follows a code unit, where there is one.
abbrev pub emit_or_fail : Option ℕ → Option (List ℕ × List ℕ) → Option (List ℕ × List ℕ)
emit_or_fail none r = none
emit_or_fail (some u) r = emit u r

abbrev pub hex_next : ℕ → ℕ → Option ℕ → Phase
hex_next left acc none = plain
hex_next left acc (some d) = hex left (acc * 16 + d)

-- The code units up to the closing quote, and what is left behind it.
units : Phase → List ℕ → Option (List ℕ × List ℕ)
units phase [] = none
units plain (c ∷ cs) =
    let escape = units escaped cs in
    let copied = emit c (units plain cs) in
    if c == 34 then some ([], cs) else if c == 92 then escape else if ltb c 32 then none else copied
units escaped (c ∷ cs) =
    let digits = units (hex 3 0) cs in
    let one = emit_or_fail (named_escape c) (units plain cs) in if c == b'u' then digits else one
units (hex zero acc) (c ∷ cs) = elim (hex_value c) [
  | none ↦ none
  | some d ↦ emit (acc * 16 + d) (units plain cs)
]
units (hex (suc left) acc) (c ∷ cs) = elim (hex_value c) [
  | none ↦ none
  | some d ↦ units (hex left (acc * 16 + d)) cs
]

abbrev is_high : ℕ → Bool
is_high u = leb 0xd800 u && ltb u 0xdc00

abbrev is_low : ℕ → Bool
is_low u = leb 0xdc00 u && ltb u 0xe000

-- A pair of surrogates is one code point.
join : List ℕ → List ℕ
join [] = []
join (u ∷ []) = u ∷ []
join (u ∷ v ∷ us) =
    let pair = (65536 + (u - 0xd800) * 1024 + (v - 0xdc00)) ∷ join us in
    let single = u ∷ join (v ∷ us) in if is_high u && is_low v then pair else single

abbrev joined : Option (List ℕ × List ℕ) → Option (List ℕ × List ℕ)
joined none = none
joined (some (us, rest)) = some (join us, rest)

-- A JSON string from behind its opening quote on: its text, and what follows the closing quote.
pub read_string : List ℕ → Option (List ℕ × List ℕ)
unfolding units join hex_value named_escape
read_string cs = joined (units plain cs)

-- A code point that is no surrogate.
abbrev pub IsScalar : ℕ → Type 0
IsScalar c = (c < 0xd800) ⊎ ((0xe000 ≤ c) × (c < 0x110000))

abbrev units_of : ℕ → List ℕ
units_of c =
    if ltb c 65536
    then c ∷ []
    else (0xd800 + (c - 65536) / 1024) ∷ (0xdc00 + (c - 65536) % 1024) ∷ []

abbrev all_units : List ℕ → List ℕ
all_units [] = []
all_units (c ∷ cs) = units_of c ++ all_units cs

hex_value-hex_digit : (n : ℕ) → n < 16 → hex_value (hex_digit n) ≡ some n
unfolding hex_value hex_digit
hex_value-hex_digit n h = ground arith

units_digit :
    (left acc n : ℕ) (cs : List ℕ)
    → n < 16
    → units (hex (suc left) acc) (hex_digit n ∷ cs) ≡ units (hex left (acc * 16 + n)) cs
unfolding units
units_digit left acc n cs h = rw (units, hex_value-hex_digit n h)

units_last :
    (acc n : ℕ) (cs : List ℕ)
    → n < 16
    → units (hex zero acc) (hex_digit n ∷ cs) ≡ emit (acc * 16 + n) (units plain cs)
unfolding units
units_last acc n cs h = rw (units, hex_value-hex_digit n h)

abbrev digits_of : ℕ → List ℕ
digits_of c =
    hex_digit (c / 4096 % 16)
    ∷ hex_digit (c / 256 % 16)
    ∷ hex_digit (c / 16 % 16)
    ∷ hex_digit (c % 16)
    ∷ []

hex_opened :
    (c : ℕ) (cs : List ℕ) → units plain (hex_escape c ++ cs) ≡ units (hex 3 0) (digits_of c ++ cs)
unfolding units nat_eq
hex_opened c cs = refl

units-hex_escape :
    (c : ℕ) (cs : List ℕ) → c < 65536 → units plain (hex_escape c ++ cs) ≡ emit c (units plain cs)
units-hex_escape c cs h =
    let value : (((0 * 16 + c / 4096 % 16) * 16 + c / 256 % 16) * 16 + c / 16 % 16) * 16 + c % 16
        ≡ c =
      omega arith in
    let start : units plain (hex_escape c ++ cs) ≡ units (hex 3 0) (digits_of c ++ cs) =
      hex_opened c cs in
    let d = 0 * 16 + c / 4096 % 16 in
    start
    ∙ units_digit 2 0 (c / 4096 % 16)
        (hex_digit (c / 256 % 16) ∷ hex_digit (c / 16 % 16) ∷ hex_digit (c % 16) ∷ cs) (omega arith)
    ∙ units_digit 1 d (c / 256 % 16) (hex_digit (c / 16 % 16) ∷ hex_digit (c % 16) ∷ cs)
        (omega arith)
    ∙ units_digit 0 (d * 16 + c / 256 % 16) (c / 16 % 16) (hex_digit (c % 16) ∷ cs) (omega arith)
    ∙ units_last ((d * 16 + c / 256 % 16) * 16 + c / 16 % 16) (c % 16) cs (omega arith)
    ∙ ap (λ n. emit n (units plain cs)) value

units-short :
    (c u : ℕ) (cs : List ℕ)
    → (c == b'u') ≡ false
    → named_escape c ≡ some u
    → units plain (short c ++ cs) ≡ emit u (units plain cs)
unfolding units nat_eq
units-short c u cs other h = rw (other, h)

emit_all : List ℕ → Option (List ℕ × List ℕ) → Option (List ℕ × List ℕ)
emit_all [] r = r
emit_all (u ∷ us) r = emit u (emit_all us r)

module _ (c : ℕ) (cs : List ℕ) where
  -- The rest of the tests, one at a time.
  units-printable :
      (c == 34) ≡ false
      → (c == 92) ≡ false
      → ltb c 32 ≡ false
      → units plain (c ∷ cs) ≡ emit c (units plain cs)
  unfolding units
  units-printable a b d = rw (a, b, d)

  units-surrogates :
      65536 ≤ c
      → c < 0x110000
      → units plain (surrogates (c - 65536) ++ cs)
        ≡ emit (0xd800 + (c - 65536) / 1024) (emit (0xdc00 + (c - 65536) % 1024) (units plain cs))
  units-surrogates big h =
      let high = 0xd800 + (c - 65536) / 1024 in
      let low = 0xdc00 + (c - 65536) % 1024 in
      units-hex_escape high (hex_escape low ++ cs) (omega arith)
      ∙ ap (emit high) (units-hex_escape low cs (omega arith))

  units-long :
      short_of c ≡ none
      → c < 0x110000
      → units plain (long c ++ cs) ≡ emit_all (units_of c) (units plain cs)
  unfolding short_of emit_all
  units-long e h = elim (Bool-cases (leb 32 c && leb c 126)) [
    | inl ascii ↦
        let small : ltb c 65536 ≡ true = ground arith in
        rw (ascii, small) (units-printable (ground arith) (ground arith) (ground arith))
    | inr other ↦ elim (Bool-cases (ltb c 65536)) [
      | inl small ↦ rw (other, small) (units-hex_escape c cs (ground arith))
      | inr large ↦ rw (other, large) (units-surrogates (ground arith) h)
    ]
  ]

  short_of-some :
      (x : ℕ)
      → short_of c ≡ some x
      → ((x == b'u') ≡ false) × (named_escape x ≡ some c) × (ltb c 65536 ≡ true)
  unfolding short_of named_escape nat_eq
  short_of-some x e = (ground arith, ground arith, ground arith)

units-escape_char :
    (c : ℕ) (cs : List ℕ)
    → c < 0x110000
    → units plain (escape_char c ++ cs) ≡ emit_all (units_of c) (units plain cs)
unfolding escape_char emit_all
units-escape_char c cs h = elim (Option-cases (short_of c)) [
  | inl e ↦ rw e (units-long c cs e h)
  | inr (x, e) ↦
      let (other, back, small) = short_of-some c cs x e in
      rw (e, small) (units-short x c cs other back)
]

closing : (rest : List ℕ) → units plain (34 ∷ rest) ≡ some ([], rest)
unfolding units nat_eq
closing rest = refl

emit_all-some : (us vs rest : List ℕ) → emit_all us (some (vs, rest)) ≡ some (us ++ vs, rest)
unfolding emit_all
emit_all-some [] vs rest = refl
emit_all-some (u ∷ us) vs rest = rw (emit_all-some us vs rest)

IsScalar-lt : (c : ℕ) → IsScalar c → c < 0x110000
IsScalar-lt c h = ground arith

units-escape :
    (s rest : List ℕ)
    → All IsScalar s
    → units plain (escape s ++ 34 ∷ rest) ≡ some (all_units s, rest)
unfolding escape
units-escape [] rest h = closing rest
units-escape (c ∷ s) rest (scalar, h) =
    rw
      (
        append_assoc (escape_char c) (escape s) (34 ∷ rest),
        units-escape_char c (escape s ++ 34 ∷ rest) (IsScalar-lt c scalar),
        units-escape s rest h,
      )
      (emit_all-some (units_of c) (all_units s) rest)

join_single : (u : ℕ) (us : List ℕ) → is_high u ≡ false → join (u ∷ us) ≡ u ∷ join us
unfolding join
join_single u [] h = refl
join_single u (v ∷ us) h = rw h

join_pair :
    (u v : ℕ) (us : List ℕ)
    → is_high u ≡ true
    → is_low v ≡ true
    → join (u ∷ v ∷ us) ≡ (65536 + (u - 0xd800) * 1024 + (v - 0xdc00)) ∷ join us
unfolding join
join_pair u v us h k = rw (h, k)

join-units_of : (c : ℕ) (us : List ℕ) → IsScalar c → join (units_of c ++ us) ≡ c ∷ join us
join-units_of c us h = elim (Bool-cases (ltb c 65536)) [
  | inl small ↦ rw small (join_single c us (ground arith))
  | inr large ↦
      let high = 0xd800 + (c - 65536) / 1024 in
      let low = 0xdc00 + (c - 65536) % 1024 in
      let whole : 65536 + (high - 0xd800) * 1024 + (low - 0xdc00) ≡ c = ground arith in
      rw large (join_pair high low us (ground arith) (ground arith) ∙ ap (λ n. n ∷ join us) whole)
]

join-all_units : (s : List ℕ) → All IsScalar s → join (all_units s) ≡ s
unfolding join
join-all_units [] h = refl
join-all_units (c ∷ s) (scalar, h) =
    join-units_of c (all_units s) scalar ∙ ap (λ r. c ∷ r) (join-all_units s h)

pub read_string-escape :
    (s rest : List ℕ) → All IsScalar s → read_string (escape s ++ 34 ∷ rest) ≡ some (s, rest)
unfolding read_string
read_string-escape s rest h =
    rw (units-escape s rest h) (ap (λ r. some (r, rest)) (join-all_units s h))
