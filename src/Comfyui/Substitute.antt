-- ===== src/Comfyui/Substitute.antt =====
-- What the substitution makes of a JSON string in a workflow.
use ai_generation_api.Prelude.{
  ℕ, ◌-◌, ◌≤◌, ◌≡◌, ◌≢◌, refl, sym, ap, ◌∙◌, String, true, false, some, List, [], ◌∷◌, ◌++◌, length,
  length-append, All, All-append, take_while, drop_while, nat_eq, ==_ne, arith,
}
use mathlib.Core.List.{append_assoc}
use ai_generation_api.Value.{Value, Fields, null, dict}
use ai_generation_api.Json.{escape, escape_char, short_of}
use ai_generation_api.Json.Reader.{read_string, read_string-escape, IsScalar}
use ai_generation_api.Comfyui.Workflow.{
  Wide, is_key, matches_space, placeholder, sub, repl, walk, split_dots, str_of, shown,
}

-- A piece of a JSON string in a template: a character, or a placeholder with its key.
pub data Segment : Type 0 where
  literal : ℕ → Segment
  hole : List ℕ → Segment

abbrev pub written : Segment → List ℕ
written (literal c) = c ∷ []
written (hole key) = b'{' ∷ b'{' ∷ key ++ b'}' ∷ b'}' ∷ []

abbrev pub template : List Segment → List ℕ
template [] = []
template (g ∷ gs) = written g ++ template gs

module _ (wide : ℕ → Wide) where
  abbrev pub IsKey : ℕ → Type 0
  IsKey c = is_key wide c ≡ true

  key_apart : (c : ℕ) → IsKey c → matches_space wide c ≡ false
  unfolding is_key matches_space
  key_apart c h = ground arith

  key_brace : is_key wide b'}' ≡ false
  unfolding is_key nat_eq
  key_brace = refl

  space_brace : matches_space wide b'}' ≡ false
  unfolding matches_space nat_eq
  space_brace = refl

  take_key : (key s : List ℕ) → All IsKey key → take_while (is_key wide) (key ++ b'}' ∷ s) ≡ key
  take_key [] s h = rw key_brace
  take_key (c ∷ key) s (hc, h) = rw hc (ap (λ r. c ∷ r) (take_key key s h))

  drop_key :
      (key s : List ℕ) → All IsKey key → drop_while (is_key wide) (key ++ b'}' ∷ s) ≡ b'}' ∷ s
  drop_key [] s h = rw key_brace
  drop_key (c ∷ key) s (hc, h) = rw hc (drop_key key s h)

  placeholder_lem :
      (c : ℕ) (key s : List ℕ)
      → All IsKey (c ∷ key)
      → placeholder wide (b'{' ∷ b'{' ∷ (c ∷ key) ++ b'}' ∷ b'}' ∷ s) ≡ some (c ∷ key, s)
  unfolding placeholder nat_eq
  placeholder_lem c key s (hc, h) =
      rw (key_apart c hc, hc, take_key key (b'}' ∷ s) h, drop_key key (b'}' ∷ s) h, space_brace)

  module _ (f : List ℕ → List ℕ) where
    abbrev run : List ℕ → List ℕ
    run = sub wide f 0

    sub_skip : (xs s : List ℕ) → sub wide f (length xs) (xs ++ s) ≡ run s
    unfolding sub
    sub_skip [] s = refl
    sub_skip (x ∷ xs) s = sub_skip xs s

    sub_literal : (c : ℕ) (s : List ℕ) → c ≢ b'{' → run (c ∷ s) ≡ c ∷ run s
    unfolding sub placeholder
    sub_literal c s h = rw (==_ne c b'{' h)

    sub_hole :
        (c : ℕ) (key s : List ℕ)
        → All IsKey (c ∷ key)
        → run (b'{' ∷ b'{' ∷ (c ∷ key) ++ b'}' ∷ b'}' ∷ s) ≡ f (c ∷ key) ++ run s
    unfolding sub
    sub_hole c key s h =
        let tail = b'{' ∷ (c ∷ key) ++ b'}' ∷ b'}' ∷ [] in
        let whole : b'{' ∷ (c ∷ key) ++ b'}' ∷ b'}' ∷ s ≡ tail ++ s =
          ap (λ r. b'{' ∷ c ∷ r) (sym (append_assoc key (b'}' ∷ b'}' ∷ []) s)) in
        let n : length (b'{' ∷ (c ∷ key) ++ b'}' ∷ b'}' ∷ s) - length s ≡ length tail =
          ap (λ r. length r - length s) whole ∙ omega (arith, length-append tail s) in
        let inner = key ++ b'}' ∷ b'}' ∷ [] in
        rw (placeholder_lem c key s h, n)
          (ap (λ r. f (c ∷ key) ++ r)
            (ap (sub wide f (length inner)) (sym (append_assoc key (b'}' ∷ b'}' ∷ []) s))
              ∙ sub_skip inner s))

escape-append : (xs ys : List ℕ) → escape (xs ++ ys) ≡ escape xs ++ escape ys
unfolding escape
escape-append [] ys = refl
escape-append (x ∷ xs) ys =
    ap (λ r. escape_char x ++ r) (escape-append xs ys)
    ∙ sym (append_assoc (escape_char x) (escape xs) (escape ys))

-- A character that a JSON string holds as it is, and that opens no placeholder.
abbrev pub IsOrdinary : ℕ → Type 0
IsOrdinary c = (32 ≤ c) × (c ≤ 126) × (c ≢ 34) × (c ≢ b'\\') × (c ≢ b'{')

escape-ordinary : (c : ℕ) → IsOrdinary c → escape (c ∷ []) ≡ c ∷ []
unfolding escape escape_char short_of
escape-ordinary c h = ground arith

module _ (wide : ℕ → Wide) (repr : Value → String) (ctx : Fields) where
  abbrev pub text_of : Value → List ℕ
  text_of null = []
  text_of v = str_of repr v

  -- The text that a key stands for: of its value in the context, empty for `None`.
  abbrev pub value_at : List ℕ → List ℕ
  value_at key = text_of (walk (dict ctx) (split_dots key))

  abbrev pub meaning : List Segment → List ℕ
  meaning [] = []
  meaning (literal c ∷ gs) = c ∷ meaning gs
  meaning (hole key ∷ gs) = value_at key ++ meaning gs

  abbrev pub Fits : Segment → Type 0
  Fits (literal c) = IsOrdinary c
  Fits (hole []) = ⊥
  Fits (hole (c ∷ key)) = All (IsKey wide) (c ∷ key) × All IsScalar (value_at (c ∷ key))

  shown_lem : (v : Value) → shown repr v ≡ escape (text_of v)
  unfolding escape
  shown_lem null = refl
  shown_lem (Value.bool b) = refl
  shown_lem (Value.int z) = refl
  shown_lem (Value.float x) = refl
  shown_lem (Value.str s) = refl
  shown_lem (Value.list xs) = refl
  shown_lem (Value.dict d) = refl

  repl_lem : (key : List ℕ) → repl repr ctx key ≡ escape (value_at key)
  unfolding repl
  repl_lem key = shown_lem (walk (dict ctx) (split_dots key))

  substituted : List ℕ → List ℕ
  substituted s = sub wide (repl repr ctx) 0 s

  closing : (rest : List ℕ) → substituted (34 ∷ rest) ≡ escape [] ++ 34 ∷ substituted rest
  unfolding substituted escape
  closing rest = sub_literal wide (repl repr ctx) 34 rest (omega arith)

  sub-template :
      (gs : List Segment) (rest : List ℕ)
      → All Fits gs
      → substituted (template gs ++ 34 ∷ rest) ≡ escape (meaning gs) ++ 34 ∷ substituted rest
  unfolding substituted
  sub-template [] rest h = closing rest
  sub-template (literal c ∷ gs) rest (fits, h) =
      sub_literal wide (repl repr ctx) c (template gs ++ 34 ∷ rest) fits.4
      ∙ rw (sub-template gs rest h, escape-append (c ∷ []) (meaning gs), escape-ordinary c fits)
          refl
  sub-template (hole [] ∷ gs) rest (fits, h) = absurd fits
  sub-template (hole (c ∷ key) ∷ gs) rest ((named, scalars), h) =
      let braces = b'}' ∷ b'}' ∷ [] in
      let later = template gs ++ 34 ∷ rest in
      let value = value_at (c ∷ key) in
      ap (λ r. substituted (b'{' ∷ b'{' ∷ c ∷ r))
        (append_assoc (key ++ braces) (template gs) (34 ∷ rest) ∙ append_assoc key braces later)
      ∙ sub_hole wide (repl repr ctx) c key later named
      ∙ rw (repl_lem (c ∷ key), sub-template gs rest h, escape-append value (meaning gs))
          (sym (append_assoc (escape value) (escape (meaning gs)) (34 ∷ substituted rest)))

  meaning-IsScalar : (gs : List Segment) → All Fits gs → All IsScalar (meaning gs)
  meaning-IsScalar [] h = tt
  meaning-IsScalar (literal c ∷ gs) (fits, h) = (ground arith, meaning-IsScalar gs h)
  meaning-IsScalar (hole [] ∷ gs) (fits, h) = absurd fits
  meaning-IsScalar (hole (c ∷ key) ∷ gs) ((named, scalars), h) =
      All-append IsScalar (value_at (c ∷ key)) (meaning gs) scalars (meaning-IsScalar gs h)

  -- A JSON string in a template of printable ASCII characters (no quote, no backslash, no opening
  -- brace) and of placeholders with a key whose value's text has no surrogate. Where the string
  -- has been substituted, a reader of JSON strings gives the characters with the values' texts in
  -- the place of the placeholders, up to the template's own quote; the rest is substituted by
  -- itself.
  pub read_string-substituted :
      (gs : List Segment) (rest : List ℕ)
      → All Fits gs
      → read_string (sub wide (repl repr ctx) 0 (template gs ++ 34 ∷ rest))
        ≡ some (meaning gs, sub wide (repl repr ctx) 0 rest)
  unfolding substituted
  read_string-substituted gs rest h =
      rw (sub-template gs rest h)
        (read_string-escape (meaning gs) (substituted rest) (meaning-IsScalar gs h))
