-- ===== src/Comfyui/Workflow.antt =====
-- app/providers/comfyui.py: `_PLACEHOLDER`, `_load_workflow`. Texts are code points; `repr` is
-- Python's, `loads` is `json.loads`, and `wide` tells the letters beyond ASCII from the spaces there.
use ai_generation_api.Prelude.{
  ℕ, zero, suc, ◌-◌, String, ◌<>◌, Bool, true, false, ◌&&◌, ◌||◌, Option, none, some, List, [], ◌∷◌,
  ◌++◌, length, codes, take_while, drop_while, ltb, leb, if◌then◌else◌, ◌==◌, nat_eq, ◌⊎◌, inl, inr,
}
use ai_generation_api.Errors.{raised, provider}
use ai_generation_api.Exec.{Result, ok, err}
use ai_generation_api.Value.{Value, Fields, null, str, dict, end, field}
use ai_generation_api.Json.{escape}

-- `\w` and `\s` beyond ASCII.
pub data Wide : Type 0 where
  letter space neither : Wide

abbrev is_letter : Wide → Bool
is_letter letter = true
is_letter _ = false

abbrev is_blank : Wide → Bool
is_blank space = true
is_blank _ = false

abbrev pub ascii_word : ℕ → Bool
ascii_word c =
    (leb b'0' c && leb c b'9')
    || (leb b'a' c && leb c b'z')
    || (leb b'A' c && leb c b'Z')
    || c == b'_'

abbrev pub ascii_space : ℕ → Bool
ascii_space c = c == 32 || (leb 9 c && leb c 13) || (leb 28 c && leb c 31)

module _ (wide : ℕ → Wide) where
  -- `[\w.]` and `\s`
  unfoldable pub is_key : ℕ → Bool
  is_key c = if ltb c 128 then ascii_word c || c == b'.' else is_letter (wide c)

  unfoldable pub matches_space : ℕ → Bool
  matches_space c = if ltb c 128 then ascii_space c else is_blank (wide c)

abbrev pub expect : ℕ → List ℕ → Option (List ℕ)
expect c [] = none
expect c (x ∷ xs) = if x == c then some xs else none

abbrev pub expect_both : ℕ → Option (List ℕ) → Option (List ℕ)
expect_both c none = none
expect_both c (some s) = expect c s

-- The key, where it is not empty and the closing braces follow.
abbrev pub keyed : List ℕ → Option (List ℕ) → Option (List ℕ × List ℕ)
keyed key none = none
keyed [] (some rest) = none
keyed (c ∷ key) (some rest) = some (c ∷ key, rest)

module _ (wide : ℕ → Wide) where
  abbrev pub after_braces : Option (List ℕ) → Option (List ℕ × List ℕ)
  after_braces none = none
  after_braces (some s) =
      let start = drop_while (matches_space wide) s in
      let close = drop_while (matches_space wide) (drop_while (is_key wide) start) in
      keyed (take_while (is_key wide) start) (expect_both b'}' (expect b'}' close))

  -- A match of `_PLACEHOLDER` at the start of a text: its key, and what follows it. No class of the
  -- pattern meets the next one, so that the greedy match is the only one.
  unfoldable pub placeholder : List ℕ → Option (List ℕ × List ℕ)
  placeholder s = after_braces (expect_both b'{' (expect b'{' s))

  module _ (repl : List ℕ → List ℕ) where
    abbrev pub replaced : ℕ → List ℕ → Option (List ℕ × List ℕ) → (ℕ → List ℕ) → List ℕ
    replaced c s none go = c ∷ go 0
    replaced c s (some (key, rest)) go = repl key ++ go (length s - length rest)

    -- `_PLACEHOLDER.sub(repl, raw)`, where so many more characters belong to the last match.
    unfoldable pub sub : ℕ → List ℕ → List ℕ
    sub skip [] = []
    sub (suc skip) (c ∷ s) = sub skip s
    sub zero (c ∷ s) = replaced c s (placeholder (c ∷ s)) (λ n. sub n s)

abbrev pub same : List ℕ → List ℕ → Bool
same [] [] = true
same (x ∷ xs) (y ∷ ys) = x == y && same xs ys
same _ _ = false

-- `val.get(part)`
abbrev pub get_part : List ℕ → Fields → Value
get_part part end = null
get_part part (field k v d) = let rest = get_part part d in if same (codes k) part then v else rest

abbrev pub parts_of : List ℕ → List ℕ × List (List ℕ)
parts_of [] = ([], [])
parts_of (c ∷ s) =
    let (part, parts) = parts_of s in if c == b'.' then ([], part ∷ parts) else (c ∷ part, parts)

-- `key.split(".")`
abbrev pub split_dots : List ℕ → List (List ℕ)
split_dots s = let (part, parts) = parts_of s in part ∷ parts

-- The loop over the parts.
abbrev pub walk : Value → List (List ℕ) → Value
walk v [] = v
walk (dict d) (part ∷ parts) = walk (get_part part d) parts
walk _ (part ∷ parts) = null

module _ (repr : Value → String) where
  -- `str(val)`
  abbrev pub str_of : Value → List ℕ
  str_of (str s) = codes s
  str_of v = codes (repr v)

  abbrev pub shown : Value → List ℕ
  shown null = []
  shown v = escape (str_of v)

  -- `repl`, for the key of a match.
  unfoldable pub repl : Fields → List ℕ → List ℕ
  repl ctx key = shown (walk (dict ctx) (split_dots key))

-- The directory of the workflows: the path of a name, and the text there, if there is a file.
pub record Workflows : Type 0 where
  pub path : String → String
  pub read_text : String → Option (Result (List ℕ))
  pub loads : List ℕ → String ⊎ Value

module _ (wide : ℕ → Wide) (repr : Value → String) (files : Workflows) where
  abbrev pub parsed : String → String ⊎ Value → Result Value
  parsed name (inr v) = ok v
  parsed name (inl e) = err (
      raised provider ("workflow '" <> (name <> ("' is not valid JSON after substitution: " <> e))))

  abbrev pub filled : String → Fields → Option (Result (List ℕ)) → Result Value
  filled name ctx none =
      err (raised provider ("workflow '" <> (name <> ("' not found at " <> files.path name))))
  filled name ctx (some (err e)) = err e
  filled name ctx (some (ok raw)) = parsed name (files.loads (sub wide (repl repr ctx) 0 raw))

  -- `_load_workflow`
  unfoldable pub load_workflow : String → Fields → Result Value
  unfolding sub repl
  load_workflow name ctx = filled name ctx (files.read_text name)
