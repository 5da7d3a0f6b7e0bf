-- ===== src/Value.antt =====
-- Values of Python's dynamic types, as YAML, JSON columns and request bodies hold them.
mod Number
pub use Number.{Float, finite, infinite, nan, trunc, ltb_float, int_of_text}
use ai_generation_api.Prelude.{
  ℕ, ◌/◌, ◌^◌, String, Bool, true, false, not, Option, none, some, ◌==◌, string_eq, nat_eq,
  if◌then◌else◌,
}
use ai_generation_api.Prelude.Int.{ℤ, pos, negsuc}

mutual
  pub data Value : Type 0 where
    null : Value
    bool : Bool → Value
    int : ℤ → Value
    float : Float → Value
    str : String → Value
    list : Items → Value
    dict : Fields → Value

  pub data Items : Type 0 where
    nil : Items
    cons : Value → Items → Items

  -- A dict with string keys, in insertion order.
  pub data Fields : Type 0 where
    end : Fields
    field : String → Value → Fields → Fields

-- `d.get(key)`, with `none` for a missing key; `key in d` is that it is not `none`.
unfoldable pub get : Fields → String → Option Value
get end k = none
get (field j v d) k = if j == k then some v else get d k

abbrev is_zero : ℤ → Bool
is_zero (pos n) = n == 0
is_zero (negsuc _) = false

abbrev is_zero_float : Float → Bool
is_zero_float (finite m _) = is_zero m
is_zero_float _ = false

-- Python's truth of a value.
unfoldable pub truthy : Value → Bool
truthy null = false
truthy (bool b) = b
truthy (int z) = not (is_zero z)
truthy (float x) = not (is_zero_float x)
truthy (str s) = not (s == "")
truthy (list nil) = false
truthy (list _) = true
truthy (dict end) = false
truthy (dict _) = true
