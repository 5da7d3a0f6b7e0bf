-- ===== src/Pricing.antt =====
-- app/services/pricing.py: the price of a generation. PyYAML is not modelled: `reload` takes what it
-- read. Python's `repr`, which only the messages use, is a parameter.
pub mod Precedence
use ai_generation_api.Prelude.{
  ℕ, ◌+◌, suc, String, ◌<>◌, Bool, true, false, Option, none, some, List, [], ◌∷◌, or_else, ◌==◌,
  string_eq, if◌then◌else◌,
}
use ai_generation_api.Prelude.Int.{ℤ, pos, leb_ℤ}
use ai_generation_api.Errors.{Error, raised, validation, other}
use ai_generation_api.Exec.{Result, ok, err, Exec}
use ai_generation_api.Models.{ApiKey}
use ai_generation_api.Value
use ai_generation_api.Value.{
  Value, null, bool, int, float, str, list, dict, Fields, end, field, finite, infinite, nan, trunc,
  int_of_text,
}

pub record PricingRegistry : Type 0 where
  pub defaults : Fields
  pub modes : Fields
  pub api_keys : List (String × Fields)

abbrev pub empty_registry : PricingRegistry
empty_registry = record { defaults = end; modes = end; api_keys = [] }

-- What reading config/pricing.yaml gave: no file, an exception, a root that is no dict, or the three
-- sections, each a dict or nothing. A registry whose sections have another shape is not modelled.
pub data PricingFile : Type 0 where
  missing invalid no_dict : PricingFile
  loaded : Option Fields → Option Fields → Option (List (String × Fields)) → PricingFile

abbrev pub size : Fields → ℕ
size end = 0
size (field _ _ f) = suc (size f)

-- `PricingRegistry.reload`: the number of prices; a root that is no dict raises at `data.get`, and the
-- registry stays.
unfoldable pub reload : PricingFile → Exec PricingRegistry ℕ
reload missing r = (ok 0, empty_registry)
reload invalid r = (ok 0, empty_registry)
reload no_dict r = (err (other "AttributeError"), r)
reload (loaded defaults modes api_keys) r =
    let new : PricingRegistry = record {
      defaults = or_else defaults end;
      modes = or_else modes end;
      api_keys = or_else api_keys [];
    } in
    (ok (size new.defaults + size new.modes), new)

-- `self._api_keys.get(id) or {}`
abbrev pub key_config : List (String × Fields) → String → Fields
key_config [] id = end
key_config ((k, f) ∷ rest) id = if k == id then f else key_config rest id

module _ (repr : Value → String) where
  abbrev invalid_price : String → Value → Error
  invalid_price mode value =
      raised validation ("invalid price for mode '" <> (mode <> ("': " <> repr value)))

  abbrev or_invalid : String → Value → Option ℤ → Result ℤ
  or_invalid mode value none = err (invalid_price mode value)
  or_invalid mode value (some z) = ok z

  -- `int(value)` in the `try` of `_as_int`: `TypeError` and `ValueError` become the application's
  -- error; the `OverflowError` of an infinite float passes.
  unfoldable pub to_int : String → Value → Result ℤ
  to_int mode (bool b) = ok (if b then pos 1 else pos 0)
  to_int mode (int z) = ok z
  to_int mode (float (finite m k)) = ok (trunc m k)
  to_int mode (float (infinite s)) =
      err (other "OverflowError: cannot convert float infinity to integer")
  to_int mode (float nan) = err (invalid_price mode (float nan))
  to_int mode (str s) = or_invalid mode (str s) (int_of_text s)
  to_int mode null = err (invalid_price mode null)
  to_int mode (list xs) = err (invalid_price mode (list xs))
  to_int mode (dict d) = err (invalid_price mode (dict d))

  abbrev positive : String → Result ℤ → Result ℤ
  positive mode (err e) = err e
  positive mode (ok price) =
      if leb_ℤ price (pos 0)
      then err (
          raised validation
            ("price for mode '" <> (mode <> ("' must be > 0, got " <> repr (int price)))))
      else ok price

  -- `_as_int`
  unfoldable pub as_int : Value → String → Result ℤ
  unfolding to_int
  as_int value mode = positive mode (to_int mode value)

  -- `if key in d: return _as_int(d[key], mode)`, and otherwise what follows.
  abbrev if_in : Option Value → String → Result ℤ → Result ℤ
  if_in none mode rest = rest
  if_in (some v) mode rest = as_int v mode

  -- Steps 5 to 7 of `price_for`.
  unfoldable pub common_price : PricingRegistry → String → String → Result ℤ
  common_price r task_type mode = if_in (Value.get r.modes mode) mode (
      if_in (Value.get r.defaults task_type) mode (
        err (
          raised validation
            ("no price configured for mode '" <> (mode <> ("' (" <> (task_type <> ")")))))))

  -- `PricingRegistry.price_for`
  unfoldable pub price_for : PricingRegistry → String → String → Option ApiKey → Result ℤ
  unfolding common_price
  price_for r task_type mode none = common_price r task_type mode
  price_for r task_type mode (some key) =
      let ov = key.price_overrides in
      let key_cfg = key_config r.api_keys key.id in
      if_in (Value.get ov mode) mode (
        if_in (Value.get ov task_type) mode (
          if_in (Value.get key_cfg mode) mode
            (if_in (Value.get key_cfg task_type) mode (common_price r task_type mode))))
