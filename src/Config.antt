-- ===== src/Config.antt =====
-- python/metal_native/config.py: the configuration sections, their dictionaries, the environment
-- and the global instance. Texts are ASCII. Floats, and `float` of a text, are a parameter, and so
-- is what Python does with an attribute of a section object that is no field of its dataclass.
pub mod Files
pub mod Number
pub mod Defaults
pub mod Env
pub mod Kinds
pub mod KernelCache
pub mod Assign
pub mod Dicts
pub mod Global
mod Tests
use metal_native.Base.{
  Bool, true, false, Option, none, some, List, [], ◌∷◌, map, if◌then◌else◌, ◌&&◌,
}
use metal_native.Base.Dict.{Dict, lookup, has_key}
use metal_native.Base.Exec.{Result, ok, err, type_error, value_error}
use metal_native.Base.Int.{ℤ}
use metal_native.Base.Text.{Text, text_eq}

-- The values that configurations hold.
pub data Value (F : Type 0) : Type 0 where
  int : ℤ → Value F
  float : F → Value F
  bool : Bool → Value F
  str : Text → Value F
  none_value : Value F
  ints : List ℤ → Value F

-- A dataclass object by its fields, in the order of their declaration.
abbrev pub Section : Type 0 → Type 0
Section F = Dict Text (Value F)

pub record Config (F : Type 0) : Type 0 where
  pub allocator : Section F
  pub backpressure : Section F
  pub dispatch : Section F
  pub kernel_cache : Section F
  pub profiling : Section F

-- A value of the dictionary given to `from_dict`: a dictionary, or something that `**` refuses.
pub data Given (F : Type 0) : Type 0 where
  mapping : Section F → Given F
  not_mapping : Given F

module _ {F : Type 0} where
  -- Every keyword is a field.
  abbrev pub all_known : Section F → Section F → Bool
  all_known fields [] = true
  all_known fields ((k, v) ∷ kwargs) = has_key k fields && all_known fields kwargs

  abbrev pub or_default : Option (Value F) → Value F → Value F
  or_default none d = d
  or_default (some v) d = v

  -- The fields of a new object: each from its keyword, else its default.
  abbrev pub fill : Section F → Section F → Section F
  fill [] kwargs = []
  fill ((k, d) ∷ fields) kwargs = (k, or_default (lookup k kwargs) d) ∷ fill fields kwargs

  -- `Class(**kwargs)` for the class with these fields and defaults
  unfoldable pub construct : Section F → Given F → Result (Section F)
  construct fields not_mapping = err type_error
  construct fields (mapping kwargs) =
      if all_known fields kwargs then ok (fill fields kwargs) else err type_error
