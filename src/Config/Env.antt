-- ===== src/Config/Env.antt =====
-- config.py: `MetalNativeConfig.from_env`.
use metal_native.Base.{Bool, ◌||◌, Option, none, some, List, [], ◌∷◌, if◌then◌else◌, ◌==◌}
use metal_native.Base.Dict.{lookup, insert}
use metal_native.Base.Exec.{Result, ok, err, value_error}
use metal_native.Base.Int.{ℤ}
use metal_native.Base.Text.{Text, text_eq, codes, lower, strip_prefix, split_once}
use metal_native.Config.{Section, Config, Value, int, float, bool, str, none_value, ints}
use metal_native.Config.Number.{int_of}
use metal_native.Config.Defaults.{default_config}

-- Floats with 2.0 and `float(value)`, and what `hasattr` and `setattr` do at a name that is no
-- field: `none` where there is no such attribute, else the outcome of assigning a text to it.
pub record Python : Type 1 where
  pub Float : Type 0
  pub two : Float
  pub float_of : Text → Option Float
  pub special : Text → Text → Option (Result (Unit {0}))

-- The attributes of the configuration that a name with no underscore or with one can denote.
pub data SectionName : Type 0 where
  allocator backpressure dispatch kernel_cache profiling : SectionName

-- `hasattr(config, section)`
abbrev pub section_named : Text → Option SectionName
section_named s =
    if s == codes "allocator"
    then some allocator
    else if s == codes "backpressure"
    then some backpressure
    else if s == codes "dispatch"
    then some dispatch
    else if s == codes "kernel_cache"
    then some kernel_cache
    else if s == codes "profiling"
    then some profiling
    else none

module _ (P : Python) where
  abbrev pub Conf : Type 0
  Conf = Config P.Float

  abbrev pub get_section : SectionName → Conf → Section P.Float
  get_section allocator c = c.allocator
  get_section backpressure c = c.backpressure
  get_section dispatch c = c.dispatch
  get_section kernel_cache c = c.kernel_cache
  get_section profiling c = c.profiling

  abbrev pub put_section : SectionName → Section P.Float → Conf → Conf
  put_section allocator s c = record c { allocator = s }
  put_section backpressure s c = record c { backpressure = s }
  put_section dispatch s c = record c { dispatch = s }
  put_section kernel_cache s c = record c { kernel_cache = s }
  put_section profiling s c = record c { profiling = s }

  -- `value.lower() in ('true', '1', 'yes')`
  abbrev pub truthy : Text → Bool
  truthy v = let w = lower v in w == codes "true" || w == codes "1" || w == codes "yes"

  abbrev as_int : Option ℤ → Result (Value P.Float)
  as_int none = err value_error
  as_int (some n) = ok (int n)

  abbrev as_float : Option P.Float → Result (Value P.Float)
  as_float none = err value_error
  as_float (some x) = ok (float x)

  -- The conversion by the type of the current value.
  unfoldable pub convert : Value P.Float → Text → Result (Value P.Float)
  unfolding int_of
  convert (bool b) v = ok (bool (truthy v))
  convert (int n) v = as_int (int_of v)
  convert (float x) v = as_float (P.float_of v)
  convert (str s) v = ok (str v)
  convert none_value v = ok (str v)
  convert (ints ns) v = ok (str v)

  abbrev pub assigned : SectionName → Text → Conf → Result (Value P.Float) → Result Conf
  assigned n attr c (err e) = err e
  assigned n attr c (ok v) = ok (put_section n (insert attr v (get_section n c)) c)

  abbrev pub untouched : Conf → Option (Result (Unit {0})) → Result Conf
  untouched c none = ok c
  untouched c (some (ok _)) = ok c
  untouched c (some (err e)) = err e

  abbrev pub set_at : SectionName → Text → Text → Conf → Option (Value P.Float) → Result Conf
  set_at n attr v c (some current) = assigned n attr c (convert current v)
  set_at n attr v c none = untouched c (P.special attr v)

  -- The lines under `if hasattr(config, section)`.
  unfoldable pub set_attr : SectionName → Text → Text → Conf → Result Conf
  unfolding convert
  set_attr n attr v c = set_at n attr v c (lookup attr (get_section n c))

  abbrev pub in_section : Option SectionName → Text → Text → Conf → Result Conf
  in_section none attr v c = ok c
  in_section (some n) attr v c = set_attr n attr v c

  abbrev pub parse_rest : Option Text → Option (Text × Text)
  parse_rest none = none
  parse_rest (some rest) = split_once b'_' (lower rest)

  -- `key[len(prefix):].lower().split('_', 1)`, where the key has the prefix and this has two parts
  abbrev pub parse_key : Text → Option (Text × Text)
  parse_key key = parse_rest (strip_prefix (codes "METAL_NATIVE_") key)

  abbrev pub apply_parsed : Option (Text × Text) → Text → Conf → Result Conf
  apply_parsed none v c = ok c
  apply_parsed (some (section, attr)) v c = in_section (section_named section) attr v c

  -- One variable of the environment.
  unfoldable pub apply_var : Text → Text → Conf → Result Conf
  unfolding set_attr
  apply_var key v c = apply_parsed (parse_key key) v c

  abbrev pub and_then : Result Conf → (Conf → Result Conf) → Result Conf
  and_then (ok c) f = f c
  and_then (err e) f = err e

  unfoldable pub apply_env : List (Text × Text) → Conf → Result Conf
  unfolding apply_var
  apply_env [] c = ok c
  apply_env ((key, v) ∷ env) c = and_then (apply_var key v c) (apply_env env)

  -- `MetalNativeConfig.from_env()` in the environment `env`
  unfoldable pub from_env : List (Text × Text) → Result Conf
  unfolding apply_env default_config
  from_env env = apply_env env (default_config P.two)
