-- ===== src/Dtypes.antt =====
-- python/metal_native/dtypes.py: the dtype descriptors, the maps to and from NumPy, and `get_dtype`.
-- NumPy is a parameter: `np.dtype(x)` of an object, and the objects that the maps hold.
pub mod Roundtrip
pub mod Parse
mod Tests
use metal_native.Base.{
  ℕ, String, ◌≡◌, Bool, true, false, Option, none, some, List, [], ◌∷◌, if◌then◌else◌, ◌==◌,
  string_eq,
}
use metal_native.Base.Dict.{Dict, lookup}
use metal_native.Base.Exec.{Exn, Result, ok, err, value_error, type_error, from_option}

pub record DType : Type 0 where
  pub name : String
  pub itemsize : ℕ
  pub is_floating_point : Bool
  pub is_signed : Bool

-- `DType.__eq__` between two dtypes; `__hash__` is the hash of the name, so a dict agrees with it.
abbrev pub dtype_eq : DType → DType → Bool
dtype_eq a b = a.name == b.name

-- `DType.__str__`
abbrev pub dtype_str : DType → String
dtype_str d = d.name

abbrev dtype : String → ℕ → Bool → Bool → DType
dtype name itemsize floating signed = record {
  name = name;
  itemsize = itemsize;
  is_floating_point = floating;
  is_signed = signed;
}

abbrev pub float32 : DType
float32 = dtype "float32" 4 true true

abbrev pub float16 : DType
float16 = dtype "float16" 2 true true

abbrev pub bfloat16 : DType
bfloat16 = dtype "bfloat16" 2 true true

abbrev pub int64 : DType
int64 = dtype "int64" 8 false true

abbrev pub int32 : DType
int32 = dtype "int32" 4 false true

abbrev pub int16 : DType
int16 = dtype "int16" 2 false true

abbrev pub int8 : DType
int8 = dtype "int8" 1 false true

abbrev pub uint8 : DType
uint8 = dtype "uint8" 1 false false

abbrev pub bool_ : DType
bool_ = dtype "bool" 1 false false

-- `_DTYPE_MAP`
unfoldable pub dtype_map : Dict String DType
dtype_map =
    ("float32", float32)
    ∷ ("float16", float16)
    ∷ ("bfloat16", bfloat16)
    ∷ ("int64", int64)
    ∷ ("int32", int32)
    ∷ ("int16", int16)
    ∷ ("int8", int8)
    ∷ ("uint8", uint8)
    ∷ ("bool", bool_)
    ∷ []

-- A NumPy dtype is written by its `str`, which tells dtypes apart, byte order included.
abbrev pub NpDType : Type 0
NpDType = String

-- `_NUMPY_DTYPE_MAP`, where `np.float32` is written by the dtype that it stands for.
unfoldable pub numpy_dtype_map : List (DType × NpDType)
numpy_dtype_map =
    (float32, "float32")
    ∷ (float16, "float16")
    ∷ (int64, "int64")
    ∷ (int32, "int32")
    ∷ (int16, "int16")
    ∷ (int8, "int8")
    ∷ (uint8, "uint8")
    ∷ (bool_, "bool")
    ∷ []

-- `_NUMPY_TO_DTYPE_MAP`
unfoldable pub numpy_to_dtype_map : Dict NpDType DType
numpy_to_dtype_map =
    ("float32", float32)
    ∷ ("float16", float16)
    ∷ ("int64", int64)
    ∷ ("int32", int32)
    ∷ ("int16", int16)
    ∷ ("int8", int8)
    ∷ ("uint8", uint8)
    ∷ ("bool", bool_)
    ∷ []

-- A dict keyed by dtypes finds its key by `DType.__eq__`.
abbrev lookup_dtype : DType → List (DType × NpDType) → Option NpDType
lookup_dtype d [] = none
lookup_dtype d ((e, t) ∷ m) = if dtype_eq e d then some t else lookup_dtype d m

unfoldable pub dtype_to_numpy : DType → Result NpDType
unfolding numpy_dtype_map
dtype_to_numpy d = from_option (lookup_dtype d numpy_dtype_map) value_error

-- What the module uses of NumPy: `np.dtype(x)` for any object, a scalar class such as `np.float32`
-- and a dtype as objects.
pub record Numpy : Type 1 where
  pub Obj : Type 0
  pub dtype_of : Obj → Result NpDType
  pub scalar_class : NpDType → Obj
  pub dtype_obj : NpDType → Obj

-- What NumPy documents of `np.dtype`: a scalar class gives its dtype, and a dtype gives itself.
pub record IsNumpy (N : Numpy) : Type 0 where
  pub dtype_of-scalar_class : (t : NpDType) → N.dtype_of (N.scalar_class t) ≡ ok t
  pub dtype_of-dtype_obj : (t : NpDType) → N.dtype_of (N.dtype_obj t) ≡ ok t

-- An argument of `get_dtype`, by the tests that it makes in turn.
pub data DtypeArg (N : Numpy) : Type 0 where
  a_dtype : DType → DtypeArg N
  a_name : String → DtypeArg N
  with_dtype : N.Obj → DtypeArg N
  other : N.Obj → DtypeArg N

-- `except (TypeError, ValueError): raise ValueError`
abbrev pub as_value_error : Result DType → Result DType
as_value_error (ok d) = ok d
as_value_error (err type_error) = err value_error
as_value_error (err e) = err e

module _ (N : Numpy) where
  abbrev from_np : NpDType → Result DType
  from_np t = from_option (lookup t numpy_to_dtype_map) value_error

  abbrev bind_np : Result NpDType → (NpDType → Result DType) → Result DType
  bind_np (ok t) f = f t
  bind_np (err e) f = err e

  unfoldable pub numpy_to_dtype : N.Obj → Result DType
  unfolding numpy_to_dtype_map
  numpy_to_dtype o = bind_np (N.dtype_of o) from_np

  unfoldable pub get_dtype : DtypeArg N → Result DType
  unfolding numpy_to_dtype dtype_map
  get_dtype (a_dtype d) = ok d
  get_dtype (a_name s) = from_option (lookup s dtype_map) value_error
  get_dtype (with_dtype o) = bind_np (N.dtype_of o) (λ t. numpy_to_dtype (N.dtype_obj t))
  get_dtype (other o) =
      as_value_error (bind_np (N.dtype_of o) (λ t. numpy_to_dtype (N.dtype_obj t)))
