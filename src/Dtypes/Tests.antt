-- ===== src/Dtypes/Tests.antt =====
-- Runs of dtypes.py over a small NumPy, and its theorems at concrete inputs.
use metal_native.Base.{◌≡◌, refl, ◌⊎◌, true}
use metal_native.Base.Exec.{Result, ok, err, value_error, type_error}
use metal_native.Dtypes.{
  DType, bfloat16, int8, dtype_eq, NpDType, Numpy, IsNumpy, with_dtype, other, dtype_to_numpy,
  numpy_to_dtype, get_dtype,
}
use metal_native.Dtypes.Roundtrip.{numpy_to_dtype-dtype_to_numpy}
use metal_native.Dtypes.Parse.{Escapes, get_dtype_errors}

data Thing : Type 0 where
  scalar dt : NpDType → Thing
  junk : Thing

abbrev thing_dtype : Thing → Result NpDType
thing_dtype (scalar t) = ok t
thing_dtype (dt t) = ok t
thing_dtype junk = err type_error

abbrev numpy : Numpy
numpy = record { Obj = Thing; dtype_of = thing_dtype; scalar_class = scalar; dtype_obj = dt }

numpy-IsNumpy : IsNumpy numpy
numpy-IsNumpy = record { dtype_of-scalar_class = λ t. refl; dtype_of-dtype_obj = λ t. refl }

bfloat16_has_no_numpy : dtype_to_numpy bfloat16 ≡ err value_error
unfolding dtype_to_numpy
bfloat16_has_no_numpy = refl

float64_unsupported : numpy_to_dtype numpy (dt "float64") ≡ err value_error
unfolding numpy_to_dtype
float64_unsupported = refl

get_dtype_junk : get_dtype numpy (other junk) ≡ err value_error
unfolding get_dtype
get_dtype_junk = refl

get_dtype_array : get_dtype numpy (with_dtype junk) ≡ err type_error
unfolding get_dtype
get_dtype_array = refl

numpy_to_dtype-dtype_to_numpy_example :
    (d : DType) × (numpy_to_dtype numpy (scalar "int8") ≡ ok d) × (dtype_eq d int8 ≡ true)
unfolding dtype_to_numpy
numpy_to_dtype-dtype_to_numpy_example =
    numpy_to_dtype-dtype_to_numpy numpy numpy-IsNumpy int8 "int8" refl

get_dtype_errors_example : (type_error ≡ value_error) ⊎ Escapes numpy (with_dtype junk) type_error
unfolding get_dtype
get_dtype_errors_example = get_dtype_errors numpy numpy-IsNumpy (with_dtype junk) type_error refl
