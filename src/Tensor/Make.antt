-- ===== src/Tensor/Make.antt =====
-- tensor.py: `Tensor.__init__` without a native handle; `wrap` is the case with one.
use metal_native.Base.{Bool, true, false, Option, none, some, List, [], ◌∷◌, if◌then◌else◌}
use metal_native.Base.Exec.{Result, ok, err, value_error, Exec, pure, raise, lift, ◌>>=◌}
use metal_native.Base.Int.{ℤ, int_eq, int_beq}
use metal_native.Dtypes.{DType, bfloat16, float32, dtype_eq, dtype_to_numpy, numpy_to_dtype}
use metal_native.Tensor.{Backend, Tensor, to_numpy}

-- `a == b` on tuples of integers
abbrev pub same_shape : List ℤ → List ℤ → Bool
same_shape [] [] = true
same_shape [] (b ∷ t) = false
same_shape (a ∷ s) [] = false
same_shape (a ∷ s) (b ∷ t) = if int_beq a b then same_shape s t else false

module _ (B : Backend) where
  pub data Input : Type 0 where
    tensor : Tensor B → Input
    ndarray : B.Array → Input
    listed : B.Data → Input

  unfoldable pub as_array : Input → Exec B.World B.Array
  unfolding to_numpy
  as_array (tensor t) = to_numpy B t
  as_array (ndarray a) = pure a
  as_array (listed d) = lift (B.array d)

  -- `except ValueError` around the inference of the dtype
  unfoldable pub inferred : B.Array → Result DType → Result (B.Array × DType)
  inferred a (ok d) = ok (a, d)
  inferred a (err value_error) = elim (B.astype a "float32") [
    | ok b ↦ ok (b, float32)
    | err e ↦ err e
  ]
  inferred a (err e) = err e

  unfoldable pub cast : B.Array → DType → Exec B.World B.Array
  unfolding dtype_to_numpy
  cast a d =
      if dtype_eq d bfloat16 then pure a else (lift (dtype_to_numpy d) >>= λ t. lift (B.astype a t))

  unfoldable pub with_dtype : B.Array → Option DType → Exec B.World (B.Array × DType)
  unfolding numpy_to_dtype inferred cast
  with_dtype a none = lift (inferred a (numpy_to_dtype B.numpy (B.array_dtype a)))
  with_dtype a (some d) = cast a d >>= λ b. pure (b, d)

  abbrev pub with_shape : B.Array → Option (List ℤ) → Exec B.World B.Array
  with_shape a none = pure a
  with_shape a (some s) = if same_shape (B.array_shape a) s then pure a else lift (B.reshape a s)

  abbrev pub built : B.Handle → Option (List ℤ) → DType → Bool → Tensor B
  built h shape dtype requires_grad = record {
    handle = h;
    shape_cache = shape;
    dtype_cache = some dtype;
    requires_grad = requires_grad;
  }

  abbrev pub or_float32 : Option DType → DType
  or_float32 none = float32
  or_float32 (some d) = d

  -- The handle that `__init__` makes, with the dtype at its end.
  unfoldable pub make_handle :
      Option Input → Option (List ℤ) → Option DType → Bool → Exec B.World (B.Handle × DType)
  unfolding as_array with_dtype
  make_handle (some input) shape dtype requires_grad = do
    a ← as_array input
    typed ← with_dtype a dtype
    b ← with_shape typed.0 shape
    h ← B.tensor_from_numpy b typed.1.name requires_grad
    pure (h, typed.1)
  make_handle none none dtype requires_grad = raise value_error
  make_handle none (some s) dtype requires_grad =
      B.tensor_empty s (or_float32 dtype).name requires_grad >>= λ h. pure (h, or_float32 dtype)

  -- `Tensor(data, shape, dtype, requires_grad)`
  unfoldable pub tensor_init :
      Option Input → Option (List ℤ) → Option DType → Bool → Exec B.World (Tensor B)
  unfolding make_handle
  tensor_init input shape dtype requires_grad = do
    _ ← B.import_c
    made ← make_handle input shape dtype requires_grad
    pure (built made.0 shape made.1 requires_grad)
