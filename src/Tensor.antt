-- ===== src/Tensor.antt =====
-- python/metal_native/tensor.py: the class Tensor. What it calls of `metal_native._C` and of NumPy
-- is a parameter: these functions change a state of their own and may raise. The reads of a
-- handle's shape and dtype name are taken to succeed without an effect.
pub mod Make
pub mod Reduce
pub mod Factories
pub mod TorchFunction
pub mod Cached
pub mod Axes
pub mod Reduced
pub mod Registry
pub mod Fixture
mod Tests
use metal_native.Base.{
  ℕ, String, Bool, true, false, Option, none, some, List, [], ◌∷◌, if◌then◌else◌, ◌==◌, string_eq,
  length,
}
use metal_native.Base.Dict.{lookup}
use metal_native.Base.Exec.{
  Exn, Result, ok, err, key_error, value_error, type_error, from_option, Exec, pure, raise, lift,
  ◌>>=◌, ◌>>◌,
}
use metal_native.Base.Int.{ℤ, pos, mul, prod, int_eq}
use metal_native.Dtypes.{DType, dtype_map, Numpy, NpDType}

pub record Backend : Type 1 where
  pub World : Type 0
  pub Handle : Type 0
  pub Scalar : Type 0
  -- `np.ndarray`, and what other data `np.array` takes
  pub Array : Type 0
  pub Data : Type 0
  pub numpy : Numpy
  pub import_c : Exec World (Unit {0})
  pub tensor_shape : Handle → List ℤ
  pub tensor_dtype : Handle → String
  pub tensor_item : Handle → Exec World Scalar
  pub tensor_to_numpy : Handle → Exec World Array
  pub tensor_from_numpy : Array → String → Bool → Exec World Handle
  pub tensor_empty : List ℤ → String → Bool → Exec World Handle
  pub tensor_zeros : List ℤ → String → Bool → Exec World Handle
  pub tensor_ones : List ℤ → String → Bool → Exec World Handle
  pub reshape_handle : Handle → List ℤ → Exec World Handle
  pub is_contiguous : Handle → Exec World Bool
  pub clone : Handle → Exec World Handle
  pub reduce_sum : Handle → ℤ → Bool → Exec World Handle
  pub reduce_mean : Handle → ℤ → Bool → Exec World Handle
  pub reduce_max : Handle → ℤ → Bool → Exec World Handle
  pub array : Data → Result Array
  pub array_shape : Array → List ℤ
  pub array_dtype : Array → numpy.Obj
  pub astype : Array → NpDType → Result Array
  pub reshape : Array → List ℤ → Result Array
  pub transpose : Array → List ℕ → Result Array
  pub randn : List ℤ → Exec World Array

module _ (B : Backend) where
  -- `_grad` is left out: no code of the class sets it to anything but None.
  pub record Tensor : Type 0 where
    pub handle : B.Handle
    pub shape_cache : Option (List ℤ)
    pub dtype_cache : Option DType
    pub requires_grad : Bool

  -- `Tensor(_native_handle=h, requires_grad=g)`
  abbrev pub wrap : B.Handle → Bool → Tensor
  wrap h g = record { handle = h; shape_cache = none; dtype_cache = none; requires_grad = g }

  -- The property `shape`, with the tensor after it.
  unfoldable pub shape : Tensor → List ℤ × Tensor
  shape t = elim t.shape_cache [
    | some s ↦ (s, t)
    | none ↦ let s = B.tensor_shape t.handle in (s, record t { shape_cache = some s })
  ]

  abbrev read_dtype : Tensor → Option DType → Result DType × Tensor
  read_dtype t none = (err key_error, t)
  read_dtype t (some d) = (ok d, record t { dtype_cache = some d })

  -- The property `dtype`, with the tensor after it.
  unfoldable pub dtype : Tensor → Result DType × Tensor
  unfolding dtype_map
  dtype t = elim t.dtype_cache [
    | some d ↦ (ok d, t)
    | none ↦ read_dtype t (lookup (B.tensor_dtype t.handle) dtype_map)
  ]

  unfoldable pub ndim : Tensor → ℕ
  unfolding shape
  ndim t = length (shape t).0

  unfoldable pub size : Tensor → ℤ
  unfolding shape
  size t = prod (shape t).0

  abbrev sized : ℤ → Result DType → Result ℤ
  sized n (ok d) = ok (mul n (pos d.itemsize))
  sized n (err e) = err e

  -- `self.size` fills the cache of the shape first.
  unfoldable pub nbytes : Tensor → Result ℤ
  unfolding size dtype shape
  nbytes t = sized (size t) (dtype (shape t).1).0

  unfoldable pub item : Tensor → Exec B.World B.Scalar
  unfolding size
  item t = if size t == pos 1 then (B.import_c >> B.tensor_item t.handle) else raise value_error

  unfoldable pub to_numpy : Tensor → Exec B.World B.Array
  to_numpy t = B.import_c >> B.tensor_to_numpy t.handle

  -- The operand of an operator: a tensor, what `float` makes of another object, or what it raises.
  pub data Operand (S : Type 0) : Type 0 where
    a_tensor : Tensor → Operand S
    a_number : S → Operand S
    not_number : Exn → Operand S

  -- `__add__`, `__sub__`, `__mul__` and `__truediv__`, by the two functions that each calls.
  unfoldable pub binary :
      {S : Type 0}
      → (B.Handle → B.Handle → Exec B.World B.Handle)
      → (B.Handle → S → Exec B.World B.Handle)
      → Tensor
      → Operand S
      → Exec B.World Tensor
  binary op op_scalar t (a_tensor u) =
      (B.import_c >> op t.handle u.handle) >>= λ h. pure (wrap h false)
  binary op op_scalar t (a_number x) =
      (B.import_c >> op_scalar t.handle x) >>= λ h. pure (wrap h false)
  binary op op_scalar t (not_number e) = B.import_c >> raise e

  -- `__matmul__`
  unfoldable pub matmul :
      {S : Type 0}
      → (B.Handle → B.Handle → Exec B.World B.Handle)
      → Tensor
      → Operand S
      → Exec B.World Tensor
  matmul op t (a_tensor u) = (B.import_c >> op t.handle u.handle) >>= λ h. pure (wrap h false)
  matmul op t (a_number x) = B.import_c >> raise type_error
  matmul op t (not_number e) = B.import_c >> raise type_error

  -- `__neg__`, `exp`, `log`, `sqrt`, `abs`, `relu` and `softmax`, by the function that each calls.
  unfoldable pub unary : (B.Handle → Exec B.World B.Handle) → Tensor → Exec B.World Tensor
  unary op t = (B.import_c >> op t.handle) >>= λ h. pure (wrap h false)

  unfoldable pub view : Tensor → List ℤ → Exec B.World Tensor
  view t s = (B.import_c >> B.reshape_handle t.handle s) >>= λ h. pure (wrap h false)

  unfoldable pub contiguous : Tensor → Exec B.World Tensor
  contiguous t = do
    _ ← B.import_c
    c ← B.is_contiguous t.handle
    elim c [ true ↦ pure t | false ↦ B.clone t.handle >>= λ h. pure (wrap h false) ]
