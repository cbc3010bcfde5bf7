-- ===== src/Interop.antt =====
-- python/metal_native/interop.py and dlpack_bridge.py: the conversions between PyTorch's tensors, DLPack
-- capsules and this library's tensors. PyTorch and the extension module are a parameter.
pub mod Flags
pub mod Errors
pub mod Fixture
mod Tests
use metal_native.Base.{
  ℕ, String, Bool, true, false, ◌&&◌, not, Option, none, some, List, [], ◌∷◌, if◌then◌else◌, ◌==◌,
  string_eq,
}
use metal_native.Base.Dict.{Dict, lookup, has_key}
use metal_native.Base.Exec.{
  Exn, Result, ok, err, type_error, runtime_error, Exec, pure, raise, try_except, ◌>>=◌, ◌>>◌,
}
use metal_native.Tensor.{Backend, Tensor, wrap, to_numpy}
use metal_native.Tensor.Make.{Input, ndarray, tensor_init}

pub record PyTorch (B : Backend) : Type 1 where
  pub Obj : Type 0
  pub Capsule : Type 0
  pub Buffer : Type 0
  -- `import torch`, `import torch.utils.dlpack`
  pub import_torch : Exec B.World (Unit {0})
  pub requires_grad : Obj → Bool
  pub device_type : Obj → String
  pub is_contiguous : Obj → Bool
  -- `str(tensor.dtype)` without "torch."
  pub dtype_name : Obj → String
  pub contiguous : Obj → Exec B.World Obj
  pub cpu : Obj → Exec B.World Obj
  -- `tensor.detach().cpu().numpy()`, `torch.from_numpy`, `requires_grad_(True)`
  pub as_numpy : Obj → Exec B.World B.Array
  pub from_numpy : B.Array → Exec B.World Obj
  pub set_requires_grad : Obj → Exec B.World (Unit {0})
  pub to_dlpack : Obj → Exec B.World Capsule
  pub from_dlpack : Capsule → Exec B.World Obj
  -- The view of a buffer with the shape of a tensor, and `buf_view.copy_(tensor)`
  pub view_of : Buffer → Obj → String → Exec B.World Obj
  pub copy_into : Obj → Obj → Exec B.World (Unit {0})
  pub tensor_from_mps_ptr : Obj → String → Exec B.World B.Handle
  pub allocate_tensor_for_copy : Obj → String → Exec B.World (Buffer × B.Handle)
  pub tensor_from_cpu_data : Obj → String → Exec B.World B.Handle
  pub tensor_from_dlpack : Capsule → Bool → Exec B.World B.Handle
  pub tensor_to_dlpack : B.Handle → Exec B.World Capsule

-- `np_dtype_map`, by the names of the dtypes; `dtype_map` gives each of these names itself, as the
-- conversion of the dtype to a text does for the others.
abbrev pub np_dtype_map : Dict String String
np_dtype_map =
    ("float32", "float32")
    ∷ ("float16", "float16")
    ∷ ("bfloat16", "float32")
    ∷ ("int64", "int64")
    ∷ ("int32", "int32")
    ∷ ("int16", "int16")
    ∷ ("int8", "int8")
    ∷ ("uint8", "uint8")
    ∷ ("bool", "bool_")
    ∷ []

module _ (B : Backend) (T : PyTorch B) where
  -- `Tensor(_native_handle=handle, requires_grad=requires_grad)`
  abbrev pub wrapped : Bool → Exec B.World B.Handle → Exec B.World (Tensor B)
  wrapped g m = m >>= λ h. pure (wrap B h g)

  -- The buffer of the new tensor is the target of PyTorch's own copy.
  abbrev pub copy_to_buffer : T.Obj → String → String → Exec B.World B.Handle
  copy_to_buffer t dtype np_dtype = do
    (buffer, handle) ← T.allocate_tensor_for_copy t dtype
    view ← T.view_of buffer t np_dtype
    u ← T.copy_into view t
    pure handle

  abbrev pub copy_from_cpu : T.Obj → String → Exec B.World B.Handle
  copy_from_cpu t dtype = do
    on_cpu ← T.cpu t
    c ← T.contiguous on_cpu
    T.tensor_from_cpu_data c dtype

  -- What follows a failure of the path without a copy.
  abbrev pub copy_mps : T.Obj → String → Option String → Exec B.World B.Handle
  copy_mps t dtype none = copy_from_cpu t dtype
  copy_mps t dtype (some np_dtype) =
      if dtype == "bfloat16" then copy_from_cpu t dtype else copy_to_buffer t dtype np_dtype

  abbrev pub from_mps : Bool → T.Obj → Exec B.World (Tensor B)
  from_mps g t =
      let dtype = T.dtype_name t in
      try_except (wrapped g (T.tensor_from_mps_ptr t dtype))
        (λ e. wrapped g (copy_mps t dtype (lookup dtype np_dtype_map)))

  -- `Tensor(data=np_array, requires_grad=requires_grad)`
  abbrev pub copy_numpy : Bool → T.Obj → Exec B.World (Tensor B)
  copy_numpy g t = T.as_numpy t >>= λ a. tensor_init B (some (ndarray a)) none none g

  abbrev pub from_cpu : Bool → T.Obj → Exec B.World (Tensor B)
  from_cpu g t =
      if T.is_contiguous t
      then try_except (wrapped g (T.to_dlpack t >>= λ capsule. T.tensor_from_dlpack capsule g))
          (λ e. copy_numpy g t)
      else copy_numpy g t

  abbrev pub or_inherited : Option Bool → T.Obj → Bool
  or_inherited none t = T.requires_grad t
  or_inherited (some g) t = g

  abbrev pub contiguous_or_copy : T.Obj → Exec B.World T.Obj
  contiguous_or_copy t = if T.is_contiguous t then pure t else T.contiguous t

  abbrev pub moved_to_cpu : T.Obj → Exec B.World T.Obj
  moved_to_cpu t = if T.device_type t == "cpu" then pure t else T.cpu t

  -- `interop.from_torch`
  unfoldable pub from_torch : T.Obj → Option Bool → Exec B.World (Tensor B)
  unfolding tensor_init
  from_torch t requires_grad =
      let g = or_inherited requires_grad t in
      T.import_torch
      >> B.import_c
      >> (if T.device_type t == "mps"
          then contiguous_or_copy t >>= from_mps g
          else moved_to_cpu t >>= from_cpu g)

  -- The argument of a function that checks for a Tensor.
  pub data Arg : Type 0 where
    a_tensor : Tensor B → Arg
    another : Arg

  abbrev pub with_flag : Bool → T.Obj → Exec B.World T.Obj
  with_flag g o = if g then (T.set_requires_grad o >> pure o) else pure o

  -- What is under `try`, and what follows a failure.
  abbrev pub by_dlpack : Tensor B → Exec B.World T.Obj
  by_dlpack t = do
    u ← B.import_c
    capsule ← T.tensor_to_dlpack t.handle
    o ← T.from_dlpack capsule
    with_flag t.requires_grad o

  unfoldable pub by_numpy : Tensor B → Exec B.World T.Obj
  unfolding to_numpy
  by_numpy t = to_numpy B t >>= λ a. T.from_numpy a >>= with_flag t.requires_grad

  -- `interop.to_torch`
  unfoldable pub to_torch : Arg → Exec B.World T.Obj
  unfolding by_numpy
  to_torch another = T.import_torch >> raise type_error
  to_torch (a_tensor t) = T.import_torch >> try_except (by_dlpack t) (λ e. by_numpy t)

  -- `dlpack_bridge.to_dlpack`
  unfoldable pub to_dlpack : Arg → Exec B.World T.Capsule
  to_dlpack another = raise type_error
  to_dlpack (a_tensor t) =
      try_except (B.import_c >> T.tensor_to_dlpack t.handle) (λ e. raise runtime_error)

  -- `dlpack_bridge.from_dlpack`
  unfoldable pub from_dlpack : T.Capsule → Exec B.World (Tensor B)
  from_dlpack capsule =
      try_except (wrapped false (B.import_c >> T.tensor_from_dlpack capsule false))
        (λ e. raise runtime_error)

  -- `dlpack_bridge.get_dlpack_device`: the device type and number of every tensor.
  unfoldable pub get_dlpack_device : Arg → Result (ℕ × ℕ)
  get_dlpack_device another = err type_error
  get_dlpack_device (a_tensor t) = ok (8, 0)
