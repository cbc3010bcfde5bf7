-- ===== src/Tensor/Factories.antt =====
-- tensor.py: the functions that make tensors, but those from PyTorch and DLPack.
use metal_native.Base.{Bool, Option, none, some, List}
use metal_native.Base.Exec.{Exec, pure, lift, ◌>>=◌, ◌>>◌}
use metal_native.Base.Int.{ℤ}
use metal_native.Dtypes.{DType, dtype_to_numpy}
use metal_native.Tensor.{Backend, Tensor, wrap}
use metal_native.Tensor.Make.{Input, ndarray, tensor_init, or_float32}

module _ (B : Backend) where
  unfoldable pub zeros : List ℤ → Option DType → Bool → Exec B.World (Tensor B)
  zeros shape dtype requires_grad =
      (B.import_c >> B.tensor_zeros shape (or_float32 B dtype).name requires_grad) >>= λ h.
      pure (wrap B h requires_grad)

  unfoldable pub ones : List ℤ → Option DType → Bool → Exec B.World (Tensor B)
  ones shape dtype requires_grad =
      (B.import_c >> B.tensor_ones shape (or_float32 B dtype).name requires_grad) >>= λ h.
      pure (wrap B h requires_grad)

  unfoldable pub empty : List ℤ → Option DType → Bool → Exec B.World (Tensor B)
  unfolding tensor_init
  empty shape dtype requires_grad = tensor_init B none (some shape) dtype requires_grad

  unfoldable pub tensor : Input B → Option DType → Bool → Exec B.World (Tensor B)
  unfolding tensor_init
  tensor input dtype requires_grad = tensor_init B (some input) none dtype requires_grad

  unfoldable pub randn : List ℤ → Option DType → Bool → Exec B.World (Tensor B)
  unfolding tensor_init dtype_to_numpy
  randn shape dtype requires_grad = do
    a ← B.randn shape
    d ← lift (dtype_to_numpy (or_float32 B dtype))
    b ← lift (B.astype a d)
    tensor_init B (some (ndarray b)) none (some (or_float32 B dtype)) requires_grad

  unfoldable pub from_numpy : B.Array → Bool → Exec B.World (Tensor B)
  unfolding tensor_init
  from_numpy array requires_grad = tensor_init B (some (ndarray array)) none none requires_grad
