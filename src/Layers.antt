-- ===== src/Layers.antt =====
-- python/metal_native/nn: the layers, over Tensor. The kernels of the extension module and the
-- arithmetic of NumPy are a parameter.
pub mod Bfloat16
mod Tests
use metal_native.Base.{ℕ, Bool, true, false, Option, none, some, List, [], ◌∷◌, if◌then◌else◌}
use metal_native.Base.Exec.{Exn, Result, Exec, pure, lift, ◌>>=◌, ◌>>◌}
use metal_native.Base.Int.{ℤ, pos, negsuc}
use metal_native.Dtypes.{DType, NpDType, dtype_to_numpy}
use metal_native.Tensor.{Backend, Tensor, Operand, a_tensor, wrap, unary, binary, to_numpy}
use metal_native.Tensor.Make.{or_float32}
use metal_native.Tensor.Factories.{from_numpy}

pub record Kernels (B : Backend) : Type 1 where
  pub Eps : Type 0
  -- `np.random.uniform(-limit, limit, (out_features, in_features))` with the limit of Xavier
  pub xavier : ℕ → ℕ → Exec B.World B.Array
  pub np_ones : List ℤ → NpDType → Result B.Array
  pub np_zeros : List ℤ → NpDType → Result B.Array
  pub matmul : B.Handle → B.Handle → Bool → Bool → Exec B.World B.Handle
  pub add : B.Handle → B.Handle → Exec B.World B.Handle
  pub add_scalar : B.Handle → B.Scalar → Exec B.World B.Handle
  pub rms_norm : B.Handle → B.Handle → Eps → Exec B.World B.Handle
  pub layer_norm : B.Handle → B.Handle → B.Handle → Eps → Exec B.World B.Handle
  pub relu : B.Handle → Exec B.World B.Handle
  pub softmax : ℤ → B.Handle → Exec B.World B.Handle
  -- The array that GELU or SiLU computes, in the dtype of the given one.
  pub gelu_array : B.Array → Result B.Array
  pub silu_array : B.Array → Result B.Array

module _ (B : Backend) (K : Kernels B) where
  pub record Linear : Type 0 where
    pub in_features : ℕ
    pub out_features : ℕ
    pub weight : Tensor B
    pub bias : Option (Tensor B)

  -- `from_numpy(np.zeros(...))` or `from_numpy(np.ones(...))` of a layer's dtype
  abbrev pub filled : (NpDType → Result B.Array) → DType → Exec B.World (Tensor B)
  filled fill d = lift (dtype_to_numpy d) >>= λ t. lift (fill t) >>= λ a. from_numpy B a false

  abbrev pub bias_if : Bool → ℕ → DType → Exec B.World (Option (Tensor B))
  bias_if true out_features d = filled (K.np_zeros (pos out_features ∷ [])) d >>= λ b. pure (some b)
  bias_if false out_features d = pure none

  -- The layer with the weights drawn.
  unfoldable pub linear_with : ℕ → ℕ → Bool → DType → B.Array → Exec B.World Linear
  unfolding dtype_to_numpy from_numpy
  linear_with in_features out_features bias d drawn = do
    t ← lift (dtype_to_numpy d)
    w_np ← lift (B.astype drawn t)
    weight ← from_numpy B w_np false
    b ← bias_if bias out_features d
    pure (record {
      in_features = in_features;
      out_features = out_features;
      weight = weight;
      bias = b;
    })

  unfoldable pub linear_init : ℕ → ℕ → Bool → Option DType → Exec B.World Linear
  unfolding linear_with
  linear_init in_features out_features bias dtype =
      K.xavier in_features out_features
      >>= linear_with in_features out_features bias (or_float32 B dtype)

  abbrev pub add_bias : Tensor B → Option (Tensor B) → Exec B.World (Tensor B)
  add_bias output none = pure output
  add_bias output (some b) = binary B K.add K.add_scalar output (a_tensor b)

  -- `Linear.__call__`
  unfoldable pub linear_call : Linear → Tensor B → Exec B.World (Tensor B)
  unfolding binary
  linear_call layer x = (B.import_c >> K.matmul x.handle layer.weight.handle false true) >>= λ h.
      add_bias (wrap B h false) layer.bias

  pub record RmsNorm : Type 0 where
    pub normalized_shape : ℕ
    pub eps : K.Eps
    pub weight : Tensor B

  unfoldable pub rms_norm_init : ℕ → K.Eps → Option DType → Exec B.World RmsNorm
  unfolding dtype_to_numpy from_numpy
  rms_norm_init normalized_shape eps dtype =
      filled (K.np_ones (pos normalized_shape ∷ [])) (or_float32 B dtype) >>= λ weight.
      pure (record { normalized_shape = normalized_shape; eps = eps; weight = weight })

  unfoldable pub rms_norm_call : RmsNorm → Tensor B → Exec B.World (Tensor B)
  rms_norm_call layer x = (B.import_c >> K.rms_norm x.handle layer.weight.handle layer.eps) >>= λ h.
      pure (wrap B h false)

  pub record LayerNorm : Type 0 where
    pub normalized_shape : ℕ
    pub eps : K.Eps
    pub weight : Tensor B
    pub bias : Tensor B

  unfoldable pub layer_norm_init : ℕ → K.Eps → Option DType → Exec B.World LayerNorm
  unfolding dtype_to_numpy from_numpy
  layer_norm_init normalized_shape eps dtype =
      let shape = pos normalized_shape ∷ [] in
      lift (dtype_to_numpy (or_float32 B dtype)) >>= λ t. lift (K.np_ones shape t) >>= λ ones.
      from_numpy B ones false >>= λ weight. lift (K.np_zeros shape t) >>= λ zeros.
      from_numpy B zeros false >>= λ bias.
      pure (record { normalized_shape = normalized_shape; eps = eps; weight = weight; bias = bias })

  unfoldable pub layer_norm_call : LayerNorm → Tensor B → Exec B.World (Tensor B)
  layer_norm_call layer x =
      (B.import_c >> K.layer_norm x.handle layer.weight.handle layer.bias.handle layer.eps) >>= λ h.
      pure (wrap B h false)

  unfoldable pub relu_call : Tensor B → Exec B.World (Tensor B)
  unfolding unary
  relu_call x = unary B K.relu x

  -- `Softmax(dim).__call__`
  unfoldable pub softmax_call : ℤ → Tensor B → Exec B.World (Tensor B)
  unfolding unary
  softmax_call dim x = unary B (K.softmax dim) x

  -- `GELU` and `SiLU`, by the array that each computes.
  abbrev pub by_array : (B.Array → Result B.Array) → Tensor B → Exec B.World (Tensor B)
  by_array f x = to_numpy B x >>= λ a. lift (f a) >>= λ r. from_numpy B r false

  unfoldable pub gelu_call : Tensor B → Exec B.World (Tensor B)
  unfolding to_numpy from_numpy
  gelu_call x = by_array K.gelu_array x

  unfoldable pub silu_call : Tensor B → Exec B.World (Tensor B)
  unfolding to_numpy from_numpy
  silu_call x = by_array K.silu_array x
