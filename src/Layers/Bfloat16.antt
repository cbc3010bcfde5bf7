-- ===== src/Layers/Bfloat16.antt =====
-- nn: layers of the dtype bfloat16.
use metal_native.Base.{ℕ, ◌≡◌, ap, refl, Bool, some}
use metal_native.Base.Exec.{ok, err, value_error, then_run}
use metal_native.Dtypes.{bfloat16, dtype_to_numpy}
use metal_native.Tensor.{Backend}
use metal_native.Layers.{Kernels, linear_with, linear_init, rms_norm_init, layer_norm_init}

module _ (B : Backend) (K : Kernels B) where
  -- No layer can be made with the dtype bfloat16, which NumPy does not have: RMSNorm and LayerNorm
  -- raise ValueError and call nothing, and Linear raises ValueError after it has drawn the weights.
  pub layers_bfloat16 :
      (in_features out_features : ℕ) (bias : Bool) (eps : K.Eps) (drawn : B.Array) (v w : B.World)
      → K.xavier in_features out_features v ≡ (ok drawn, w)
      → (linear_init B K in_features out_features bias (some bfloat16) v ≡ (err value_error, w))
        × (rms_norm_init B K in_features eps (some bfloat16) v ≡ (err value_error, v))
        × (layer_norm_init B K in_features eps (some bfloat16) v ≡ (err value_error, v))
  unfolding linear_init linear_with rms_norm_init layer_norm_init dtype_to_numpy
  layers_bfloat16 in_features out_features bias eps drawn v w x =
      (ap (then_run (linear_with B K in_features out_features bias bfloat16)) x, refl, refl)
