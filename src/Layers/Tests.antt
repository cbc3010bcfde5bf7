-- ===== src/Layers/Tests.antt =====
-- nn, on tensors that are shapes.
use metal_native.Base.{ℕ, ◌≡◌, refl, true, some, [], ◌∷◌}
use metal_native.Base.Exec.{ok, err, value_error, pure}
use metal_native.Base.Int.{pos}
use metal_native.Dtypes.{bfloat16}
use metal_native.Tensor.Fixture.{backend}
use metal_native.Layers.{Kernels, linear_init, rms_norm_init, layer_norm_init}
use metal_native.Layers.Bfloat16.{layers_bfloat16}

abbrev kernels : Kernels backend
kernels = record {
  Eps = ℕ;
  xavier = λ n m. pure (pos m ∷ pos n ∷ []);
  np_ones = λ s t. ok s;
  np_zeros = λ s t. ok s;
  matmul = λ x y a b. pure (pos 3 ∷ []);
  add = λ x y. pure x;
  add_scalar = λ x y. pure x;
  rms_norm = λ x y e. pure x;
  layer_norm = λ x y z e. pure x;
  relu = λ x. pure x;
  softmax = λ d x. pure x;
  gelu_array = λ a. ok a;
  silu_array = λ a. ok a;
}

layers_bfloat16_example :
    (linear_init backend kernels 2 3 true (some bfloat16) 0 ≡ (err value_error, 0))
    × (rms_norm_init backend kernels 2 1 (some bfloat16) 0 ≡ (err value_error, 0))
    × (layer_norm_init backend kernels 2 1 (some bfloat16) 0 ≡ (err value_error, 0))
layers_bfloat16_example = layers_bfloat16 backend kernels 2 3 true 1 (pos 3 ∷ pos 2 ∷ []) 0 0 refl
