-- ===== src/Tensor/Tests.antt =====
-- The theorems on tensors at a concrete backend: a handle is its shape, and an array its shape too.
use metal_native.Base.{
  ◌≤◌, ℕ, zero, suc, ◌<◌, ◌≡◌, ◌⊎◌, refl, true, false, none, some, List, [], ◌∷◌, length, get_elem?,
  arith, string_eq, nat_eq, ◌==◌,
}
use metal_native.Base.Exec.{ok, err, value_error, type_error, index_error, pure, raise}
use metal_native.Base.Int.{ℤ, pos, negsuc, prod, int_eq}
use metal_native.Dtypes.{float32}
use metal_native.Tensor.{Tensor, wrap, shape, size, item, ndim}
use metal_native.Tensor.Make.{listed, tensor_init}
use metal_native.Tensor.Reduce.{place, swapped_axes, sum, mean, max}
use metal_native.Tensor.Cached.{tensor_init-shape}
use metal_native.Tensor.Axes.{traded, swapped_axes_lem}
use metal_native.Tensor.Reduced.{DropsLast, ReturnsScalar, reductions_lem}
use metal_native.Tensor.TorchFunction.{Torch, object, Impl}
use metal_native.Tensor.Fixture.{front, drop_last, backend}

-- The tensor of one element with the shape (-1,).
abbrev inferred : Tensor backend
inferred = record {
  handle = pos 1 ∷ [];
  shape_cache = some (negsuc 0 ∷ []);
  dtype_cache = some float32;
  requires_grad = false;
}

makes : tensor_init backend (some (listed 1)) (some (negsuc 0 ∷ [])) none false 0 ≡ (ok inferred, 1)
unfolding tensor_init
makes = refl

tensor_init-shape_example :
    (shape backend inferred ≡ (negsuc 0 ∷ [], inferred))
    × (size backend inferred ≡ prod (negsuc 0 ∷ []))
    × ((prod (negsuc 0 ∷ []) == pos 1) ≡ false → item backend inferred 1 ≡ (err value_error, 1))
tensor_init-shape_example =
    tensor_init-shape backend (some (listed 1)) (negsuc 0 ∷ []) none false 0 1 inferred makes

abbrev matrix : Tensor backend
matrix = wrap backend (pos 2 ∷ pos 3 ∷ []) true

axes : swapped_axes 3 (pos 0) (negsuc 0) ≡ ok (2 ∷ 1 ∷ 0 ∷ [])
unfolding swapped_axes
axes = refl

swapped_axes_lem_example :
    ((i j : ℕ)
      → place 3 (pos 0) ≡ ok i
      → place 3 (negsuc 0) ≡ ok j
      → (axes : List ℕ) × (swapped_axes 3 (pos 0) (negsuc 0) ≡ ok axes)
        × (length axes ≡ 3)
        × ((k : ℕ) → k < 3 → get_elem? axes k ≡ some (traded i j k)))
    × ((place 3 (pos 0) ≡ err index_error) ⊎ (place 3 (negsuc 0) ≡ err index_error)
        → swapped_axes 3 (pos 0) (negsuc 0) ≡ err index_error)
swapped_axes_lem_example = swapped_axes_lem 3 (pos 0) (negsuc 0)

length-front : (h : List ℤ) (d : ℕ) → length h ≡ suc d → length (front h) ≡ d
length-front [] d e = omega arith
length-front (a ∷ []) d e = omega arith
length-front (a ∷ (b ∷ s)) zero e = omega arith
length-front (a ∷ (b ∷ s)) (suc d) e = omega (arith, length-front (b ∷ s) d (omega arith))

-- The handles that are accepted: here those of two entries at most.
abbrev Accepted : List ℤ → ℕ → Type 0
Accepted h w = length h ≤ 2

drops_last : DropsLast backend Accepted drop_last
drops_last h d w e a = let l = length-front h d e in (front h, w, refl, l, omega (arith, l, a, e))

reductions_lem_example :
    ReturnsScalar backend (sum backend matrix none false 0)
    × ReturnsScalar backend (mean backend matrix none false 0)
    × ReturnsScalar backend (max backend matrix none false 0)
unfolding ndim
reductions_lem_example =
    reductions_lem backend Accepted matrix false 0 0 drops_last drops_last drops_last refl refl
      (omega arith)

abbrev torch : Torch backend
torch = record {
  Func = ℕ;
  func_eq = nat_eq;
  Obj = ℕ;
  Kwargs = ℕ;
  Capsule = ℕ;
  no_kwargs = 0;
  import_torch = pure tt;
  call = λ f args k. raise type_error;
  is_tensor = λ o. false;
  requires_grad = λ o. ok false;
  is_cpu = λ o. ok true;
  cpu = λ o. pure o;
  to_dlpack = λ o. pure 0;
  from_dlpack = λ h. pure 0;
  tensor_from_dlpack = λ c g. pure [];
}

abbrev seven : Impl backend torch
seven args kwargs = pure (object 7)
