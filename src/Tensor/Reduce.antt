-- ===== src/Tensor/Reduce.antt =====
-- tensor.py: `transpose`, `sum`, `mean` and `max`.
use metal_native.Base.{
  ℕ, zero, suc, ◌-◌, ltb, Bool, false, Option, none, some, List, [], ◌∷◌, if◌then◌else◌, get_elem?,
  set,
}
use metal_native.Base.Exec.{Result, ok, err, index_error, Exec, pure, lift, ◌>>=◌, ◌>>◌}
use metal_native.Base.Int.{ℤ, pos, negsuc}
use metal_native.Tensor.{Backend, Tensor, wrap, ndim, shape, dtype, to_numpy}
use metal_native.Tensor.Make.{ndarray, tensor_init}

-- The place that a Python index means in a list of `n` entries.
abbrev pub place : ℕ → ℤ → Result ℕ
place n (pos i) = if ltb i n then ok i else err index_error
place n (negsuc i) = if ltb i n then ok (n - suc i) else err index_error

-- `list(range(n))`, from `i`
abbrev pub range_from : ℕ → ℕ → List ℕ
range_from i zero = []
range_from i (suc n) = i ∷ range_from (suc i) n

abbrev pub get_or_zero : List ℕ → ℕ → ℕ
get_or_zero xs i = elim (get_elem? xs i) [ none ↦ 0 | some x ↦ x ]

-- `axes[i], axes[j] = axes[j], axes[i]` at places within the list
abbrev pub swap : ℕ → ℕ → List ℕ → List ℕ
swap i j axes = set (set axes i (get_or_zero axes j)) j (get_or_zero axes i)

abbrev pub and_then : {A : Type 0} → Result ℕ → (ℕ → Result A) → Result A
and_then (ok a) f = f a
and_then (err e) f = err e

-- The axes that `transpose` hands to NumPy.
unfoldable pub swapped_axes : ℕ → ℤ → ℤ → Result (List ℕ)
swapped_axes n dim0 dim1 =
    and_then (place n dim1) (λ j. and_then (place n dim0) (λ i. ok (swap i j (range_from 0 n))))

module _ (B : Backend) where
  unfoldable pub transpose : Tensor B → ℤ → ℤ → Exec B.World (Tensor B)
  unfolding to_numpy ndim shape swapped_axes dtype tensor_init
  transpose t dim0 dim1 = do
    a ← to_numpy B t
    axes ← lift (swapped_axes (ndim B t) dim0 dim1)
    b ← lift (B.transpose a axes)
    d ← lift (dtype B t).0
    tensor_init B (some (ndarray b)) none (some d) false

  -- `for d in range(n - 1, -1, -1)`, on the result so far
  abbrev pub reduce_all :
      (B.Handle → ℤ → Bool → Exec B.World B.Handle) → ℕ → Tensor B → Exec B.World (Tensor B)
  reduce_all op zero t = pure t
  reduce_all op (suc d) t = op t.handle (pos d) false >>= λ h. reduce_all op d (wrap B h false)

  -- `sum`, `mean` and `max`, by the function that each calls
  unfoldable pub reduce :
      (B.Handle → ℤ → Bool → Exec B.World B.Handle)
      → Tensor B
      → Option ℤ
      → Bool
      → Exec B.World (Tensor B)
  unfolding ndim shape
  reduce op t none keepdim = B.import_c >> reduce_all op (ndim B t) (shape B t).1
  reduce op t (some dim) keepdim =
      (B.import_c >> op t.handle dim keepdim) >>= λ h. pure (wrap B h false)

  unfoldable pub sum : Tensor B → Option ℤ → Bool → Exec B.World (Tensor B)
  unfolding reduce
  sum t dim keepdim = reduce B.reduce_sum t dim keepdim

  unfoldable pub mean : Tensor B → Option ℤ → Bool → Exec B.World (Tensor B)
  unfolding reduce
  mean t dim keepdim = reduce B.reduce_mean t dim keepdim

  unfoldable pub max : Tensor B → Option ℤ → Bool → Exec B.World (Tensor B)
  unfolding reduce
  max t dim keepdim = reduce B.reduce_max t dim keepdim
