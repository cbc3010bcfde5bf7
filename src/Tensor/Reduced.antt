-- ===== src/Tensor/Reduced.antt =====
-- tensor.py: `sum`, `mean` and `max` of all entries.
use metal_native.Base.{
  ℕ, zero, suc, ◌≡◌, ◌∙◌, refl, sym, ap, Option-cases, inl, inr, Bool, false, none, length,
}
use mathlib.Core.Path.{subst}
use metal_native.Base.Exec.{Result, ok, Exec, then_run}
use metal_native.Base.Int.{ℤ, pos}
use metal_native.Tensor.{Backend, Tensor, wrap, shape, ndim}
use metal_native.Tensor.Reduce.{reduce, reduce_all, sum, mean, max}

module _ (B : Backend) where
  -- The number of dimensions of a handle.
  abbrev pub rank : B.Handle → ℕ
  rank h = length (B.tensor_shape h)

  -- A return with a tensor whose handle has no dimension.
  abbrev pub ReturnsScalar : Result (Tensor B) × B.World → Type 0
  ReturnsScalar r = (t : Tensor B) × (w : B.World) × (r ≡ (ok t, w)) × (rank t.handle ≡ 0)

  shape-handle : (t : Tensor B) → (shape B t).1.handle ≡ t.handle
  unfolding shape
  shape-handle t = elim (Option-cases t.shape_cache) [ inl c ↦ rw c | inr (s, c) ↦ rw c ]

module _ (B : Backend) (Accepts : B.Handle → B.World → Type 0) where
  -- On a handle that it accepts, and at its last dimension, the function returns a handle without that
  -- dimension, which it accepts again.
  abbrev pub DropsLast : (B.Handle → ℤ → Bool → Exec B.World B.Handle) → Type 0
  DropsLast op =
      (h : B.Handle) (d : ℕ) (w : B.World)
      → rank B h ≡ suc d
      → Accepts h w
      → (k : B.Handle) × (v : B.World) × (op h (pos d) false w ≡ (ok k, v))
        × (rank B k ≡ d)
        × Accepts k v

  reduce_all-ReturnsScalar :
      (op : B.Handle → ℤ → Bool → Exec B.World B.Handle)
      → DropsLast op
      → (n : ℕ) (t : Tensor B) (w : B.World) → rank B t.handle ≡ n
      → Accepts t.handle w
      → ReturnsScalar B (reduce_all B op n t w)
  reduce_all-ReturnsScalar op h zero t w e a = (t, w, refl, e)
  reduce_all-ReturnsScalar op h (suc d) t w e a =
      let (k, v, p, q, b) = h t.handle d w e a in
      subst (λ o. ReturnsScalar B (then_run (λ j. reduce_all B op d (wrap B j false)) o)) (sym p)
        (reduce_all-ReturnsScalar op h d (wrap B k false) v q b)

  reduce-ReturnsScalar :
      (op : B.Handle → ℤ → Bool → Exec B.World B.Handle)
      → DropsLast op
      → (t : Tensor B) (keepdim : Bool) (w v : B.World) → B.import_c w ≡ (ok tt, v)
      → rank B t.handle ≡ ndim B t
      → Accepts t.handle v
      → ReturnsScalar B (reduce B op t none keepdim w)
  unfolding reduce
  reduce-ReturnsScalar op h t keepdim w v i r a =
      subst (λ o. ReturnsScalar B (then_run (λ u. reduce_all B op (ndim B t) (shape B t).1) o))
        (sym i)
        (reduce_all-ReturnsScalar op h (ndim B t) (shape B t).1 v
          (ap (rank B) (shape-handle B t) ∙ r)
          (subst (λ k. Accepts k v) (sym (shape-handle B t)) a))

  -- Where the reductions of the extension module, on the handles that they accept, as contiguous ones
  -- of a float type, drop the last dimension and return a handle that they accept again, the import
  -- succeeds, and the tensor's handle is accepted and has as many dimensions as its shape has
  -- entries, `sum`, `mean` and `max` without a dimension return a tensor with no dimension.
  pub reductions_lem :
      (t : Tensor B) (keepdim : Bool) (w v : B.World)
      → DropsLast B.reduce_sum
      → DropsLast B.reduce_mean
      → DropsLast B.reduce_max
      → B.import_c w ≡ (ok tt, v)
      → rank B t.handle ≡ ndim B t
      → Accepts t.handle v
      → ReturnsScalar B (sum B t none keepdim w)
        × ReturnsScalar B (mean B t none keepdim w)
        × ReturnsScalar B (max B t none keepdim w)
  unfolding sum mean max
  reductions_lem t keepdim w v s m x i r a = (
    reduce-ReturnsScalar B.reduce_sum s t keepdim w v i r a,
    reduce-ReturnsScalar B.reduce_mean m t keepdim w v i r a,
    reduce-ReturnsScalar B.reduce_max x t keepdim w v i r a,
  )
