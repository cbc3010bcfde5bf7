-- ===== src/Tensor/Cached.antt =====
-- tensor.py: the lazily read shape, and what `__init__` puts in its place.
use metal_native.Base.{
  ◌≡◌, Option-cases, inl, inr, refl, Bool, false, Option, none, some, List, ◌==◌, length,
}
use mathlib.Core.Path.{subst}
use metal_native.Base.Exec.{Result, ok, err, value_error, Exec, pure, ◌>>=◌, >>=_cases}
use metal_native.Base.Int.{ℤ, pos, prod, int_eq}
use metal_native.Dtypes.{DType}
use metal_native.Tensor.{Backend, Tensor, shape, size, ndim, item}
use metal_native.Tensor.Make.{Input, tensor_init, make_handle, built}

module _ (B : Backend) where
  -- An end with a tensor has this shape in its cache.
  abbrev Caches : Option (List ℤ) → Result (Tensor B) × B.World → Type 0
  Caches s (ok t, w) = t.shape_cache ≡ s
  Caches s (err e, w) = Unit

  made-Caches :
      (s : Option (List ℤ)) (g : Bool) (m : Exec B.World (B.Handle × DType)) (w : B.World)
      → Caches s ((m >>= λ made. pure (built B made.0 s made.1 g)) w)
  made-Caches s g m w =
      >>=_cases (λ made. pure (built B made.0 s made.1 g)) (Caches s) m w (λ a e. refl) (λ x e. tt)

  init-Caches :
      (input : Option (Input B)) (s : Option (List ℤ)) (d : Option DType) (g : Bool) (w : B.World)
      → Caches s (tensor_init B input s d g w)
  unfolding tensor_init
  init-Caches input s d g w =
      >>=_cases (λ u. make_handle B input s d g >>= λ made. pure (built B made.0 s made.1 g))
        (Caches s) B.import_c w
        (λ u e. made-Caches s g (make_handle B input s d g) (B.import_c w).1) (λ x e. tt)

  -- A tensor made with the shape `s` reports `s`, whatever shape its handle has: an entry -1, which
  -- NumPy infers, stays -1. So its size is the product of the entries as they were given, and
  -- `item` raises ValueError where that is not 1, without a call of the extension module.
  pub tensor_init-shape :
      (input : Option (Input B)) (s : List ℤ) (d : Option DType) (g : Bool) (v w : B.World)
      (t : Tensor B)
      → tensor_init B input (some s) d g v ≡ (ok t, w)
      → (shape B t ≡ (s, t))
        × (size B t ≡ prod s)
        × ((prod s == pos 1) ≡ false → item B t w ≡ (err value_error, w))
  unfolding shape size item
  tensor_init-shape input s d g v w t h =
      let c : t.shape_cache ≡ some s =
        subst (Caches (some s)) h (init-Caches input (some s) d g v) in
      (rw c, rw c, λ n. rw (c, n))

  -- The second read of the shape gives the same shape and changes nothing; with nothing cached it is
  -- the shape of the handle, and `ndim` counts its entries.
  shape-shape :
      (t : Tensor B)
      → (shape B (shape B t).1 ≡ shape B t)
        × (t.shape_cache ≡ none → (shape B t).0 ≡ B.tensor_shape t.handle)
        × (ndim B t ≡ length (shape B (shape B t).1).0)
  unfolding shape ndim
  shape-shape t = elim (Option-cases t.shape_cache) [
    | inl c ↦ (rw c, λ n. rw c, rw c)
    | inr (s, c) ↦ (rw c, λ n. cc, rw c)
  ]
