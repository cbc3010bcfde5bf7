-- ===== src/Dtypes/Roundtrip.antt =====
-- dtypes.py: `dtype_to_numpy` and `numpy_to_dtype` are inverse where both are defined.
use text.Mathlib.TextEquality.{eq_iff}
use metal_native.Base.{
  ◌≡◌, refl, inl, inr, true, some, List, [], ◌∷◌, arith, ◌==◌, Bool-cases, All, string_eq,
}
use metal_native.Base.Dict.{Dict, lookup}
use metal_native.Base.Exec.{ok, value_error, from_option-eq-ok, Result-cases}
use metal_native.Dtypes.{
  DType, dtype_eq, NpDType, Numpy, IsNumpy, lookup_dtype, dtype_to_numpy, numpy_to_dtype,
  numpy_dtype_map, numpy_to_dtype_map, bind_np,
}

-- Each entry of a table of NumPy dtypes is undone by `_NUMPY_TO_DTYPE_MAP`.
abbrev Undone : DType × NpDType → Type 0
Undone (d, t) = lookup t numpy_to_dtype_map ≡ some d

numpy_dtype_map-Undone : All Undone numpy_dtype_map
unfolding numpy_dtype_map numpy_to_dtype_map
numpy_dtype_map-Undone = (refl, (refl, (refl, (refl, (refl, (refl, (refl, (refl, tt))))))))

lookup_dtype-Undone :
    (d : DType) (t : NpDType) (m : List (DType × NpDType))
    → All Undone m
    → lookup_dtype d m ≡ some t
    → (d' : DType) × (lookup t numpy_to_dtype_map ≡ some d') × (dtype_eq d' d ≡ true)
lookup_dtype-Undone d t [] u h = cc
lookup_dtype-Undone d t ((e, s) ∷ m) u h = elim (Bool-cases (dtype_eq e d)) [
  | inl same ↦ (e, ground (arith, u.0), same)
  | inr differ ↦ lookup_dtype-Undone d t m u.1 (ground arith)
]

-- Each entry of `_NUMPY_TO_DTYPE_MAP` is undone by `_NUMPY_DTYPE_MAP`.
abbrev Redone : NpDType × DType → Type 0
Redone (t, d) = lookup_dtype d numpy_dtype_map ≡ some t

numpy_to_dtype_map-Redone : All Redone numpy_to_dtype_map
unfolding numpy_dtype_map numpy_to_dtype_map
numpy_to_dtype_map-Redone = (refl, (refl, (refl, (refl, (refl, (refl, (refl, (refl, tt))))))))

lookup-Redone :
    (d : DType) (t : NpDType) (m : Dict NpDType DType)
    → All Redone m
    → lookup t m ≡ some d
    → lookup_dtype d numpy_dtype_map ≡ some t
lookup-Redone d t [] u h = cc
lookup-Redone d t ((s, e) ∷ m) u h = elim (Bool-cases (s == t)) [
  | inl same ↦ ground (arith, u.0, eq_iff s t)
  | inr differ ↦ lookup-Redone d t m u.1 (ground arith)
]

module _ (N : Numpy) (L : IsNumpy N) where
  -- A dtype that `dtype_to_numpy` accepts comes back from its NumPy class as an equal dtype.
  pub numpy_to_dtype-dtype_to_numpy :
      (d : DType) (t : NpDType)
      → dtype_to_numpy d ≡ ok t
      → (d' : DType) × (numpy_to_dtype N (N.scalar_class t) ≡ ok d') × (dtype_eq d' d ≡ true)
  unfolding dtype_to_numpy numpy_to_dtype
  numpy_to_dtype-dtype_to_numpy d t h =
      let (d', found, same) =
        lookup_dtype-Undone d t numpy_dtype_map numpy_dtype_map-Undone
          (from_option-eq-ok _ value_error h) in
      (d', rw (L.dtype_of-scalar_class, bind_np) (rw found), same)

  -- A NumPy object that `numpy_to_dtype` accepts stands for the NumPy dtype that `dtype_to_numpy`
  -- gives back.
  dtype_to_numpy-numpy_to_dtype :
      (o : N.Obj) (d : DType)
      → numpy_to_dtype N o ≡ ok d
      → (t : NpDType) × (N.dtype_of o ≡ ok t) × (dtype_to_numpy d ≡ ok t)
  unfolding dtype_to_numpy numpy_to_dtype
  dtype_to_numpy-numpy_to_dtype o d h = elim (Result-cases (N.dtype_of o)) [
    | inl (t, e) ↦ (
      t,
      e,
      rw (
          lookup-Redone d t numpy_to_dtype_map numpy_to_dtype_map-Redone
            (from_option-eq-ok _ value_error (rw (e, bind_np) at h))),
    )
    | inr (x, e) ↦ absurd (cc (rw (e, bind_np) at h))
  ]
