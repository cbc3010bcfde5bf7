-- ===== src/Dtypes/Parse.antt =====
-- dtypes.py: what `get_dtype` accepts and how it fails.
use text.Mathlib.TextEquality.{eq_iff}
use metal_native.Base.{
  String, ◌≡◌, refl, ◌⊎◌, ◌≢◌, inl, inr, some, [], ◌∷◌, arith, ◌==◌, Bool-cases, Option-cases, All,
  string_eq,
}
use metal_native.Base.Dict.{Dict, lookup}
use metal_native.Base.Exec.{
  Exn, ok, err, value_error, type_error, from_option-eq-ok, Result-cases, from_option-eq-err,
}
use metal_native.Dtypes.{
  DType, dtype_str, Numpy, IsNumpy, DtypeArg, a_dtype, a_name, with_dtype, other, dtype_map,
  numpy_to_dtype, numpy_to_dtype_map, get_dtype, bind_np, as_value_error,
}

abbrev NamedBy : String × DType → Type 0
NamedBy (s, d) = dtype_str d ≡ s

dtype_map-NamedBy : All NamedBy dtype_map
unfolding dtype_map
dtype_map-NamedBy = (refl, (refl, (refl, (refl, (refl, (refl, (refl, (refl, (refl, tt)))))))))

lookup-NamedBy :
    (s : String) (d : DType) (m : Dict String DType)
    → All NamedBy m
    → lookup s m ≡ some d
    → dtype_str d ≡ s
lookup-NamedBy s d [] u h = cc
lookup-NamedBy s d ((k, e) ∷ m) u h = elim (Bool-cases (k == s)) [
  | inl same ↦ ground (arith, u.0, eq_iff k s)
  | inr differ ↦ lookup-NamedBy s d m u.1 (ground arith)
]

as_value_error-eq-err :
    (x e : Exn) → as_value_error (err x) ≡ err e → (e ≡ value_error) ⊎ ((x ≡ e) × (e ≢ type_error))
as_value_error-eq-err type_error e h = inl cc
as_value_error-eq-err value_error e h = inl cc
as_value_error-eq-err x e h = inr (cc, λ q. cc)

as_value_error_from_np :
    (N : Numpy) (o : N.Obj) (t : String) (e : Exn)
    → N.dtype_of o ≡ ok t
    → as_value_error (numpy_to_dtype N o) ≡ err e
    → e ≡ value_error
unfolding numpy_to_dtype
as_value_error_from_np N o t e p h = elim (Option-cases (lookup t numpy_to_dtype_map)) [
  | inl missing ↦ cc (rw (p, bind_np, missing) at h)
  | inr (d, found) ↦ cc (rw (p, bind_np, found) at h)
]

module _ (N : Numpy) where
  -- Whatever name `get_dtype` accepts, `str` of the dtype that it returns is that name.
  str-get_dtype : (s : String) (d : DType) → get_dtype N (a_name s) ≡ ok d → dtype_str d ≡ s
  unfolding get_dtype
  str-get_dtype s d h =
      lookup-NamedBy s d dtype_map dtype_map-NamedBy (from_option-eq-ok _ value_error h)

  -- An exception of `np.dtype` that `get_dtype` lets through: any, for an object with a `dtype`
  -- attribute; any but a TypeError, for other objects.
  abbrev pub Escapes : DtypeArg N → Exn → Type 0
  Escapes (with_dtype o) e = N.dtype_of o ≡ err e
  Escapes (other o) e = (N.dtype_of o ≡ err e) × (e ≢ type_error)
  Escapes _ e = ⊥

  -- `get_dtype` raises a ValueError, or an exception of `np.dtype` on the argument itself: any
  -- exception where the argument has a `dtype` attribute, else any but a TypeError.
  pub get_dtype_errors :
      IsNumpy N
      → (a : DtypeArg N) (e : Exn) → get_dtype N a ≡ err e
      → (e ≡ value_error) ⊎ Escapes a e
  unfolding get_dtype
  get_dtype_errors L (a_dtype d) e h = cc
  get_dtype_errors L (a_name s) e h = inl (from_option-eq-err _ value_error h)
  get_dtype_errors L (with_dtype o) e h = elim (Result-cases (N.dtype_of o)) [
    | inl (t, p) ↦
        inl
          (from_option-eq-err _ value_error (rw (p, bind_np, L.dtype_of-dtype_obj t, bind_np) at h))
    | inr (x, p) ↦ inr (cc (p, (rw (p, bind_np) at h)))
  ]
  get_dtype_errors L (other o) e h = elim (Result-cases (N.dtype_of o)) [
    | inl (t, p) ↦ inl (
        as_value_error_from_np N (N.dtype_obj t) t e (L.dtype_of-dtype_obj t)
          (rw (p, bind_np) at h))
    | inr (x, p) ↦ ground (arith, as_value_error-eq-err x e (rw (p, bind_np) at h))
  ]
