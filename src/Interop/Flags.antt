-- ===== src/Interop/Flags.antt =====
-- interop.py: the flag `requires_grad` of what `from_torch` returns.
use metal_native.Base.{
  ◌≡◌, refl, Bool, true, false, Option, none, some, List, if◌then◌else◌, ◌==◌, string_eq,
}
use metal_native.Base.Dict.{lookup}
use metal_native.Base.Exec.{Result, ok, err, Exn, Exec, pure, try_except, ◌>>=◌, ◌>>◌, >>=_cases}
use metal_native.Base.Int.{ℤ}
use metal_native.Dtypes.{DType}
use metal_native.Tensor.{Backend, Tensor, wrap}
use metal_native.Tensor.Make.{Input, ndarray, tensor_init, make_handle, built}
use metal_native.Interop.{
  PyTorch, np_dtype_map, wrapped, copy_mps, from_mps, copy_numpy, from_cpu, or_inherited,
  contiguous_or_copy, moved_to_cpu, from_torch,
}

module _ (B : Backend) where
  -- A normal end is with a tensor of this flag.
  abbrev pub Flagged : Bool → Result (Tensor B) × B.World → Type 0
  Flagged g (ok t, w) = t.requires_grad ≡ g
  Flagged g (err e, w) = Unit

  abbrev Flags : Bool → Exec B.World (Tensor B) → Type 0
  Flags g m = (w : B.World) → Flagged g (m w)

  >>=-Flags :
      {A : Type 0} (g : Bool) (m : Exec B.World A) (f : A → Exec B.World (Tensor B))
      → ((a : A) → Flags g (f a))
      → Flags g (m >>= f)
  >>=-Flags g m f k w = >>=_cases f (Flagged g) m w (λ a e. k a (m w).1) (λ x e. tt)

  outcome-Flags :
      (g : Bool) (r : Result (Tensor B)) (v w : B.World) (handler : Exn → Exec B.World (Tensor B))
      → Flagged g (r, v)
      → ((e : Exn) → Flags g (handler e))
      → Flagged g (try_except (λ u. (r, v)) handler w)
  outcome-Flags g (ok t) v w handler h k = h
  outcome-Flags g (err e) v w handler h k = k e v

  try_except-Flags :
      (g : Bool) (m : Exec B.World (Tensor B)) (handler : Exn → Exec B.World (Tensor B))
      → Flags g m
      → ((e : Exn) → Flags g (handler e))
      → Flags g (try_except m handler)
  try_except-Flags g m handler h k w = outcome-Flags g (m w).0 (m w).1 w handler (h w) k

  if-Flags :
      (g b : Bool) (m n : Exec B.World (Tensor B))
      → Flags g m
      → Flags g n
      → Flags g (if b then m else n)
  if-Flags g true m n h k = h
  if-Flags g false m n h k = k

  tensor_init-Flags :
      (input : Option (Input B)) (shape : Option (List ℤ)) (dtype : Option DType) (g : Bool)
      → Flags g (tensor_init B input shape dtype g)
  unfolding tensor_init
  tensor_init-Flags input shape dtype g =
      >>=-Flags g B.import_c
        (λ u. make_handle B input shape dtype g >>= λ made. pure (built B made.0 shape made.1 g))
        (λ u.
          >>=-Flags g (make_handle B input shape dtype g)
            (λ made. pure (built B made.0 shape made.1 g)) (λ made w. refl))

  module _ (T : PyTorch B) where
    wrapped-Flags : (g : Bool) (m : Exec B.World B.Handle) → Flags g (wrapped B T g m)
    wrapped-Flags g m = >>=-Flags g m (λ h. pure (wrap B h g)) (λ h w. refl)

    from_mps-Flags : (g : Bool) (t : T.Obj) → Flags g (from_mps B T g t)
    from_mps-Flags g t =
        let dtype = T.dtype_name t in
        let copied = copy_mps B T t dtype (lookup dtype np_dtype_map) in
        try_except-Flags g (wrapped B T g (T.tensor_from_mps_ptr t dtype))
          (λ e. wrapped B T g copied) (wrapped-Flags g (T.tensor_from_mps_ptr t dtype))
          (λ e. wrapped-Flags g copied)

    copy_numpy-Flags : (g : Bool) (t : T.Obj) → Flags g (copy_numpy B T g t)
    copy_numpy-Flags g t =
        >>=-Flags g (T.as_numpy t) (λ a. tensor_init B (some (ndarray a)) none none g)
          (λ a. tensor_init-Flags (some (ndarray a)) none none g)

    from_cpu-Flags : (g : Bool) (t : T.Obj) → Flags g (from_cpu B T g t)
    from_cpu-Flags g t =
        let shared = T.to_dlpack t >>= λ capsule. T.tensor_from_dlpack capsule g in
        if-Flags g (T.is_contiguous t) (try_except (wrapped B T g shared) (λ e. copy_numpy B T g t))
          (copy_numpy B T g t)
          (try_except-Flags g (wrapped B T g shared) (λ e. copy_numpy B T g t)
            (wrapped-Flags g shared) (λ e. copy_numpy-Flags g t))
          (copy_numpy-Flags g t)

    -- By whichever path `from_torch` makes the tensor, shared on MPS, copied into a buffer or from the
    -- CPU, by DLPack, or by NumPy after a failure, its flag `requires_grad` is the one that was
    -- asked for, or PyTorch's if none was.
    pub from_torch-requires_grad :
        (t : T.Obj) (asked : Option Bool) (w : B.World)
        → Flagged (or_inherited B T asked t) (from_torch B T t asked w)
    unfolding from_torch
    from_torch-requires_grad t asked =
        let g = or_inherited B T asked t in
        let path =
          if T.device_type t == "mps"
          then contiguous_or_copy B T t >>= from_mps B T g
          else moved_to_cpu B T t >>= from_cpu B T g in
        >>=-Flags g (T.import_torch >> B.import_c) (λ u. path)
          (λ u.
            if-Flags g (T.device_type t == "mps") (contiguous_or_copy B T t >>= from_mps B T g)
              (moved_to_cpu B T t >>= from_cpu B T g)
              (>>=-Flags g (contiguous_or_copy B T t) (from_mps B T g) (from_mps-Flags g))
              (>>=-Flags g (moved_to_cpu B T t) (from_cpu B T g) (from_cpu-Flags g)))
