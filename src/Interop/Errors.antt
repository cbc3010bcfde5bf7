-- ===== src/Interop/Errors.antt =====
-- interop.py and dlpack_bridge.py: what is raised where a conversion fails.
use metal_native.Base.{◌≡◌, ◌∙◌, ap, refl, false}
use metal_native.Base.Exec.{
  Exn, Result, ok, err, type_error, runtime_error, Exec, raise, try_except, then_run, ◌>>◌,
}
use metal_native.Tensor.{Backend, Tensor}
use metal_native.Interop.{
  PyTorch, a_tensor, another, wrapped, by_dlpack, by_numpy, to_torch, to_dlpack, from_dlpack,
}

-- An end by no exception but this one.
abbrev pub Only : {A : Type 0} → Exn → Result A → Type 0
Only e (ok a) = Unit
Only e (err x) = x ≡ e

outcome-Only :
    {S A : Type 0} (e : Exn) (r : Result A) (s t : S)
    → Only e (try_except (λ u. (r, s)) (λ x. raise e) t).0
outcome-Only e (ok a) s t = tt
outcome-Only e (err x) s t = refl

module _ (B : Backend) (T : PyTorch B) where
  -- Whatever the extension module raises, its import included, an export of a tensor by the bridge
  -- ends by no exception but RuntimeError, and so does an import of a capsule, also of one that is no
  -- DLPack object; an export of anything else raises TypeError and calls nothing.
  pub bridge_errors :
      (t : Tensor B) (capsule : T.Capsule) (w : B.World)
      → Only runtime_error (to_dlpack B T (a_tensor t) w).0
        × Only runtime_error (from_dlpack B T capsule w).0
        × (to_dlpack B T another w ≡ (err type_error, w))
  unfolding to_dlpack from_dlpack
  bridge_errors t capsule w =
      let export = (B.import_c >> T.tensor_to_dlpack t.handle) w in
      let imported = wrapped B T false (B.import_c >> T.tensor_from_dlpack capsule false) w in
      (
        outcome-Only runtime_error export.0 export.1 w,
        outcome-Only runtime_error imported.0 imported.1 w,
        refl,
      )

  fallback :
      (r : Result T.Obj) (s v w : B.World) (t : Tensor B) (o : T.Obj)
      → ((u : B.World) → (by_numpy B T t u).0 ≡ ok o)
      → (p : T.Obj) × ((try_except (λ i. (r, s)) (λ e. by_numpy B T t) w).0 ≡ ok p)
  fallback (ok p) s v w t o h = (p, refl)
  fallback (err e) s v w t o h = (o, h s)

  -- Where PyTorch can be imported and the way by NumPy gives a tensor, `to_torch` of a Tensor returns,
  -- whatever DLPack, the extension module or `requires_grad_` raise on the first way.
  to_torch-Returns :
      (t : Tensor B) (v w : B.World) (o : T.Obj)
      → T.import_torch v ≡ (ok tt, w)
      → ((u : B.World) → (by_numpy B T t u).0 ≡ ok o)
      → (p : T.Obj) × ((to_torch B T (a_tensor t) v).0 ≡ ok p)
  unfolding to_torch
  to_torch-Returns t v w o i h =
      let first = by_dlpack B T t w in
      let (p, e) = fallback first.0 first.1 v w t o h in
      let rest : Exec B.World T.Obj = try_except (by_dlpack B T t) (λ x. by_numpy B T t) in
      (p, ap (λ r. (then_run (λ u. rest) r).0) i ∙ e)
