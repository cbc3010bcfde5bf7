-- ===== src/Tensor/Registry.antt =====
-- tensor.py: the overrides that `__torch_function__` finds, and what it does without one.
use metal_native.Base.{
  ◌≡◌, ◌∙◌, refl, sym, ap, Bool, true, false, Option, none, some, List, if◌then◌else◌,
}
use mathlib.Core.Path.{subst}
use metal_native.Base.Dict.{lookup, lookup-insert}
use metal_native.Base.Exec.{Result, ok, err, not_implemented, try_except, raise}
use metal_native.Tensor.{Backend}
use metal_native.Tensor.TorchFunction.{
  Torch, Value, Impl, Overrides, register_torch_override, torch_function, via_torch, dispatch,
  or_no_kwargs,
}

module _ (B : Backend) (T : Torch B) where
  by_test :
      (impl : Impl B T) (o : Option (Impl B T)) (g : T.Func) (args : List (Value B T))
      (kwargs : T.Kwargs) (b : Bool)
      → dispatch B T (if b then some impl else o) g args kwargs
        ≡ (if b then impl args kwargs else dispatch B T o g args kwargs)
  unfolding dispatch
  by_test impl o g args kwargs true = refl
  by_test impl o g args kwargs false = refl

  -- After an override for `func` is registered, a call of `func` is the override on the arguments,
  -- its exceptions included, and a call of another function is what it was before.
  torch_function-register :
      (func g : T.Func) (impl : Impl B T) (overrides : Overrides B T) (args : List (Value B T))
      (kwargs : Option T.Kwargs)
      → torch_function B T (register_torch_override B T func impl overrides) g args kwargs ≡ (
          if T.func_eq.test func g
          then impl args (or_no_kwargs B T kwargs)
          else torch_function B T overrides g args kwargs)
  unfolding torch_function register_torch_override
  torch_function-register func g impl overrides args kwargs =
      ap (λ o. dispatch B T o g args (or_no_kwargs B T kwargs))
        (lookup-insert ⦃e = T.func_eq⦄ func g impl overrides)
      ∙ by_test impl (lookup ⦃e = T.func_eq⦄ g overrides) g args (or_no_kwargs B T kwargs)
          (T.func_eq.test func g)

  -- An end by no exception but NotImplementedError.
  abbrev pub OnlyNotImplemented : Result (Value B T) × B.World → Type 0
  OnlyNotImplemented (ok a, w) = Unit
  OnlyNotImplemented (err e, w) = e ≡ not_implemented

  translated :
      (r : Result (Value B T)) (w v : B.World)
      → OnlyNotImplemented (try_except (λ u. (r, v)) (λ e. raise not_implemented) w)
  translated (ok a) w v = tt
  translated (err e) w v = refl

  -- Without an override, a call through PyTorch ends by no exception but NotImplementedError,
  -- whatever PyTorch and the extension module raise.
  torch_function_lem :
      (overrides : Overrides B T) (func : T.Func) (args : List (Value B T))
      (kwargs : Option T.Kwargs) (w : B.World)
      → lookup ⦃e = T.func_eq⦄ func overrides ≡ none
      → OnlyNotImplemented (torch_function B T overrides func args kwargs w)
  unfolding torch_function dispatch
  torch_function_lem overrides func args kwargs w h =
      let m = via_torch B T func args (or_no_kwargs B T kwargs) in
      subst (λ o. OnlyNotImplemented (dispatch B T o func args (or_no_kwargs B T kwargs) w)) (sym h)
        (translated (m w).0 w (m w).1)
