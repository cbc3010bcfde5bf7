-- ===== src/Tensor/TorchFunction.antt =====
-- tensor.py: `from_torch`, `from_dlpack`, `torch`, the registry of overrides and
-- `__torch_function__`. PyTorch is a parameter.
use metal_native.Base.{Bool, false, Option, none, some, List, [], ◌∷◌, if◌then◌else◌, Eq}
use metal_native.Base.Dict.{Dict, lookup, insert}
use metal_native.Base.Exec.{
  Result, not_implemented, Exec, pure, raise, lift, try_except, ◌>>=◌, ◌>>◌,
}
use metal_native.Tensor.{Backend, Tensor, wrap}

pub record Torch (B : Backend) : Type 1 where
  -- The functions of PyTorch, the objects that are no Tensor, keyword arguments, DLPack capsules
  pub Func : Type 0
  pub func_eq : Eq Func
  pub Obj : Type 0
  pub Kwargs : Type 0
  pub Capsule : Type 0
  pub no_kwargs : Kwargs
  pub import_torch : Exec B.World (Unit {0})
  pub call : Func → List Obj → Kwargs → Exec B.World Obj
  pub is_tensor : Obj → Bool
  pub requires_grad : Obj → Result Bool
  pub is_cpu : Obj → Result Bool
  pub cpu : Obj → Exec B.World Obj
  pub to_dlpack : Obj → Exec B.World Capsule
  pub from_dlpack : B.Handle → Exec B.World Obj
  pub tensor_from_dlpack : Capsule → Bool → Exec B.World B.Handle

module _ (B : Backend) (T : Torch B) where
  pub data Value : Type 0 where
    tensor : Tensor B → Value
    object : T.Obj → Value

  -- `t.torch()`
  unfoldable pub torch : Tensor B → Exec B.World T.Obj
  torch t = T.import_torch >> T.from_dlpack t.handle

  abbrev or_inherited : Option Bool → T.Obj → Result Bool
  or_inherited none o = T.requires_grad o
  or_inherited (some g) o = Result.ok g

  abbrev on_cpu : T.Obj → Bool → Exec B.World T.Obj
  on_cpu o cpu = if cpu then pure o else T.cpu o

  unfoldable pub from_torch : T.Obj → Option Bool → Exec B.World (Tensor B)
  from_torch o requires_grad = do
    _ ← T.import_torch
    g ← lift (or_inherited requires_grad o)
    c ← lift (T.is_cpu o)
    p ← on_cpu o c
    _ ← B.import_c
    capsule ← T.to_dlpack p
    h ← T.tensor_from_dlpack capsule g
    pure (wrap B h g)

  unfoldable pub from_dlpack : T.Capsule → Exec B.World (Tensor B)
  from_dlpack capsule =
      (B.import_c >> T.tensor_from_dlpack capsule false) >>= λ h. pure (wrap B h false)

  abbrev pub Impl : Type 0
  Impl = List Value → T.Kwargs → Exec B.World Value

  -- `_TORCH_FUNCTION_OVERRIDES`
  abbrev pub Overrides : Type 0
  Overrides = Dict T.Func Impl

  -- `register_torch_override(torch_func)(impl)`
  unfoldable pub register_torch_override : T.Func → Impl → Overrides → Overrides
  register_torch_override func impl overrides = insert ⦃e = T.func_eq⦄ func impl overrides

  abbrev torch_arg : Value → Exec B.World T.Obj
  unfolding torch
  torch_arg (tensor t) = torch t
  torch_arg (object o) = pure o

  abbrev torch_args : List Value → Exec B.World (List T.Obj)
  torch_args [] = pure []
  torch_args (a ∷ args) = do o ← torch_arg a; rest ← torch_args args; pure (o ∷ rest)

  abbrev as_value : T.Obj → Exec B.World Value
  unfolding from_torch
  as_value o =
      if T.is_tensor o then (from_torch o none >>= λ t. pure (tensor t)) else pure (object o)

  -- What is under `try`.
  unfoldable pub via_torch : T.Func → List Value → T.Kwargs → Exec B.World Value
  unfolding torch from_torch
  via_torch func args kwargs = do
    _ ← T.import_torch
    objects ← torch_args args
    result ← T.call func objects kwargs
    as_value result

  abbrev pub or_no_kwargs : Option T.Kwargs → T.Kwargs
  or_no_kwargs none = T.no_kwargs
  or_no_kwargs (some k) = k

  unfoldable pub dispatch : Option Impl → T.Func → List Value → T.Kwargs → Exec B.World Value
  unfolding via_torch
  dispatch (some impl) func args kwargs = impl args kwargs
  dispatch none func args kwargs =
      try_except (via_torch func args kwargs) (λ e. raise not_implemented)

  unfoldable pub torch_function :
      Overrides → T.Func → List Value → Option T.Kwargs → Exec B.World Value
  unfolding dispatch
  torch_function overrides func args kwargs =
      dispatch (lookup ⦃e = T.func_eq⦄ func overrides) func args (or_no_kwargs kwargs)
