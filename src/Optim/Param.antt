-- ===== src/Optim/Param.antt =====
-- The parameter objects that the optimizers read and write, as optim/*.py test for their
-- attributes, and the loop over parameter groups.
pub mod Loops
use metal_native.Base.{ℕ, Bool, true, false, List, [], ◌∷◌, if◌then◌else◌, ◌==◌, nat_eq}
use metal_native.Base.Exec.{Exn, Result, ok, err, type_error, Exec, ◌>>=◌, ◌>>◌}
use metal_native.Dtypes.{DType}
use metal_native.Optim.Numeric.{Numeric}

-- An attribute: missing, None, or a value.
pub data Slot (A : Type 0) : Type 0 where
  absent is_none : Slot A
  holds : A → Slot A

-- What the loop does for an attribute `grad` that is missing or None, and for one that is neither.
abbrev pub for_slot {ℓ} : {A : Type 0} {R : Type ℓ} → Slot A → R → (A → R) → R
for_slot absent x f = x
for_slot is_none x f = x
for_slot (holds a) x f = f a

-- What the write-back finds: a `data` attribute, item assignment, or neither of them, as for
-- `metal_native.Tensor`.
pub data Target : Type 0 where
  data_attribute item_assignment neither : Target

module _ (N : Numeric) where
  open N use {Array}

  -- `grad` is a property over `_grad` (as on Tensor) or an attribute of its own. `value` is what
  -- `param.numpy() if hasattr(param, 'numpy') else param` gives.
  pub record Param : Type 0 where
    pub private_grad : Slot Array
    pub own_grad : Slot Array
    pub grad_is_property : Bool
    pub value : Array
    pub dtype : DType
    pub target : Target

  -- `param.grad`
  abbrev pub grad : Param → Slot Array
  grad p = if p.grad_is_property then p.private_grad else p.own_grad

  -- The objects by their identity.
  abbrev pub Heap : Type 0
  Heap = ℕ → Param

  abbrev pub update : Heap → ℕ → Param → Heap
  update h i p j = if i == j then p else h j

  -- What `Tensor(data=param_np, dtype=param.dtype)` holds, or the exception that it raises.
  abbrev pub TensorOf : Type 0
  TensorOf = Array → DType → Result Array

  -- The last lines of a step: `param.data = Tensor(...)` or `param[:] = param_np`.
  unfoldable pub write_back : TensorOf → Heap → ℕ → Array → Result Heap
  write_back tensor_of h i a = elim (h i).target [
    | data_attribute ↦ elim (tensor_of a (h i).dtype) [
      | ok stored ↦ ok (update h i (record (h i) { value = stored }))
      | err e ↦ err e
    ]
    | item_assignment ↦ ok (update h i (record (h i) { value = a }))
    | neither ↦ err type_error
  ]

  -- `if hasattr(param, '_grad') and param._grad is not None: param._grad = None`
  abbrev pub cleared : Slot Array → Slot Array
  cleared (holds g) = is_none
  cleared s = s

  abbrev pub clear : Heap → ℕ → Heap
  clear h i = update h i (record (h i) { private_grad = cleared (h i).private_grad })

  unfoldable pub clear_group : List ℕ → Heap → Heap
  clear_group [] h = h
  clear_group (i ∷ is) h = clear_group is (clear h i)

  -- `zero_grad`, which the optimizers share word by word
  unfoldable pub zero_grad : List (List ℕ) → Heap → Heap
  unfolding clear_group
  zero_grad [] h = h
  zero_grad (g ∷ gs) h = zero_grad gs (clear_group g h)

-- `for group in self.param_groups: for param in group['params']: ...`
module _ {S : Type 0} (body : ℕ → Exec S (Unit {0})) where
  unfoldable pub for_params : List ℕ → Exec S (Unit {0})
  for_params [] s = (ok tt, s)
  for_params (i ∷ is) s = (body i >> for_params is) s

  unfoldable pub for_groups : List (List ℕ) → Exec S (Unit {0})
  unfolding for_params
  for_groups [] s = (ok tt, s)
  for_groups (g ∷ gs) s = (for_params g >> for_groups gs) s
