-- ===== src/Optim/Sgd.antt =====
-- python/metal_native/optim/sgd.py: MetalSGD.
pub mod Momentum
pub mod Velocity
pub mod Checks
pub mod Snapshots
mod Tests
use metal_native.Base.{
  ℕ, Bool, not, ◌&&◌, ◌||◌, Option, none, some, List, [], ◌∷◌, if◌then◌else◌, ◌==◌, nat_eq,
}
use metal_native.Base.Dict.{Dict, lookup, has_key, insert}
use metal_native.Base.Exec.{
  Result, ok, err, value_error, key_error, Exec, pure, lift, modify, ◌>>=◌, ◌>>◌,
}
use metal_native.Optim.Numeric.{Numeric}
use metal_native.Optim.Param
use metal_native.Optim.Param.{for_slot, grad, Heap, TensorOf, write_back, for_groups}

module _ (N : Numeric) where
  open N use {Float, zero_f, one_f, sub_f, lt_f, le_f, eq_f, Array, zeros_like, add, sub, scale}

  -- The arguments of `MetalSGD.__init__` but the parameters.
  pub record Options : Type 0 where
    pub lr : Float
    pub momentum : Float
    pub dampening : Float
    pub weight_decay : Float
    pub nesterov : Bool

  -- `state` is the address of a dict in `dicts`, since `state_dict` hands out the dict itself; the
  -- dict maps a parameter to its 'momentum_buffer'.
  pub record Sgd : Type 0 where
    pub options : Options
    pub param_groups : List (List ℕ)
    pub state : ℕ
    pub dicts : ℕ → Dict ℕ Array
    pub heap : Heap N

  -- `self.state`, read and written in place
  abbrev pub current : Sgd → Dict ℕ Array
  current s = s.dicts s.state

  abbrev pub with_current : Sgd → Dict ℕ Array → Sgd
  with_current s d = record s { dicts = λ a. if s.state == a then d else s.dicts a }

  -- `nesterov and (momentum <= 0 or dampening != 0)`
  abbrev pub nesterov_misused : Options → Bool
  nesterov_misused o = o.nesterov && (le_f o.momentum zero_f || not (eq_f o.dampening zero_f))

  unfoldable pub check_options : Options → Result (Unit {0})
  check_options o =
      if lt_f o.lr zero_f
      then err value_error
      else if lt_f o.momentum zero_f
      then err value_error
      else if lt_f o.weight_decay zero_f
      then err value_error
      else if nesterov_misused o
      then err value_error
      else ok tt

  -- `MetalSGD(params, ...)`, with its empty state dict at address `a`
  unfoldable pub sgd_init : Options → List ℕ → ℕ → (ℕ → Dict ℕ Array) → Heap N → Result Sgd
  unfolding check_options
  sgd_init o params a dicts heap = elim (check_options o) [
    | err e ↦ err e
    | ok _ ↦ ok (record {
      options = o;
      param_groups = params ∷ [];
      state = a;
      dicts = λ b. if a == b then [] else dicts b;
      heap = heap;
    })
  ]

  abbrev pub decays : Options → Bool
  decays o = not (eq_f o.weight_decay zero_f)

  -- `self.momentum != 0`
  abbrev pub has_momentum : Options → Bool
  has_momentum o = not (eq_f o.momentum zero_f)

  -- `grad_np + self.weight_decay * param_np`
  abbrev pub decayed : Options → Array → Array → Array
  decayed o p g = if decays o then add g (scale o.weight_decay p) else g

  -- `self.momentum * buf + (1 - self.dampening) * grad_np`
  abbrev pub next_buffer : Options → Array → Array → Array
  next_buffer o buf g = add (scale o.momentum buf) (scale (sub_f one_f o.dampening) g)

  -- The gradient that is applied, from the new buffer.
  abbrev pub direction : Options → Array → Array → Array
  direction o buf g = if o.nesterov then add g (scale o.momentum buf) else buf

  unfoldable pub ensure_buffer : ℕ → Array → Dict ℕ Array → Dict ℕ Array
  ensure_buffer i g d = if has_key i d then d else insert i (zeros_like g) d

  with_buffer : ℕ → Array → Option Array → Exec Sgd Array
  with_buffer i g none s = (err key_error, s)
  with_buffer i g (some buf) s =
      let b = next_buffer s.options buf g in
      (ok (direction s.options b g), with_current s (insert i b (current s)))

  -- The lines under `if self.momentum != 0`.
  unfoldable pub momentum_step : ℕ → Array → Exec Sgd Array
  unfolding ensure_buffer with_buffer
  momentum_step i g s =
      let s' = with_current s (ensure_buffer i g (current s)) in
      with_buffer i g (lookup i (current s')) s'

  unfoldable pub velocity : ℕ → Array → Exec Sgd Array
  unfolding momentum_step
  velocity i g s = if has_momentum s.options then momentum_step i g s else (ok g, s)

  module _ (tensor_of : TensorOf N) where
    abbrev pub with_heap : Result (Heap N) → Exec Sgd (Unit {0})
    with_heap (err e) s = (err e, s)
    with_heap (ok h) s = (ok tt, record s { heap = h })

    unfoldable pub store_param : ℕ → Array → Exec Sgd (Unit {0})
    unfolding write_back
    store_param i a s = with_heap (write_back N tensor_of s.heap i a) s

    -- The body of the loop for a parameter with gradient `g`.
    unfoldable pub sgd_body : ℕ → Array → Exec Sgd (Unit {0})
    unfolding velocity store_param
    sgd_body i g s =
        (do
          d ← velocity i (decayed s.options (s.heap i).value g)
          store_param i (sub (s.heap i).value (scale s.options.lr d)))
          s

    abbrev pub with_grad : ℕ → Exec Sgd (Unit {0})
    with_grad i s = for_slot (grad N (s.heap i)) (ok tt, s) (λ g. sgd_body i g s)

    unfoldable pub run_loop : Exec Sgd (Unit {0})
    unfolding for_groups sgd_body
    run_loop s = for_groups with_grad s.param_groups s

    abbrev pub call_closure {ℓ} : {L : Type ℓ} → Option (Exec Sgd L) → Exec Sgd (Option L)
    call_closure none s = (ok none, s)
    call_closure (some c) s = (do l ← c; pure (some l)) s

    -- `MetalSGD.step`
    unfoldable pub sgd_step {ℓ} : {L : Type ℓ} → Option (Exec Sgd L) → Exec Sgd (Option L)
    unfolding run_loop
    sgd_step closure = do loss ← call_closure closure; run_loop; pure loss

  -- `zero_grad`
  unfoldable pub zero_grad : Sgd → Sgd
  unfolding Param.zero_grad
  zero_grad s = record s { heap = Param.zero_grad N s.param_groups s.heap }

  -- `state_dict` hands out the dict and the list of the optimizer, no copies.
  pub record StateDict : Type 0 where
    pub state : ℕ
    pub param_groups : List (List ℕ)

  unfoldable pub state_dict : Sgd → StateDict
  state_dict s = record { state = s.state; param_groups = s.param_groups }

  -- On a dict that has both keys, as the one of `state_dict`.
  unfoldable pub load_state_dict : StateDict → Sgd → Sgd
  load_state_dict d s = record s { state = d.state; param_groups = d.param_groups }
