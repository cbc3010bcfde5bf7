-- ===== src/Optim/Adam.antt =====
-- python/metal_native/optim/adam.py: the state of MetalAdam and MetalAdamW, and what each does to
-- one parameter. The whole step is in Step.
pub mod Step
pub mod Frame
pub mod Decay
mod Rules
pub mod Counts
pub mod MaxState
pub mod StateDict
pub mod TensorParams
mod Tests
use metal_native.Base.{
  ℕ, ◌+◌, Bool, true, false, not, ◌&&◌, Option, none, some, List, [], ◌∷◌, if◌then◌else◌, ◌==◌,
  nat_eq,
}
use metal_native.Base.Dict.{Dict, lookup, has_key, insert}
use metal_native.Base.Exec.{Exn, Result, ok, err, value_error, key_error, Exec, raise, ◌>>=◌, ◌>>◌}
use metal_native.Optim.Numeric.{Numeric}
use metal_native.Optim.Param.{
  Param, for_slot, grad, Heap, TensorOf, write_back, zero_grad, for_groups,
}

module _ (N : Numeric) where
  open N use {
    Float, zero_f, one_f, neg_f, sub_f, mul_f, pow_f, lt_f, le_f, eq_f, Array, zeros_like, add, div,
    scale, add_scalar, div_scalar, square, sqrt, maximum,
  }

  -- The arguments of `MetalAdam.__init__` but the parameters.
  pub record Options : Type 0 where
    pub lr : Float
    pub beta1 : Float
    pub beta2 : Float
    pub eps : Float
    pub weight_decay : Float
    pub amsgrad : Bool

  -- `self.state[param]`; the key 'v_max' is there only under AMSGrad.
  pub record Moments : Type 0 where
    pub m : Array
    pub v : Array
    pub v_max : Option Array

  -- The optimizer and the objects it refers to. `state` is the address of a dict in `dicts`, since
  -- `state_dict` hands out the dict itself. Parameter objects stand for their identity.
  pub record Adam : Type 0 where
    pub options : Options
    pub param_groups : List (List ℕ)
    pub state : ℕ
    pub step_count : ℕ
    pub dicts : ℕ → Dict ℕ Moments
    pub heap : Heap N

  -- `self.state`, read and written in place
  abbrev pub current : Adam → Dict ℕ Moments
  current o = o.dicts o.state

  abbrev pub with_current : Adam → Dict ℕ Moments → Adam
  with_current o d = record o { dicts = λ a. if o.state == a then d else o.dicts a }

  -- The checks of `__init__`, in order.
  unfoldable pub check_options : Options → Result (Unit {0})
  check_options o =
      if lt_f o.lr zero_f
      then err value_error
      else if lt_f o.eps zero_f
      then err value_error
      else if not (le_f zero_f o.beta1 && lt_f o.beta1 one_f)
      then err value_error
      else if not (le_f zero_f o.beta2 && lt_f o.beta2 one_f)
      then err value_error
      else if lt_f o.weight_decay zero_f
      then err value_error
      else ok tt

  -- `MetalAdam(params, ...)`, with its empty state dict at address `a`
  unfoldable pub adam_init : Options → List ℕ → ℕ → (ℕ → Dict ℕ Moments) → Heap N → Result Adam
  unfolding check_options
  adam_init o params a dicts heap = elim (check_options o) [
    | err e ↦ err e
    | ok _ ↦ ok (record {
      options = o;
      param_groups = params ∷ [];
      state = a;
      step_count = 0;
      dicts = λ b. if a == b then [] else dicts b;
      heap = heap;
    })
  ]

  -- `np.zeros_like(grad)` for each moment of a parameter that has no state yet
  abbrev fresh : Options → Array → Moments
  fresh o g = record {
    m = zeros_like g;
    v = zeros_like g;
    v_max = if o.amsgrad then some (zeros_like g) else none;
  }

  unfoldable pub ensure_state : ℕ → Array → Adam → Adam
  ensure_state i g o =
      if has_key i (current o) then o else with_current o (insert i (fresh o.options g) (current o))

  -- `state['m'] = ...; state['v'] = ...`
  unfoldable pub next_moments : Options → Array → Moments → Moments
  next_moments o g s = record s {
    m = add (scale o.beta1 s.m) (scale (sub_f one_f o.beta1) g);
    v = add (scale o.beta2 s.v) (scale (sub_f one_f o.beta2) (square g));
  }

  -- `state['v_max'] = np.maximum(state['v_max'], state['v'])`, a KeyError where there is none;
  -- beside it the array that is corrected for bias.
  unfoldable pub next_max : Options → Moments → Result (Array × Moments)
  next_max o s =
      if o.amsgrad
      then elim s.v_max [
        | none ↦ err key_error
        | some x ↦ let y = maximum x s.v in ok (y, record s { v_max = some y })
      ]
      else ok (s.v, s)

  -- `-self.lr * m_hat / (np.sqrt(v_hat) + self.eps)` at step `t`
  abbrev pub update_of : Options → ℕ → Array → Array → Array
  update_of o t m v =
      div (scale (neg_f o.lr) (div_scalar m (sub_f one_f (pow_f o.beta1 t))))
        (add_scalar (sqrt (div_scalar v (sub_f one_f (pow_f o.beta2 t)))) o.eps)

  -- What is written stays written where 'v_max' is missing.
  unfoldable pub write_max : ℕ → Moments → Result (Array × Moments) → Exec Adam (Array × Array)
  write_max i s (err e) o = (err e, with_current o (insert i s (current o)))
  write_max i s (ok (v, s')) o = (ok (s'.m, v), with_current o (insert i s' (current o)))

  -- The lines that write the moments of `state = self.state[param]`.
  unfoldable pub write_moments : ℕ → Array → Option Moments → Exec Adam (Array × Array)
  unfolding next_moments next_max write_max
  write_moments i g none o = (err key_error, o)
  write_moments i g (some s) o =
      let s' = next_moments o.options g s in write_max i s' (next_max o.options s') o

  -- The new entry is made from the gradient `g`, the moments from `g'`.
  unfoldable pub moments_step : ℕ → Array → Array → Exec Adam (Array × Array)
  unfolding ensure_state write_moments
  moments_step i g g' o =
      let o' = ensure_state i g o in write_moments i g' (lookup i (current o')) o'

  -- `if not hasattr(param, 'grad') or param.grad is None: continue`
  abbrev pub with_grad : (ℕ → Array → Exec Adam (Unit {0})) → ℕ → Exec Adam (Unit {0})
  with_grad body i o = for_slot (grad N (o.heap i)) (ok tt, o) (λ g. body i g o)

  module _ (tensor_of : TensorOf N) where
    abbrev pub with_heap : Result (Heap N) → Exec Adam (Unit {0})
    with_heap (err e) o = (err e, o)
    with_heap (ok h) o = (ok tt, record o { heap = h })

    unfoldable pub store_param : ℕ → Array → Exec Adam (Unit {0})
    unfolding write_back
    store_param i a o = with_heap (write_back N tensor_of o.heap i a) o

    -- The lines that both steps share: the moments, from the gradient `g'`, and the new value, the
    -- update added to `p`.
    unfoldable pub work : ℕ → Array → Array → Array → Exec Adam (Unit {0})
    unfolding moments_step store_param
    work i g g' p o =
        (do
          mv ← moments_step i g g'
          store_param i (add p (update_of o.options o.step_count mv.0 mv.1)))
          o

    abbrev pub decays : Adam → Bool
    decays o = not (eq_f o.options.weight_decay zero_f)

    -- The body of the loop of `MetalAdam.step` for a parameter with gradient `g`: the decay is added
    -- to the gradient.
    unfoldable pub adam_body : ℕ → Array → Exec Adam (Unit {0})
    unfolding work
    adam_body i g o =
        work i g (if decays o then add g (scale o.options.weight_decay (o.heap i).value) else g)
          (o.heap i).value o

    -- The body of the loop of `MetalAdamW.step`: the decay scales the parameter.
    unfoldable pub adamw_body : ℕ → Array → Exec Adam (Unit {0})
    unfolding work
    adamw_body i g o =
        work i g g
          (if decays o
            then scale (sub_f one_f (mul_f o.options.lr o.options.weight_decay)) (o.heap i).value
            else (o.heap i).value)
          o
