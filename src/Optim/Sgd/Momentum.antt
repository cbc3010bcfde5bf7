-- ===== src/Optim/Sgd/Momentum.antt =====
-- sgd.py: what a step does to the momentum buffers and to the parameters.
use metal_native.Base.{
  ℕ, ◌≡◌, ◌∙◌, ap, refl, false, Option, some, none, arith, ◌==◌, nat_eq, if◌then◌else◌, All, All-of,
}
use metal_native.Base.Dict.{Dict, lookup, lookup-insert}
use metal_native.Base.Exec.{ok, Exec, pure, ◌>>◌, >>=_cases, then_run}
use metal_native.Base.Exec.Ends.{Ends-state, Ends-of-state}
use metal_native.Optim.Numeric.{Numeric}
use metal_native.Optim.Param.{TensorOf, grad}
use metal_native.Optim.Param.Loops.{for_groups-Ends, for_slot_cases}
use metal_native.Optim.Sgd.{
  Sgd, has_momentum, decayed, next_buffer, direction, ensure_buffer, momentum_step, velocity,
  current, store_param, sgd_body, with_grad, run_loop, call_closure, sgd_step,
}

module _ (N : Numeric) where
  open N use {Array, zeros_like}

  -- The buffer that a momentum step starts from: the stored one, or zeros.
  abbrev pub buffer_or_zeros : Option Array → Array → Array
  buffer_or_zeros none g = zeros_like g
  buffer_or_zeros (some b) g = b

  lookup-ensure_buffer :
      (i j : ℕ) (g : Array) (d : Dict ℕ Array)
      → lookup j (ensure_buffer N i g d)
        ≡ (if i == j then some (buffer_or_zeros (lookup i d) g) else lookup j d)
  unfolding ensure_buffer
  lookup-ensure_buffer i j g d = ground (arith, lookup-insert i j (zeros_like g) d)

  -- A step with momentum never raises at the buffers: it applies the direction of the new buffer,
  -- which is made from the stored one, or from zeros the first time, stores it under its parameter,
  -- and leaves every other buffer, the options and the objects alone.
  pub momentum_step_lem :
      (i : ℕ) (g : Array) (s : Sgd N)
      → let b = next_buffer N s.options (buffer_or_zeros (lookup i (current N s)) g) g in
        let r = momentum_step N i g s in
        (r.0 ≡ ok (direction N s.options b g))
        × ((j : ℕ) → lookup j (current N r.1) ≡ (if i == j then some b else lookup j (current N s)))
        × (r.1.options ≡ s.options)
        × (r.1.heap ≡ s.heap)
  unfolding momentum_step
  momentum_step_lem i g s =
      let e = lookup-ensure_buffer i i g (current N s) in
      (
        ground (arith, e),
        λ j. ground (
          arith,
          e,
          lookup-insert i j (next_buffer N s.options (buffer_or_zeros (lookup i (current N s)) g) g)
              (ensure_buffer N i g (current N s)),
          lookup-ensure_buffer i j g (current N s),
        ),
        ground (arith, e),
        ground (arith, e),
      )

  velocity_plain :
      (i : ℕ) (g : Array) (s : Sgd N)
      → has_momentum N s.options ≡ false
      → velocity N i g s ≡ (ok g, s)
  unfolding velocity
  velocity_plain i g s h = rw h

  module _ (tensor_of : TensorOf N) where
    -- The state after a step is the closure's where that raises, else the loop's.
    pub step_state :
        {L : Type 0} (closure : Option (Exec (Sgd N) L)) (s : Sgd N) (P : Sgd N → Type 0)
        → ((i : ℕ) (a : Sgd N) → P a → P (with_grad N tensor_of i a).1)
        → P (call_closure N tensor_of closure s).1
        → P (sgd_step N tensor_of closure s).1
    unfolding sgd_step run_loop
    step_state closure s P k p =
        >>=_cases (λ l. run_loop N tensor_of >> pure l) (λ r. P r.1)
          (call_closure N tensor_of closure) s
          (λ l e.
            >>=_cases (λ _. pure l) (λ r. P r.1) (run_loop N tensor_of)
              (call_closure N tensor_of closure s).1 (λ _ _. loop) (λ _ _. loop))
          (λ x e. p)
      where
        loop : P (run_loop N tensor_of (call_closure N tensor_of closure s).1).1
        loop = Ends-state P (run_loop N tensor_of (call_closure N tensor_of closure s).1) (
            for_groups-Ends P (λ _ a. P a) (with_grad N tensor_of) (λ _. Unit {0})
              (λ i _ a q. Ends-of-state P (with_grad N tensor_of i a) (k i a q))
              (call_closure N tensor_of closure s).1.param_groups
              (All-of (All (λ _. Unit {0})) (All-of (λ _. Unit {0}) (λ _. tt))
                (call_closure N tensor_of closure s).1.param_groups)
              (call_closure N tensor_of closure s).1 p)

    store_param-rest :
        (i : ℕ) (a : Array) (s : Sgd N)
        → (current N (store_param N tensor_of i a s).1 ≡ current N s)
          × ((store_param N tensor_of i a s).1.options ≡ s.options)
    unfolding store_param
    store_param-rest i a s = ground arith

    -- No momentum: the options say so, and the buffers are `d`.
    abbrev Plain : Dict ℕ Array → Sgd N → Type 0
    Plain d s = (has_momentum N s.options ≡ false) × (current N s ≡ d)

    -- Without momentum the work on one parameter is `value - lr * gradient`, the gradient with its
    -- decay, stored in the parameter.
    sgd_body_plain :
        (i : ℕ) (g : Array) (s : Sgd N)
        → has_momentum N s.options ≡ false
        → sgd_body N tensor_of i g s
          ≡ store_param N tensor_of i
              (N.sub
                (s.heap i).value
                (N.scale s.options.lr (decayed N s.options (s.heap i).value g)))
              s
    unfolding sgd_body
    sgd_body_plain i g s h =
        ap
          (then_run
            (λ d. store_param N tensor_of i (N.sub (s.heap i).value (N.scale s.options.lr d))))
          (velocity_plain i (decayed N s.options (s.heap i).value g) s h)

    sgd_body-Plain :
        (d : Dict ℕ Array) (i : ℕ) (g : Array) (s : Sgd N)
        → Plain d s
        → Plain d (sgd_body N tensor_of i g s).1
    sgd_body-Plain d i g s h =
        let rest =
          store_param-rest i
            (N.sub (s.heap i).value (N.scale s.options.lr (decayed N s.options (s.heap i).value g)))
            s in
        rw (sgd_body_plain i g s h.0) (rw rest.1 h.0, rest.0 ∙ h.1)

    -- Without momentum a step, whether it returns or raises, leaves every momentum buffer alone.
    sgd_step_plain :
        {L : Type 0} (closure : Option (Exec (Sgd N) L)) (s : Sgd N)
        → has_momentum N (call_closure N tensor_of closure s).1.options ≡ false
        → current N (sgd_step N tensor_of closure s).1
          ≡ current N (call_closure N tensor_of closure s).1
    sgd_step_plain closure s h =
        (step_state closure s (Plain (current N (call_closure N tensor_of closure s).1))
          (λ i a p.
            for_slot_cases (λ r. Plain (current N (call_closure N tensor_of closure s).1) r.1)
              (grad N (a.heap i)) (ok tt, a) (λ g. sgd_body N tensor_of i g a) p
              (λ g. sgd_body-Plain (current N (call_closure N tensor_of closure s).1) i g a p))
          (h, refl)).1
