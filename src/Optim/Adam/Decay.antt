-- ===== src/Optim/Adam/Decay.antt =====
-- adam.py: without weight decay MetalAdam and MetalAdamW are one optimizer.
use metal_native.Base.{ℕ, ◌≡◌, refl, true}
use metal_native.Base.Exec.{ok, pure, >>=_agree}
use metal_native.Optim.Numeric.{Numeric}
use metal_native.Optim.Param.{TensorOf, grad}
use metal_native.Optim.Param.Loops.{for_groups_agree, for_slot_agree, for_slot_cases}
use metal_native.Optim.Adam.{Adam, adam_body, adamw_body, with_grad}
use metal_native.Optim.Adam.Frame.{adam_body-SameBut}
use metal_native.Optim.Adam.Step.{
  Closure, finish, call_closure, count, run_loop, adam_step, adamw_step,
}

module _ (N : Numeric) (tensor_of : TensorOf N) where
  open N use {eq_f, zero_f, Array}

  -- `weight_decay == 0`
  abbrev pub NoDecay : Adam N → Type 0
  NoDecay o = eq_f o.options.weight_decay zero_f ≡ true

  bodies_agree :
      (i : ℕ) (g : Array) (o : Adam N)
      → NoDecay o
      → adam_body N tensor_of i g o ≡ adamw_body N tensor_of i g o
  unfolding adam_body adamw_body
  bodies_agree i g o h = rw h

  with_grad_agree :
      (i : ℕ) (o : Adam N)
      → NoDecay o
      → with_grad N (adam_body N tensor_of) i o ≡ with_grad N (adamw_body N tensor_of) i o
  with_grad_agree i o h =
      for_slot_agree (grad N (o.heap i)) (ok tt, o) (λ g. adam_body N tensor_of i g o)
        (λ g. adamw_body N tensor_of i g o) (λ g. bodies_agree i g o h)

  with_grad_keeps :
      (i : ℕ) (o : Adam N) → NoDecay o → NoDecay (with_grad N (adam_body N tensor_of) i o).1
  with_grad_keeps i o h =
      for_slot_cases (λ r. NoDecay r.1) (grad N (o.heap i)) (ok tt, o)
        (λ g. adam_body N tensor_of i g o) h
        (λ g. rw (adam_body-SameBut N tensor_of i g o).options h)

  loops_agree :
      (o : Adam N)
      → NoDecay o
      → run_loop N (adam_body N tensor_of) o ≡ run_loop N (adamw_body N tensor_of) o
  unfolding run_loop
  loops_agree o h =
      for_groups_agree NoDecay (with_grad N (adam_body N tensor_of))
        (with_grad N (adamw_body N tensor_of)) with_grad_keeps with_grad_agree o.param_groups o h

  -- Where the weight decay is zero after the closure, a step of MetalAdam and a step of MetalAdamW
  -- have the same result, exception and state, on any parameters, gradients and closure.
  pub adam_step-adamw_step :
      {L : Type 0} (closure : Closure N L) (o : Adam N)
      → NoDecay (call_closure N closure o).1
      → adam_step N tensor_of closure o ≡ adamw_step N tensor_of closure o
  unfolding adam_step adamw_step
  adam_step-adamw_step {L} closure o h =
      >>=_agree (call_closure N closure) (call_closure N closure) (finish N (adam_body N tensor_of))
        (finish N (adamw_body N tensor_of)) o refl
        (λ l e.
          >>=_agree (run_loop N (adam_body N tensor_of)) (run_loop N (adamw_body N tensor_of))
            (λ _. pure l) (λ _. pure l) (count N (call_closure N closure o).1)
            (loops_agree (count N (call_closure N closure o).1) h) (λ _ _. refl))
