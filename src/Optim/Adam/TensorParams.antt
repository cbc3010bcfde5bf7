-- ===== src/Optim/Adam/TensorParams.antt =====
-- adam.py on parameters that have neither a `data` attribute nor item assignment, as
-- `metal_native.Tensor`: the write-back has nowhere to go.
use metal_native.Base.{ℕ, ◌≡◌, ◌≢◌, ◌∙◌, Option, arith}
use metal_native.Base.Exec.{ok, pure, >>=_cases}
use metal_native.Optim.Numeric.{Numeric}
use metal_native.Optim.Param.{TensorOf, neither, holds, grad}
use metal_native.Optim.Param.Loops.{Listed, for_groups_stops}
use metal_native.Optim.Adam.{
  Adam, moments_step, store_param, work, update_of, adam_body, adamw_body, with_grad,
}
use metal_native.Optim.Adam.Frame.{
  SameBut, SameBut-targets, SameBut-grads, moments_step-heap, adam_body-SameBut, adamw_body-SameBut,
}
use metal_native.Optim.Adam.Rules.{with_grad_keeps}
use metal_native.Optim.Adam.Step.{
  Body, Closure, call_closure, count, finish, step_with, run_loop, adam_step, adamw_step,
}

module _ (N : Numeric) (tensor_of : TensorOf N) (i : ℕ) where
  -- Parameter `i` has a gradient, and takes no new value.
  pub record IsStuck (o : Adam N) : Type 0 where
    pub target : (o.heap i).target ≡ neither
    pub gradient : N.Array
    pub has_gradient : grad N (o.heap i) ≡ holds gradient

  store_param_stuck :
      (a : N.Array) (o : Adam N)
      → (o.heap i).target ≡ neither
      → (store_param N tensor_of i a o).0 ≢ ok tt
  unfolding store_param
  store_param_stuck a o h = ground arith

  work_stuck :
      (g g' p : N.Array) (o : Adam N)
      → (o.heap i).target ≡ neither
      → (work N tensor_of i g g' p o).0 ≢ ok tt
  unfolding work
  work_stuck g g' p o h =
      >>=_cases
        (λ mv. store_param N tensor_of i (N.add p (update_of N o.options o.step_count mv.0 mv.1)))
        (λ r. r.0 ≢ ok tt) (moments_step N i g g') o
        (λ mv e.
          store_param_stuck (N.add p (update_of N o.options o.step_count mv.0 mv.1))
            (moments_step N i g g' o).1 (rw moments_step-heap h))
        (λ x e. λ q. cc)

  module _ (body : Body N)
      (local : (j : ℕ) (g : N.Array) (o : Adam N) → SameBut N j o (body j g o).1)
      (stops : (g : N.Array) (o : Adam N)
        → (o.heap i).target ≡ neither
        → (body i g o).0 ≢ ok tt) where
    IsStuck-SameBut : (j : ℕ) (o o' : Adam N) → SameBut N j o o' → IsStuck o → IsStuck o'
    IsStuck-SameBut j o o' s h = record {
      target = SameBut-targets N s i ∙ h.target;
      gradient = h.gradient;
      has_gradient = SameBut-grads N s i ∙ h.has_gradient;
    }

    iteration_stuck : (o : Adam N) → IsStuck o → (with_grad N body i o).0 ≢ ok tt
    iteration_stuck o h = rw h.has_gradient (stops h.gradient o h.target)

    loop_stuck : (o : Adam N) → IsStuck o → Listed i o.param_groups → (run_loop N body o).0 ≢ ok tt
    unfolding run_loop
    loop_stuck o h m =
        for_groups_stops IsStuck (with_grad N body) i
          (with_grad_keeps N body local IsStuck IsStuck-SameBut) iteration_stuck o.param_groups m o
          h

    counted-IsStuck : (o : Adam N) → IsStuck o → IsStuck (count N o)
    counted-IsStuck o h = record {
      target = h.target;
      gradient = h.gradient;
      has_gradient = h.has_gradient;
    }

    step_stuck :
        {L : Type 0} (closure : Closure N L) (o : Adam N)
        → IsStuck (call_closure N closure o).1
        → Listed i (call_closure N closure o).1.param_groups
        → (l : Option L) → (step_with N body closure o).0 ≢ ok l
    step_stuck closure o h m l =
        >>=_cases (finish N body) (λ r. r.0 ≢ ok l) (call_closure N closure) o
          (λ l' e.
            >>=_cases (λ _. pure l') (λ r. r.0 ≢ ok l) (run_loop N body)
              (count N (call_closure N closure o).1)
              (λ u q. absurd (
                loop_stuck (count N (call_closure N closure o).1)
                  (counted-IsStuck (call_closure N closure o).1 h) m q))
              (λ x q. λ p. cc))
          (λ x e. λ p. cc)

  module _ {L : Type 0} (closure : Closure N L) (o : Adam N)
      (stuck : IsStuck (call_closure N closure o).1)
      (listed : Listed i (call_closure N closure o).1.param_groups) where
    adam_step_stuck : (l : Option L) → (adam_step N tensor_of closure o).0 ≢ ok l
    unfolding adam_step adam_body
    adam_step_stuck =
        step_stuck (adam_body N tensor_of) (adam_body-SameBut N tensor_of)
          (λ g a h. work_stuck g _ _ a h) closure o stuck listed

    adamw_step_stuck : (l : Option L) → (adamw_step N tensor_of closure o).0 ≢ ok l
    unfolding adamw_step adamw_body
    adamw_step_stuck =
        step_stuck (adamw_body N tensor_of) (adamw_body-SameBut N tensor_of)
          (λ g a h. work_stuck g _ _ a h) closure o stuck listed

    -- A step of MetalAdam or of MetalAdamW never returns where, after its closure, a listed parameter
    -- has a gradient and neither a `data` attribute nor item assignment.
    pub steps_stuck :
        (l : Option L)
        → ((adam_step N tensor_of closure o).0 ≢ ok l)
          × ((adamw_step N tensor_of closure o).0 ≢ ok l)
    steps_stuck l = (adam_step_stuck l, adamw_step_stuck l)
