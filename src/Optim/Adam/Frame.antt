-- ===== src/Optim/Adam/Frame.antt =====
-- adam.py: what the work on one parameter leaves alone.
use metal_native.Base.{ℕ, ◌≡◌, ◌≢◌, ◌∙◌, ap, inl, inr, Bool-cases, arith, ◌==◌, nat_eq}
use metal_native.Base.Exec.{>>=_cases}
use metal_native.Optim.Numeric.{Numeric}
use metal_native.Optim.Param.{TensorOf, Param, grad}
use metal_native.Optim.Adam.{
  Adam, ensure_state, moments_step, store_param, work, update_of, adam_body, adamw_body,
}

module _ (N : Numeric) where
  -- The parts of an optimizer that only its own methods change, and the objects but parameter `i`.
  pub record SameBut (i : ℕ) (o o' : Adam N) : Type 0 where
    pub options : o'.options ≡ o.options
    pub param_groups : o'.param_groups ≡ o.param_groups
    pub state : o'.state ≡ o.state
    pub step_count : o'.step_count ≡ o.step_count
    pub others : (j : ℕ) → i ≢ j → o'.heap j ≡ o.heap j
    pub private_grad : (o'.heap i).private_grad ≡ (o.heap i).private_grad
    pub own_grad : (o'.heap i).own_grad ≡ (o.heap i).own_grad
    pub target : (o'.heap i).target ≡ (o.heap i).target
    pub grad_is_property : (o'.heap i).grad_is_property ≡ (o.heap i).grad_is_property

  -- What holds of parameter `i` and of all others holds of every parameter.
  by_identity : (i j : ℕ) (P : ℕ → Type 0) → P i → (i ≢ j → P j) → P j
  by_identity i j P p q = elim (Bool-cases (i == j)) [
    | inl same ↦ let e : i ≡ j = ground arith in rw (← e) p
    | inr differ ↦ q (ground arith)
  ]

  module _ {i : ℕ} {o o' : Adam N} (h : SameBut i o o') (j : ℕ) where
    pub SameBut-private_grads : (o'.heap j).private_grad ≡ (o.heap j).private_grad
    SameBut-private_grads =
        by_identity i j (λ k. (o'.heap k).private_grad ≡ (o.heap k).private_grad) h.private_grad
          (λ ne. ap (λ (p : Param N). p.private_grad) (h.others j ne))

    pub SameBut-own_grads : (o'.heap j).own_grad ≡ (o.heap j).own_grad
    SameBut-own_grads =
        by_identity i j (λ k. (o'.heap k).own_grad ≡ (o.heap k).own_grad) h.own_grad
          (λ ne. ap (λ (p : Param N). p.own_grad) (h.others j ne))

    pub SameBut-targets : (o'.heap j).target ≡ (o.heap j).target
    SameBut-targets =
        by_identity i j (λ k. (o'.heap k).target ≡ (o.heap k).target) h.target
          (λ ne. ap (λ (p : Param N). p.target) (h.others j ne))

    pub SameBut-grads : grad N (o'.heap j) ≡ grad N (o.heap j)
    SameBut-grads =
        by_identity i j (λ k. grad N (o'.heap k) ≡ grad N (o.heap k))
          (rw (h.grad_is_property, h.private_grad, h.own_grad))
          (λ ne. ap (λ (p : Param N). grad N p) (h.others j ne))

  module _ (i : ℕ) (g g' : N.Array) (o : Adam N) where
    pub moments_step-heap : (moments_step N i g g' o).1.heap ≡ o.heap
    unfolding moments_step ensure_state
    moments_step-heap = ground arith

    pub moments_step-options : (moments_step N i g g' o).1.options ≡ o.options
    unfolding moments_step ensure_state
    moments_step-options = ground arith

    moments_step-param_groups : (moments_step N i g g' o).1.param_groups ≡ o.param_groups
    unfolding moments_step ensure_state
    moments_step-param_groups = ground arith

    pub moments_step-state : (moments_step N i g g' o).1.state ≡ o.state
    unfolding moments_step ensure_state
    moments_step-state = ground arith

    pub moments_step-step_count : (moments_step N i g g' o).1.step_count ≡ o.step_count
    unfolding moments_step ensure_state
    moments_step-step_count = ground arith

  module _ (tensor_of : TensorOf N) (i : ℕ) where
    -- Storing the new value changes the value of parameter `i` alone.
    pub store_param-SameBut :
        (a : N.Array) (o : Adam N) → SameBut i o (store_param N tensor_of i a o).1
    unfolding store_param
    store_param-SameBut a o = record {
      options = ground arith;
      param_groups = ground arith;
      state = ground arith;
      step_count = ground arith;
      others = λ j h. ground arith;
      private_grad = ground arith;
      own_grad = ground arith;
      target = ground arith;
      grad_is_property = ground arith;
    }

    moments_step-SameBut : (g g' : N.Array) (o : Adam N) → SameBut i o (moments_step N i g g' o).1
    moments_step-SameBut g g' o = record {
      options = moments_step-options i g g' o;
      param_groups = moments_step-param_groups i g g' o;
      state = moments_step-state i g g' o;
      step_count = moments_step-step_count i g g' o;
      others = λ j h. rw moments_step-heap;
      private_grad = rw moments_step-heap;
      own_grad = rw moments_step-heap;
      target = rw moments_step-heap;
      grad_is_property = rw moments_step-heap;
    }

    SameBut-trans : (a b c : Adam N) → SameBut i a b → SameBut i b c → SameBut i a c
    SameBut-trans a b c p q = record {
      options = q.options ∙ p.options;
      param_groups = q.param_groups ∙ p.param_groups;
      state = q.state ∙ p.state;
      step_count = q.step_count ∙ p.step_count;
      others = λ j h. q.others j h ∙ p.others j h;
      private_grad = q.private_grad ∙ p.private_grad;
      own_grad = q.own_grad ∙ p.own_grad;
      target = q.target ∙ p.target;
      grad_is_property = q.grad_is_property ∙ p.grad_is_property;
    }

    work-SameBut : (g g' p : N.Array) (o : Adam N) → SameBut i o (work N tensor_of i g g' p o).1
    unfolding work
    work-SameBut g g' p o =
        >>=_cases
          (λ mv. store_param N tensor_of i (N.add p (update_of N o.options o.step_count mv.0 mv.1)))
          (λ r. SameBut i o r.1) (moments_step N i g g') o
          (λ mv e. SameBut-trans o _ _ (moments_step-SameBut g g' o) (
            store_param-SameBut (N.add p (update_of N o.options o.step_count mv.0 mv.1))
              (moments_step N i g g' o).1))
          (λ x e. moments_step-SameBut g g' o)

    -- MetalAdam's work on one parameter.
    pub adam_body-SameBut : (g : N.Array) (o : Adam N) → SameBut i o (adam_body N tensor_of i g o).1
    unfolding adam_body
    adam_body-SameBut g o = work-SameBut g _ _ o

    -- MetalAdamW's work on one parameter.
    pub adamw_body-SameBut :
        (g : N.Array) (o : Adam N) → SameBut i o (adamw_body N tensor_of i g o).1
    unfolding adamw_body
    adamw_body-SameBut g o = work-SameBut g _ _ o
