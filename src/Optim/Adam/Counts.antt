-- ===== src/Optim/Adam/Counts.antt =====
-- adam.py: what a whole step counts and leaves alone, for MetalAdam and MetalAdamW alike.
use metal_native.Base.{ℕ, ◌+◌, ◌≡◌, inl, inr, refl, ◌∙◌, arith, Bool-cases, ◌==◌, nat_eq}
use metal_native.Base.Exec.{Result, ok, err}
use metal_native.Optim.Numeric.{Numeric}
use metal_native.Optim.Param.{TensorOf, Param, Slot, absent, is_none, holds, grad, for_slot}
use metal_native.Optim.Param.Loops.{for_slot_cases}
use metal_native.Optim.Adam.{Adam, with_grad}
use metal_native.Optim.Adam.Frame.{
  SameBut, SameBut-private_grads, SameBut-own_grads, adam_body-SameBut,
}
use metal_native.Optim.Adam.Rules.{run_loop_keeps, with_grad_keeps, step_state}
use metal_native.Optim.Adam.Step.{Body, Closure, call_closure, count, step_with, adam_step}

-- `grad` is missing or None.
abbrev pub HasNoGrad : {A : Type 0} → Slot A → Type 0
HasNoGrad absent = Unit
HasNoGrad is_none = Unit
HasNoGrad (holds g) = ⊥

for_slot-HasNoGrad {ℓ} :
    {A : Type 0} {R : Type ℓ} (s : Slot A) (x : R) (f : A → R) → HasNoGrad s → for_slot s x f ≡ x
for_slot-HasNoGrad absent x f h = refl
for_slot-HasNoGrad is_none x f h = refl
for_slot-HasNoGrad (holds a) x f h = absurd h

module _ (N : Numeric) where
  -- The count after a step whose closure ended in `r` and left the count at `n`.
  abbrev pub counted {ℓ} : {L : Type ℓ} → Result L → ℕ → ℕ
  counted (ok _) n = n + 1
  counted (err _) n = n

  -- How the state `o'` after a step compares with the state `o` after its closure: which parts are
  -- the same, and which parameters are.
  pub record StepLeaves (o o' : Adam N) : Type 0 where
    pub options : o'.options ≡ o.options
    pub param_groups : o'.param_groups ≡ o.param_groups
    pub state : o'.state ≡ o.state
    pub private_grads : (j : ℕ) → (o'.heap j).private_grad ≡ (o.heap j).private_grad
    pub own_grads : (j : ℕ) → (o'.heap j).own_grad ≡ (o.heap j).own_grad
    pub idle : (j : ℕ) → HasNoGrad (grad N (o.heap j)) → o'.heap j ≡ o.heap j

  module _ (body : Body N)
      (local : (i : ℕ) (g : N.Array) (o : Adam N) → SameBut N i o (body i g o).1) {L : Type 0}
      (closure : Closure N L) (o : Adam N) where
    -- An invariant of one iteration and of the count is one of the step.
    step_keeps :
        (P : Adam N → Type 0)
        → ((i : ℕ) (a : Adam N) → P a → P (with_grad N body i a).1)
        → ((a : Adam N) → P a → P (count N a))
        → P (call_closure N closure o).1
        → P (step_with N body closure o).1
    step_keeps P k c p =
        step_state N body local closure o P
          (λ l e. run_loop_keeps N body local P k (count N (call_closure N closure o).1) (c _ p))
          (λ e q. p)

    idle_iteration :
        (j i : ℕ) (a : Adam N) (p : Param N)
        → HasNoGrad (grad N p)
        → a.heap j ≡ p
        → (with_grad N body i a).1.heap j ≡ p
    idle_iteration j i a p h e = elim (Bool-cases (i == j)) [
      | inl same ↦
          let q : i ≡ j = ground arith in
          rw (for_slot-HasNoGrad (grad N (a.heap i)) (ok tt, a) (λ g. body i g a) (rw (q, e) h)) e
      | inr differ ↦
          for_slot_cases (λ r. r.1.heap j ≡ p) (grad N (a.heap i)) (ok tt, a) (λ g. body i g a) e
            (λ g. (local i g a).others j (ground arith) ∙ e)
    ]

    step-StepLeaves : StepLeaves (call_closure N closure o).1 (step_with N body closure o).1
    step-StepLeaves = record {
      options =
          step_keeps (λ a. a.options ≡ (call_closure N closure o).1.options)
            (with_grad_keeps N body local _ (λ i a b s p. s.options ∙ p)) (λ a p. p) refl;
      param_groups =
          step_keeps (λ a. a.param_groups ≡ (call_closure N closure o).1.param_groups)
            (with_grad_keeps N body local _ (λ i a b s p. s.param_groups ∙ p)) (λ a p. p) refl;
      state =
          step_keeps (λ a. a.state ≡ (call_closure N closure o).1.state)
            (with_grad_keeps N body local _ (λ i a b s p. s.state ∙ p)) (λ a p. p) refl;
      private_grads = λ j.
          step_keeps
            (λ a. (a.heap j).private_grad ≡ ((call_closure N closure o).1.heap j).private_grad)
            (with_grad_keeps N body local _ (λ i a b s p. SameBut-private_grads N s j ∙ p))
            (λ a p. p) refl;
      own_grads = λ j.
          step_keeps (λ a. (a.heap j).own_grad ≡ ((call_closure N closure o).1.heap j).own_grad)
            (with_grad_keeps N body local _ (λ i a b s p. SameBut-own_grads N s j ∙ p)) (λ a p. p)
            refl;
      idle = λ j h.
          step_keeps (λ a. a.heap j ≡ (call_closure N closure o).1.heap j)
            (λ i a e. idle_iteration j i a ((call_closure N closure o).1.heap j) h e) (λ a p. p)
            refl;
    }

    step_counts :
        (step_with N body closure o).1.step_count
        ≡ counted (call_closure N closure o).0 (call_closure N closure o).1.step_count
    step_counts =
        step_state N body local closure o
          (λ a.
            a.step_count
            ≡ counted (call_closure N closure o).0 (call_closure N closure o).1.step_count)
          (λ l e. rw e (
            run_loop_keeps N body local
              (λ a. a.step_count ≡ (call_closure N closure o).1.step_count + 1)
              (with_grad_keeps N body local _ (λ i a b s p. s.step_count ∙ p))
              (count N (call_closure N closure o).1) refl))
          (λ x e. rw e)

  module _ (tensor_of : TensorOf N) {L : Type 0} (closure : Closure N L) (o : Adam N) where
    pub adam_step-StepLeaves :
        StepLeaves (call_closure N closure o).1 (adam_step N tensor_of closure o).1
    unfolding adam_step
    adam_step-StepLeaves = step-StepLeaves _ (adam_body-SameBut N tensor_of) closure o

    -- A step of MetalAdam, whether it returns or raises in the loop, counts one; a step whose closure
    -- raises counts nothing.
    step_count-adam_step :
        (adam_step N tensor_of closure o).1.step_count
        ≡ counted (call_closure N closure o).0 (call_closure N closure o).1.step_count
    unfolding adam_step
    step_count-adam_step = step_counts _ (adam_body-SameBut N tensor_of) closure o
