-- ===== src/Optim/Adam/Step.antt =====
-- adam.py: the methods `step`, `zero_grad`, `state_dict` and `load_state_dict`.
use metal_native.Base.{ℕ, ◌+◌, Option, none, some, List}
use metal_native.Base.Exec.{ok, Exec, pure, modify, ◌>>=◌, ◌>>◌}
use metal_native.Optim.Numeric.{Numeric}
use metal_native.Optim.Param
use metal_native.Optim.Param.{TensorOf, for_groups}
use metal_native.Optim.Adam.{Adam, with_grad, adam_body, adamw_body}

module _ (N : Numeric) where
  open N use {Array}

  abbrev pub Body : Type 0
  Body = ℕ → Array → Exec (Adam N) (Unit {0})

  -- `self._step_count += 1`
  abbrev pub count : Adam N → Adam N
  count o = record o { step_count = o.step_count + 1 }

  -- A closure may raise, and may change parameters and gradients.
  abbrev pub Closure {ℓ} : Type ℓ → Type ℓ
  Closure L = Option (Exec (Adam N) L)

  abbrev pub call_closure {ℓ} : {L : Type ℓ} → Closure L → Exec (Adam N) (Option L)
  call_closure none o = (ok none, o)
  call_closure (some c) o = (do l ← c; pure (some l)) o

  -- The loop over the groups as they are after the closure.
  unfoldable pub run_loop : Body → Exec (Adam N) (Unit {0})
  unfolding for_groups
  run_loop body o = for_groups (with_grad N body) o.param_groups o

  -- The step after its closure.
  abbrev pub finish {ℓ} : {L : Type ℓ} → Body → Option L → Exec (Adam N) (Option L)
  finish body loss = do modify count; run_loop body; pure loss

  abbrev pub step_with {ℓ} : {L : Type ℓ} → Body → Closure L → Exec (Adam N) (Option L)
  step_with body closure = do loss ← call_closure closure; finish body loss

  -- `MetalAdam.step`
  unfoldable pub adam_step {ℓ} : {L : Type ℓ} → TensorOf N → Closure L → Exec (Adam N) (Option L)
  unfolding run_loop adam_body
  adam_step tensor_of closure = step_with (adam_body N tensor_of) closure

  -- `MetalAdamW.step`
  unfoldable pub adamw_step {ℓ} : {L : Type ℓ} → TensorOf N → Closure L → Exec (Adam N) (Option L)
  unfolding run_loop adamw_body
  adamw_step tensor_of closure = step_with (adamw_body N tensor_of) closure

  -- `zero_grad`
  unfoldable pub zero_grad : Adam N → Adam N
  unfolding Param.zero_grad
  zero_grad o = record o { heap = Param.zero_grad N o.param_groups o.heap }

  -- What `state_dict` returns: the dict by its address, the groups, and the count.
  pub record StateDict : Type 0 where
    pub state : ℕ
    pub param_groups : List (List ℕ)
    pub step_count : ℕ

  unfoldable pub state_dict : Adam N → StateDict
  state_dict o = record {
    state = o.state;
    param_groups = o.param_groups;
    step_count = o.step_count;
  }

  unfoldable pub load_state_dict : StateDict → Adam N → Adam N
  load_state_dict d o = record o {
    state = d.state;
    param_groups = d.param_groups;
    step_count = d.step_count;
  }
