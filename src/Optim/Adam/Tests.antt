-- ===== src/Optim/Adam/Tests.antt =====
-- Runs of adam.py, and its theorems at concrete inputs.
use metal_native.Base.{
  ℕ, ◌≡◌, ◌≢◌, refl, inl, inr, true, Option, none, [], ◌∷◌, List, arith, Bool, nat_eq,
}
use metal_native.Base.Dict.{Dict}
use metal_native.Base.Exec.{ok, err, type_error, key_error}
use metal_native.Base.Exec.Ends.{Ends}
use metal_native.Optim.Param.Loops.{Listed}
use metal_native.Dtypes.{DType}
use metal_native.Optim.Fixture.{numeric, tensor_of, objects}
use metal_native.Optim.Adam.{Adam, Moments, Options, current}
use metal_native.Optim.Adam.Step.{adam_step, adamw_step, zero_grad, state_dict, load_state_dict}
use metal_native.Optim.Adam.Decay.{adam_step-adamw_step}
use metal_native.Optim.Adam.MaxState.{HasMax, NoKeyError, steps_max}
use metal_native.Optim.Adam.TensorParams.{IsStuck, steps_stuck}
use metal_native.Optim.Adam.StateDict.{NotHeld, SameRest, load_state_dict-adam_step, zero_grad_lem}

abbrev options : Bool → Options numeric
options amsgrad = record {
  lr = 34;
  beta1 = 0;
  beta2 = 0;
  eps = 1;
  weight_decay = 0;
  amsgrad = amsgrad;
}

abbrev no_dicts : ℕ → Dict ℕ (Moments numeric)
no_dicts a = []

abbrev started : List ℕ → Adam numeric
started params = record {
  options = options true;
  param_groups = params ∷ [];
  state = 0;
  step_count = 0;
  dicts = no_dicts;
  heap = objects;
}

-- A step on the object with a `data` attribute changes its value.
one_step :
    ((adam_step numeric {L = Unit {0}} tensor_of none (started (1 ∷ 3 ∷ []))).1.heap 1).value ≡ 18
unfolding adam_step
one_step = refl

tensor_step :
    (adam_step numeric {L = Unit {0}} tensor_of none (started (1 ∷ 2 ∷ []))).0 ≡ err type_error
unfolding adam_step
tensor_step = refl

adam_step-adamw_step_example :
    adam_step numeric {L = Unit {0}} tensor_of none (started (1 ∷ []))
    ≡ adamw_step numeric tensor_of none (started (1 ∷ []))
adam_step-adamw_step_example =
    adam_step-adamw_step numeric tensor_of {L = Unit {0}} none (started (1 ∷ [])) refl

never_key_error : (a : ℕ) (d : DType) → tensor_of a d ≢ err key_error
never_key_error a d = ground arith

started-HasMax : (params : List ℕ) → HasMax numeric (started params)
started-HasMax params = record { at = λ t i s q. cc }

steps_max_example :
    Ends
      (HasMax numeric)
      (NoKeyError numeric)
      (adam_step numeric {L = Unit {0}} tensor_of none (started (1 ∷ 2 ∷ [])))
    × Ends
        (HasMax numeric)
        (NoKeyError numeric)
        (adamw_step numeric {L = Unit {0}} tensor_of none (started (1 ∷ 2 ∷ [])))
steps_max_example =
    steps_max numeric tensor_of never_key_error {L = Unit {0}} none (started (1 ∷ 2 ∷ []))
      (started-HasMax (1 ∷ 2 ∷ []))

abbrev no_loss : Option (Unit {0})
no_loss = none

second-IsStuck : IsStuck numeric tensor_of 2 (started (1 ∷ 2 ∷ []))
second-IsStuck = record { target = refl; gradient = 6; has_gradient = refl }

steps_stuck_example :
    ((adam_step numeric {L = Unit {0}} tensor_of none (started (1 ∷ 2 ∷ []))).0 ≢ ok no_loss)
    × ((adamw_step numeric {L = Unit {0}} tensor_of none (started (1 ∷ 2 ∷ []))).0 ≢ ok no_loss)
steps_stuck_example =
    steps_stuck numeric tensor_of 2 {L = Unit {0}} none (started (1 ∷ 2 ∷ [])) second-IsStuck
      (inl (inr (inl refl))) no_loss

load_state_dict-adam_step_example :
    let o = started (1 ∷ []) in
    let s = (adam_step numeric {L = Unit {0}} tensor_of none o).1 in
    let r = load_state_dict numeric (state_dict numeric o) s in
    (r.step_count ≡ o.step_count)
    × (r.state ≡ o.state)
    × (r.param_groups ≡ o.param_groups)
    × (current numeric r ≡ current numeric s)
    × (r.heap ≡ s.heap)
load_state_dict-adam_step_example = load_state_dict-adam_step numeric tensor_of (started (1 ∷ []))

zero_grad_lem_example :
    let o = started (1 ∷ 2 ∷ []) in
    ((j : ℕ)
      → Listed j o.param_groups
      → NotHeld numeric ((zero_grad numeric o).heap j).private_grad)
    × ((j : ℕ) → SameRest numeric (o.heap j) ((zero_grad numeric o).heap j))
zero_grad_lem_example = zero_grad_lem numeric (started (1 ∷ 2 ∷ []))
