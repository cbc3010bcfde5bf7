-- ===== src/Optim/Sgd/Tests.antt =====
-- Runs of sgd.py, and the theorems on it and on the constructors at concrete inputs.
use metal_native.Base.{ℕ, ◌≡◌, refl, true, false, none, some, [], ◌∷◌, List, nat_eq}
use metal_native.Base.Dict.{lookup}
use metal_native.Base.Exec.{ok, err, value_error}
use metal_native.Optim.Fixture.{numeric, tensor_of, objects}
use metal_native.Optim.Adam
use metal_native.Optim.Sgd.{
  Sgd, Options, current, state_dict, load_state_dict, sgd_init, momentum_step, sgd_step,
}
use metal_native.Optim.Sgd.Snapshots.{after_steps, load_state_dict-after_steps}
use metal_native.Optim.Sgd.Velocity.{
  gradients, smoothed, buffer_after, applied, after_all, momentum_steps_lem,
}

abbrev options : ℕ → Options numeric
options momentum = record {
  lr = 2;
  momentum = momentum;
  dampening = 0;
  weight_decay = 0;
  nesterov = false;
}

abbrev started : ℕ → List ℕ → Sgd numeric
started momentum params = record {
  options = options momentum;
  param_groups = params ∷ [];
  state = 0;
  dicts = λ a. [];
  heap = objects;
}

momentum_run :
    current numeric (sgd_step numeric tensor_of {L = Unit {0}} none (started 3 (1 ∷ []))).1
    ≡ (1, 4) ∷ []
unfolding sgd_step
momentum_run = refl

plain_run :
    ((sgd_step numeric tensor_of {L = Unit {0}} none (started 0 (1 ∷ []))).1.heap 1).value ≡ 2
unfolding sgd_step
plain_run = refl

nesterov_needs_momentum :
    sgd_init numeric (record (options 0) { nesterov = true }) [] 0 (λ a. []) objects
    ≡ err value_error
unfolding sgd_init
nesterov_needs_momentum = refl

-- Steps for the parameters 1, 2 and 1 again.
abbrev steps : List (ℕ × ℕ)
steps = (1, 4) ∷ (2, 9) ∷ (1, 5) ∷ []

momentum_steps_lem_example :
    let s = started 3 [] in
    let o = s.options in
    let t = after_all numeric steps s in
    let b = smoothed numeric o (buffer_after numeric o none (gradients numeric 1 steps)) 6 in
    let r = momentum_step numeric 1 6 t in
    ((j : ℕ)
      → lookup j (current numeric t)
        ≡ buffer_after numeric o (lookup j (current numeric s)) (gradients numeric j steps))
    × (r.0 ≡ ok (applied numeric o b 6))
    × (lookup 1 (current numeric r.1) ≡ some b)
momentum_steps_lem_example = momentum_steps_lem numeric steps 1 6 (started 3 [])

abbrev adam_options : Adam.Options numeric
adam_options = record { lr = 1; beta1 = 0; beta2 = 0; eps = 1; weight_decay = 0; amsgrad = false }

load_state_dict-after_steps_example :
    load_state_dict numeric
      (state_dict numeric (started 3 (1 ∷ [])))
      (after_steps numeric tensor_of 2 (started 3 (1 ∷ [])))
    ≡ after_steps numeric tensor_of 2 (started 3 (1 ∷ []))
load_state_dict-after_steps_example =
    load_state_dict-after_steps numeric tensor_of 2 (started 3 (1 ∷ []))
