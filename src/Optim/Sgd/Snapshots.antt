-- ===== src/Optim/Sgd/Snapshots.antt =====
-- sgd.py: `state_dict` with `load_state_dict`.
use metal_native.Base.{ℕ, zero, suc, arith, ◌≡◌, ◌∙◌, refl, sym, ap, none, nat_eq}
use metal_native.Base.Exec.{ok, Exec, >>=_cases}
use metal_native.Optim.Numeric.{Numeric}
use metal_native.Optim.Param.{TensorOf, grad}
use metal_native.Optim.Param.Loops.{for_slot_cases}
use metal_native.Optim.Sgd.{
  Sgd, decayed, momentum_step, velocity, store_param, sgd_body, sgd_step, state_dict,
  load_state_dict,
}
use metal_native.Optim.Sgd.Momentum.{step_state}

module _ (N : Numeric) where
  -- The same dict, list and objects by identity.
  abbrev pub Keeps : Sgd N → Sgd N → Type 0
  Keeps s t = (t.state ≡ s.state) × (t.param_groups ≡ s.param_groups)

  velocity-Keeps : (i : ℕ) (g : N.Array) (s : Sgd N) → Keeps s (velocity N i g s).1
  unfolding velocity momentum_step
  velocity-Keeps i g s = ground arith

  module _ (tensor_of : TensorOf N) where
    store_param-Keeps :
        (i : ℕ) (a : N.Array) (s : Sgd N) → Keeps s (store_param N tensor_of i a s).1
    unfolding store_param
    store_param-Keeps i a s = ground arith

    Keeps-trans : (s t u : Sgd N) → Keeps s t → Keeps t u → Keeps s u
    Keeps-trans s t u p q = (q.0 ∙ p.0, q.1 ∙ p.1)

    sgd_body-Keeps : (i : ℕ) (g : N.Array) (s : Sgd N) → Keeps s (sgd_body N tensor_of i g s).1
    unfolding sgd_body
    sgd_body-Keeps i g s =
        let v = velocity N i (decayed N s.options (s.heap i).value g) in
        let after : N.Array → Exec (Sgd N) (Unit {0}) =
          λ d. store_param N tensor_of i (N.sub (s.heap i).value (N.scale s.options.lr d)) in
        >>=_cases after (λ r. Keeps s r.1) v s
          (λ d e.
            Keeps-trans s (v s).1 (after d (v s).1).1
              (velocity-Keeps i (decayed N s.options (s.heap i).value g) s)
              (store_param-Keeps i (N.sub (s.heap i).value (N.scale s.options.lr d)) (v s).1))
          (λ x e. velocity-Keeps i (decayed N s.options (s.heap i).value g) s)

    sgd_step-Keeps :
        (s t : Sgd N) → Keeps s t → Keeps s (sgd_step N tensor_of {L = Unit {0}} none t).1
    sgd_step-Keeps s t k =
        step_state N tensor_of {L = Unit {0}} none t (Keeps s)
          (λ i a p.
            for_slot_cases (λ r. Keeps s r.1) (grad N (a.heap i)) (ok tt, a)
              (λ g. sgd_body N tensor_of i g a) p
              (λ g. Keeps-trans s a (sgd_body N tensor_of i g a).1 p (sgd_body-Keeps i g a)))
          k

    -- The state after that many steps without a closure, also where some of them raise.
    abbrev pub after_steps : ℕ → Sgd N → Sgd N
    after_steps zero s = s
    after_steps (suc n) s = (sgd_step N tensor_of {L = Unit {0}} none (after_steps n s)).1

    after_steps-Keeps : (n : ℕ) (s : Sgd N) → Keeps s (after_steps n s)
    after_steps-Keeps zero s = (refl, refl)
    after_steps-Keeps (suc n) s = sgd_step-Keeps s (after_steps n s) (after_steps-Keeps n s)

    -- After any number of steps without a closure, whether they return or raise, loading the state
    -- dict that was taken before them changes nothing: the momentum buffers stay those of the last
    -- step.
    pub load_state_dict-after_steps :
        (n : ℕ) (s : Sgd N) → load_state_dict N (state_dict N s) (after_steps n s) ≡ after_steps n s
    unfolding load_state_dict state_dict
    load_state_dict-after_steps n s =
        let k = after_steps-Keeps n s in
        let t = after_steps n s in
        ap (λ a. record t { state = a; param_groups = s.param_groups }) (sym k.0)
        ∙ ap (λ gs. record t { param_groups = gs }) (sym k.1)
