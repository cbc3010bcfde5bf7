-- ===== src/Optim/Adam/Rules.antt =====
-- adam.py: invariants of the loop and of a whole step, for any work on one parameter that leaves
-- the rest alone.
use metal_native.Base.{ℕ, ◌≡◌, Option, All, All-of, nat_eq}
use metal_native.Base.Exec.{Exn, ok, err, pure, >>=_cases}
use metal_native.Base.Exec.Ends.{Ends-state, Ends-of-state}
use metal_native.Optim.Numeric.{Numeric}
use metal_native.Optim.Param.{for_groups, grad}
use metal_native.Optim.Param.Loops.{for_groups-Ends, for_slot_cases}
use metal_native.Optim.Adam.{Adam, with_grad}
use metal_native.Optim.Adam.Frame.{SameBut}
use metal_native.Optim.Adam.Step.{Body, Closure, call_closure, count, finish, run_loop, step_with}

module _ (N : Numeric) (body : Body N)
    (local : (i : ℕ) (g : N.Array) (o : Adam N) → SameBut N i o (body i g o).1) where
  -- An invariant of the bodies is one of the loop.
  pub run_loop_keeps :
      (P : Adam N → Type 0)
      → ((i : ℕ) (o : Adam N) → P o → P (with_grad N body i o).1)
      → (o : Adam N) → P o
      → P (run_loop N body o).1
  unfolding run_loop
  run_loop_keeps P k o p = Ends-state P (for_groups (with_grad N body) o.param_groups o) (
      for_groups-Ends P (λ _ s. P s) (with_grad N body) (λ _. Unit {0})
        (λ i _ s q. Ends-of-state P (with_grad N body i s) (k i s q)) o.param_groups
        (All-of (All (λ _. Unit {0})) (All-of (λ _. Unit {0}) (λ _. tt)) o.param_groups) o p)

  -- What one iteration keeps, from what it leaves alone.
  pub with_grad_keeps :
      (P : Adam N → Type 0)
      → ((i : ℕ) (o o' : Adam N) → SameBut N i o o' → P o → P o')
      → (i : ℕ) (o : Adam N) → P o
      → P (with_grad N body i o).1
  with_grad_keeps P k i o p =
      for_slot_cases (λ r. P r.1) (grad N (o.heap i)) (ok tt, o) (λ g. body i g o) p
        (λ g. k i o (body i g o).1 (local i g o) p)

  module _ {L : Type 0} (closure : Closure N L) (o : Adam N) where
    -- The state after a step is the closure's where that raises, else the loop's.
    pub step_state :
        (P : Adam N → Type 0)
        → ((l : Option L)
            → (call_closure N closure o).0 ≡ ok l
            → P (run_loop N body (count N (call_closure N closure o).1)).1)
        → ((e : Exn) → (call_closure N closure o).0 ≡ err e → P (call_closure N closure o).1)
        → P (step_with N body closure o).1
    step_state P good bad =
        >>=_cases (finish N body) (λ r. P r.1) (call_closure N closure) o
          (λ l e.
            >>=_cases (λ _. pure l) (λ r. P r.1) (run_loop N body)
              (count N (call_closure N closure o).1) (λ _ _. good l e) (λ _ _. good l e))
          bad
