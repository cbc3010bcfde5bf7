-- ===== src/Optim/Adam/MaxState.antt =====
-- adam.py under AMSGrad: every state entry has its 'v_max', so a step never raises a KeyError.
use metal_native.Base.{
  ℕ, ◌≡◌, ◌≢◌, inl, inr, refl, true, Bool-cases, Option, Option-cases, some, none, List, arith,
  nat_eq, All, All-of,
}
use metal_native.Base.Dict.{Dict, lookup, insert, has_key, lookup-insert}
use metal_native.Base.Exec.{Exn, Result, ok, err, key_error, pure}
use metal_native.Base.Exec.Ends.{Ends, >>=-Ends}
use metal_native.Dtypes.{DType}
use metal_native.Optim.Numeric.{Numeric}
use metal_native.Optim.Param.{TensorOf, Heap, grad, write_back}
use metal_native.Optim.Param.Loops.{for_groups-Ends, for_slot_cases}
use metal_native.Optim.Adam.{
  Adam, Moments, current, with_current, ensure_state, next_moments, next_max, moments_step,
  with_heap, store_param, work, fresh, write_max, write_moments, update_of, adam_body, adamw_body,
  adam_init, Options, with_grad,
}
use metal_native.Optim.Adam.Step.{
  Closure, call_closure, count, finish, step_with, run_loop, adam_step, adamw_step, Body,
}

module _ (N : Numeric) where
  open N use {Array}

  -- Under AMSGrad the entry of every parameter has a 'v_max'.
  pub record HasMax (o : Adam N) : Type 0 where
    pub at :
        o.options.amsgrad ≡ true
        → (i : ℕ) (s : Moments N) → lookup i (current N o) ≡ some s
        → s.v_max ≢ none

  insert-HasMax :
      (i : ℕ) (s : Moments N) (o : Adam N)
      → HasMax o
      → (o.options.amsgrad ≡ true → s.v_max ≢ none)
      → HasMax (with_current N o (insert i s (current N o)))
  insert-HasMax i s o h p = record {
    at = λ a j t e. ground (arith, h.at a j t, lookup-insert i j s (current N o));
  }

  ensure_state-HasMax : (i : ℕ) (g : Array) (o : Adam N) → HasMax o → HasMax (ensure_state N i g o)
  unfolding ensure_state
  ensure_state-HasMax i g o h = elim (Bool-cases (has_key i (current N o))) [
    | inl known ↦ rw known h
    | inr new ↦ rw new (insert-HasMax i _ o h (λ a. ground arith))
  ]

  abbrev pub NoKeyError : Exn → Adam N → Type 0
  NoKeyError e o = (e ≢ key_error) × HasMax o

  lookup-ensure_state :
      (i : ℕ) (g : Array) (o : Adam N) → lookup i (current N (ensure_state N i g o)) ≢ none
  unfolding ensure_state
  lookup-ensure_state i g o = elim (Option-cases (lookup i (current N o))) [
    | inl new ↦
        rw (new, has_key) (ground (arith, lookup-insert i i (fresh N o.options g) (current N o)))
    | inr (s, known) ↦ ground arith
  ]

  -- `next_max` raises nothing where there is a 'v_max', and keeps it.
  next_max_succeeds :
      (o : Options N) (s : Moments N)
      → (o.amsgrad ≡ true → s.v_max ≢ none)
      → (v : Array) × (s' : Moments N) × (next_max N o s ≡ ok (v, s'))
        × (o.amsgrad ≡ true → s'.v_max ≢ none)
  unfolding next_max
  next_max_succeeds o s p = elim (Bool-cases o.amsgrad) [
    | inl on ↦ elim (Option-cases s.v_max) [
      | inl missing ↦ absurd (p on missing)
      | inr (x, e) ↦ (
        N.maximum x s.v,
        record s { v_max = some (N.maximum x s.v) },
        ground arith,
        λ _. ground arith,
      )
    ]
    | inr off ↦ (s.v, s, ground arith, p)
  ]

  write_max-Ends :
      (i : ℕ) (s : Moments N) (o : Adam N)
      → HasMax o
      → (o.options.amsgrad ≡ true → s.v_max ≢ none)
      → Ends HasMax NoKeyError (write_max N i s (next_max N o.options s) o)
  unfolding write_max
  write_max-Ends i s o h p =
      let (v, s', e, q) = next_max_succeeds o.options s p in rw e (insert-HasMax i s' o h q)

  write_moments-Ends :
      (i : ℕ) (g : Array) (o : Adam N) (e : Option (Moments N))
      → lookup i (current N o) ≡ e
      → e ≢ none
      → HasMax o
      → Ends HasMax NoKeyError (write_moments N i g e o)
  unfolding write_moments next_moments
  write_moments-Ends i g o none p q h = absurd (q refl)
  write_moments-Ends i g o (some s) p q h = write_max-Ends i _ o h (λ a. h.at a i s p)

  moments_step-Ends :
      (i : ℕ) (g g' : Array) (o : Adam N)
      → HasMax o
      → Ends HasMax NoKeyError (moments_step N i g g' o)
  unfolding moments_step
  moments_step-Ends i g g' o h =
      write_moments-Ends i g' (ensure_state N i g o) _ refl (lookup-ensure_state i g o)
        (ensure_state-HasMax i g o h)

  module _ (tensor_of : TensorOf N)
      (never : (a : Array) (d : DType) → tensor_of a d ≢ err key_error) where
    write_back_ne :
        (h : Heap N) (i : ℕ) (a : Array) (x : Exn)
        → write_back N tensor_of h i a ≡ err x
        → x ≢ key_error
    unfolding write_back
    write_back_ne h i a x e = ground (arith, never a (h i).dtype)

    with_heap-Ends :
        (r : Result (Heap N))
        → ((x : Exn) → r ≡ err x → x ≢ key_error)
        → (o : Adam N) → HasMax o
        → Ends HasMax NoKeyError (with_heap N tensor_of r o)
    with_heap-Ends (ok heap) p o h = record { at = h.at }
    with_heap-Ends (err x) p o h = (p x refl, h)

    store_param-Ends :
        (i : ℕ) (a : Array) (o : Adam N)
        → HasMax o
        → Ends HasMax NoKeyError (store_param N tensor_of i a o)
    unfolding store_param
    store_param-Ends i a o h =
        with_heap-Ends (write_back N tensor_of o.heap i a) (λ x e. write_back_ne o.heap i a x e) o h

    work-Ends :
        (i : ℕ) (g g' p : Array) (o : Adam N)
        → HasMax o
        → Ends HasMax NoKeyError (work N tensor_of i g g' p o)
    unfolding work
    work-Ends i g g' p o h =
        >>=-Ends HasMax HasMax NoKeyError (moments_step N i g g')
          (λ mv. store_param N tensor_of i (N.add p (update_of N o.options o.step_count mv.0 mv.1)))
          o (moments_step-Ends i g g' o h) (λ mv o' h'. store_param-Ends i _ o' h')

    run_loop-Ends :
        (body : Body N)
        → ((i : ℕ) (g : Array) (o : Adam N) → HasMax o → Ends HasMax NoKeyError (body i g o))
        → (o : Adam N) → HasMax o
        → Ends HasMax NoKeyError (run_loop N body o)
    unfolding run_loop
    run_loop-Ends body k o h =
        for_groups-Ends HasMax NoKeyError (with_grad N body) (λ _. Unit {0})
          (λ i _ a p.
            for_slot_cases (Ends HasMax NoKeyError) (grad N (a.heap i)) (ok tt, a) (λ g. body i g a)
              p (λ g. k i g a p))
          o.param_groups
          (All-of (All (λ _. Unit {0})) (All-of (λ _. Unit {0}) (λ _. tt)) o.param_groups) o h

    step-Ends :
        {L : Type 0} (body : Body N)
        → ((i : ℕ) (g : Array) (o : Adam N) → HasMax o → Ends HasMax NoKeyError (body i g o))
        → (closure : Closure N L) (o : Adam N) → Ends HasMax NoKeyError (call_closure N closure o)
        → Ends HasMax NoKeyError (step_with N body closure o)
    step-Ends body k closure o c =
        >>=-Ends HasMax HasMax NoKeyError (call_closure N closure) (finish N body) o c (λ l a h.
          >>=-Ends HasMax HasMax NoKeyError (run_loop N body) (λ _. pure l) (count N a)
            (run_loop-Ends body k (count N a) (record { at = h.at })) (λ _ b q. q))

    adam_step_max :
        {L : Type 0} (closure : Closure N L) (o : Adam N)
        → Ends HasMax NoKeyError (call_closure N closure o)
        → Ends HasMax NoKeyError (adam_step N tensor_of closure o)
    unfolding adam_step adam_body
    adam_step_max closure o c =
        step-Ends (adam_body N tensor_of) (λ i g a h. work-Ends i g _ _ a h) closure o c

    adamw_step_max :
        {L : Type 0} (closure : Closure N L) (o : Adam N)
        → Ends HasMax NoKeyError (call_closure N closure o)
        → Ends HasMax NoKeyError (adamw_step N tensor_of closure o)
    unfolding adamw_step adamw_body
    adamw_step_max closure o c =
        step-Ends (adamw_body N tensor_of) (λ i g a h. work-Ends i g _ _ a h) closure o c

    -- From a state in which, under AMSGrad, every entry has a 'v_max', a step of MetalAdam or of
    -- MetalAdamW raises no KeyError and leads to such a state again, also where it raises; if its
    -- closure does so, and if making the new tensor raises no KeyError.
    pub steps_max :
        {L : Type 0} (closure : Closure N L) (o : Adam N)
        → Ends HasMax NoKeyError (call_closure N closure o)
        → Ends HasMax NoKeyError (adam_step N tensor_of closure o)
          × Ends HasMax NoKeyError (adamw_step N tensor_of closure o)
    steps_max closure o c = (adam_step_max closure o c, adamw_step_max closure o c)

  -- A new optimizer is in such a state.
  pub adam_init-HasMax :
      (options : Options N) (params : List ℕ) (a : ℕ) (dicts : ℕ → Dict ℕ (Moments N))
      (heap : Heap N) (o : Adam N)
      → adam_init N options params a dicts heap ≡ ok o
      → HasMax o
  unfolding adam_init
  adam_init-HasMax options params a dicts heap o e = record { at = λ t i s q. ground arith }
