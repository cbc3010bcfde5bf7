-- ===== src/Optim/Adam/StateDict.antt =====
-- adam.py: `zero_grad`, and `state_dict` with `load_state_dict`.
use metal_native.Base.{
  ℕ, ◌≡◌, ◌≢◌, inl, inr, refl, ◌∙◌, sym, ap, none, List, [], ◌∷◌, arith, nat_eq,
}
use metal_native.Optim.Numeric.{Numeric}
use metal_native.Optim.Param
use metal_native.Optim.Param.{TensorOf, Param, Slot, holds, cleared, clear, clear_group, Heap}
use metal_native.Optim.Param.Loops.{In, Listed}
use metal_native.Optim.Adam.{Adam, current}
use metal_native.Optim.Adam.Counts.{adam_step-StepLeaves}
use metal_native.Optim.Adam.Step.{adam_step, zero_grad, state_dict, load_state_dict}

module _ (N : Numeric) where
  -- A loaded snapshot of an optimizer brings back its count, its groups and the address of its
  -- state; the moments are those of the last step before the load, since `state_dict` hands out
  -- the dict that later steps write. Stated for a step of MetalAdam without a closure in between.
  pub load_state_dict-adam_step :
      (tensor_of : TensorOf N) (o : Adam N)
      → let s = (adam_step N {L = Unit {0}} tensor_of none o).1 in
        let r = load_state_dict N (state_dict N o) s in
        (r.step_count ≡ o.step_count)
        × (r.state ≡ o.state)
        × (r.param_groups ≡ o.param_groups)
        × (current N r ≡ current N s)
        × (r.heap ≡ s.heap)
  unfolding state_dict load_state_dict
  load_state_dict-adam_step tensor_of o = (
    refl,
    refl,
    refl,
    ap (adam_step N {L = Unit {0}} tensor_of none o).1.dicts
        (sym (adam_step-StepLeaves N tensor_of {L = Unit {0}} none o).state),
    refl,
  )

  -- Loading what was saved a moment ago changes nothing.
  pub load_state_dict-state_dict : (o : Adam N) → load_state_dict N (state_dict N o) o ≡ o
  unfolding state_dict load_state_dict
  load_state_dict-state_dict o = refl

  -- No gradient is left in the attribute `_grad`.
  abbrev pub NotHeld : {A : Type 0} → Slot A → Type 0
  NotHeld {A} s = (g : A) → s ≢ holds g

  cleared-NotHeld : (s : Slot N.Array) → NotHeld (cleared N s)
  cleared-NotHeld s g = ground arith

  clear_keeps :
      (i j : ℕ) (h : Heap N) → NotHeld (h j).private_grad → NotHeld (clear N h i j).private_grad
  clear_keeps i j h p g = ground (arith, p g)

  clear_self : (i : ℕ) (h : Heap N) → NotHeld (clear N h i i).private_grad
  clear_self i h g = ground arith

  clear_group_keeps :
      (is : List ℕ) (j : ℕ) (h : Heap N)
      → NotHeld (h j).private_grad
      → NotHeld (clear_group N is h j).private_grad
  unfolding clear_group
  clear_group_keeps [] j h p = p
  clear_group_keeps (i ∷ is) j h p = clear_group_keeps is j (clear N h i) (clear_keeps i j h p)

  clear_group_all :
      (is : List ℕ) (j : ℕ) (h : Heap N) → In j is → NotHeld (clear_group N is h j).private_grad
  unfolding clear_group
  clear_group_all [] j h m = absurd m
  clear_group_all (i ∷ is) j h (inl e) =
      clear_group_keeps is j (clear N h i) (rw e (clear_self j h))
  clear_group_all (i ∷ is) j h (inr m) = clear_group_all is j (clear N h i) m

  zero_grad_keeps :
      (gs : List (List ℕ)) (j : ℕ) (h : Heap N)
      → NotHeld (h j).private_grad
      → NotHeld (Param.zero_grad N gs h j).private_grad
  unfolding Param.zero_grad
  zero_grad_keeps [] j h p = p
  zero_grad_keeps (g ∷ gs) j h p =
      zero_grad_keeps gs j (clear_group N g h) (clear_group_keeps g j h p)

  zero_grad_all :
      (gs : List (List ℕ)) (j : ℕ) (h : Heap N)
      → Listed j gs
      → NotHeld (Param.zero_grad N gs h j).private_grad
  unfolding Param.zero_grad
  zero_grad_all [] j h m = absurd m
  zero_grad_all (g ∷ gs) j h (inl m) =
      zero_grad_keeps gs j (clear_group N g h) (clear_group_all g j h m)
  zero_grad_all (g ∷ gs) j h (inr m) = zero_grad_all gs j (clear_group N g h) m

  -- What `zero_grad` leaves alone in an object: all but `_grad`.
  abbrev pub SameRest : Param N → Param N → Type 0
  SameRest p q =
      (q.own_grad ≡ p.own_grad)
      × (q.value ≡ p.value)
      × (q.grad_is_property ≡ p.grad_is_property)
      × (q.dtype ≡ p.dtype)
      × (q.target ≡ p.target)

  clear_rest : (i j : ℕ) (h : Heap N) → SameRest (h j) (clear N h i j)
  clear_rest i j h = ground arith

  SameRest-trans : (p q r : Param N) → SameRest p q → SameRest q r → SameRest p r
  SameRest-trans p q r a b = (b.0 ∙ a.0, b.1 ∙ a.1, b.2 ∙ a.2, b.3 ∙ a.3, b.4 ∙ a.4)

  clear_group_rest : (is : List ℕ) (j : ℕ) (h : Heap N) → SameRest (h j) (clear_group N is h j)
  unfolding clear_group
  clear_group_rest [] j h = (refl, refl, refl, refl, refl)
  clear_group_rest (i ∷ is) j h =
      SameRest-trans (h j) (clear N h i j) (clear_group N is (clear N h i) j) (clear_rest i j h)
        (clear_group_rest is j (clear N h i))

  zero_grad_rest :
      (gs : List (List ℕ)) (j : ℕ) (h : Heap N) → SameRest (h j) (Param.zero_grad N gs h j)
  unfolding Param.zero_grad
  zero_grad_rest [] j h = (refl, refl, refl, refl, refl)
  zero_grad_rest (g ∷ gs) j h =
      SameRest-trans (h j) (clear_group N g h j) (Param.zero_grad N gs (clear_group N g h) j)
        (clear_group_rest g j h) (zero_grad_rest gs j (clear_group N g h))

  -- After `zero_grad` no listed parameter has a gradient in `_grad`; all other attributes of every
  -- object are unchanged, an attribute `grad` that is not a property over `_grad` included.
  pub zero_grad_lem :
      (o : Adam N)
      → ((j : ℕ) → Listed j o.param_groups → NotHeld ((zero_grad N o).heap j).private_grad)
        × ((j : ℕ) → SameRest (o.heap j) ((zero_grad N o).heap j))
  unfolding zero_grad
  zero_grad_lem o =
      (λ j m. zero_grad_all o.param_groups j o.heap m, λ j. zero_grad_rest o.param_groups j o.heap)
