-- ===== src/Optim/Sgd/Velocity.antt =====
-- sgd.py: the momentum buffers after any steps, against a recurrence over each parameter's gradients.
use metal_native.Base.{
  ℕ, ◌≡◌, ◌∙◌, ap, refl, Bool, true, false, Option, some, List, [], ◌∷◌, if◌then◌else◌, ◌==◌,
  nat_eq, beq_refl,
}
use metal_native.Base.Dict.{lookup}
use metal_native.Base.Exec.{ok}
use metal_native.Optim.Numeric.{Numeric}
use metal_native.Optim.Sgd.{Options, Sgd, current, momentum_step}
use metal_native.Optim.Sgd.Momentum.{buffer_or_zeros, momentum_step_lem}

module _ (N : Numeric) where
  open N use {Array, one_f, sub_f, add, scale}

  -- The gradients of one parameter, in their order.
  abbrev pub gradients : ℕ → List (ℕ × Array) → List Array
  gradients j [] = []
  gradients j ((i, g) ∷ steps) = if i == j then g ∷ gradients j steps else gradients j steps

  -- `momentum * buffer + (1 - dampening) * gradient`
  abbrev pub smoothed : Options N → Option Array → Array → Array
  smoothed o b g =
      add (scale o.momentum (buffer_or_zeros N b g)) (scale (sub_f one_f o.dampening) g)

  -- The recurrence from a buffer, if there is one, over the gradients.
  abbrev pub buffer_after : Options N → Option Array → List Array → Option Array
  buffer_after o b [] = b
  buffer_after o b (g ∷ gs) = buffer_after o (some (smoothed o b g)) gs

  -- What is applied: the buffer, or by Nesterov the gradient and the buffer times the momentum.
  abbrev pub applied : Options N → Array → Array → Array
  applied o b g = if o.nesterov then add g (scale o.momentum b) else b

  -- Momentum steps for parameters with their gradients, in any order.
  abbrev pub after_all : List (ℕ × Array) → Sgd N → Sgd N
  after_all [] s = s
  after_all ((i, g) ∷ steps) s = after_all steps (momentum_step N i g s).1

  options-after_all :
      (steps : List (ℕ × Array)) (s : Sgd N) → (after_all steps s).options ≡ s.options
  options-after_all [] s = refl
  options-after_all ((i, g) ∷ steps) s =
      options-after_all steps (momentum_step N i g s).1 ∙ (momentum_step_lem N i g s).2

  one_more :
      (o : Options N) (i j : ℕ) (g : Array) (gs : List Array) (b c : Option Array) (t : Bool)
      → (i == j) ≡ t
      → (t ≡ true → b ≡ c)
      → buffer_after o (if t then some (smoothed o b g) else c) gs
        ≡ buffer_after o c (if t then g ∷ gs else gs)
  one_more o i j g gs b c true e h = ap (λ x. buffer_after o (some (smoothed o x g)) gs) (h refl)
  one_more o i j g gs b c false e h = refl

  lookup-after_all :
      (steps : List (ℕ × Array)) (j : ℕ) (s : Sgd N)
      → lookup j (current N (after_all steps s))
        ≡ buffer_after s.options (lookup j (current N s)) (gradients j steps)
  lookup-after_all [] j s = refl
  lookup-after_all ((i, g) ∷ steps) j s =
      let m = momentum_step_lem N i g s in
      let t = (momentum_step N i g s).1 in
      lookup-after_all steps j t
      ∙ ap (λ o. buffer_after o (lookup j (current N t)) (gradients j steps)) m.2
      ∙ ap (λ b. buffer_after s.options b (gradients j steps)) (m.1 j)
      ∙ one_more s.options i j g (gradients j steps) (lookup i (current N s))
          (lookup j (current N s)) (i == j) refl
          (λ e. ap (λ k. lookup k (current N s)) ((nat_eq.decides i j).0 e))

  -- After momentum steps for any parameters in any order, the buffer of every parameter is that of the
  -- recurrence b' = momentum * b + (1 - dampening) * g over its own gradients alone, from the buffer
  -- that it had, or from zeros; one more step returns, applies the next buffer of the recurrence, or
  -- g + momentum * b' under Nesterov, and stores it.
  pub momentum_steps_lem :
      (steps : List (ℕ × Array)) (i : ℕ) (g : Array) (s : Sgd N)
      → let o = s.options in
        let t = after_all steps s in
        let b = smoothed o (buffer_after o (lookup i (current N s)) (gradients i steps)) g in
        let r = momentum_step N i g t in
        ((j : ℕ)
          → lookup j (current N t) ≡ buffer_after o (lookup j (current N s)) (gradients j steps))
        × (r.0 ≡ ok (applied o b g))
        × (lookup i (current N r.1) ≡ some b)
  momentum_steps_lem steps i g s =
      let t = after_all steps s in
      let m = momentum_step_lem N i g t in
      let e = options-after_all steps s in
      let k = lookup-after_all steps i s in
      let bs = smoothed t.options (lookup i (current N t)) g in
      let same : bs
          ≡ smoothed s.options (buffer_after s.options (lookup i (current N s)) (gradients i steps))
              g =
        ap (λ o. smoothed o (lookup i (current N t)) g) e ∙ ap (λ b. smoothed s.options b g) k in
      (
        λ j. lookup-after_all steps j s,
        m.0 ∙ ap (λ o. ok (applied o bs g)) e ∙ ap (λ b. ok (applied s.options b g)) same,
        m.1 i ∙ ap (λ x. if x then some bs else lookup i (current N t)) (beq_refl i) ∙ ap some same,
      )
