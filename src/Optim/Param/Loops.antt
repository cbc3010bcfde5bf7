-- ===== src/Optim/Param/Loops.antt =====
-- Rules for the loop over parameter groups: what it ends in, and two bodies that agree.
use metal_native.Base.{ℕ, ◌≡◌, ◌≢◌, ◌⊎◌, inl, inr, refl, List, [], ◌∷◌, All}
use metal_native.Base.Exec.Ends.{Ends, >>=-Ends}
use metal_native.Base.Exec.{Exn, ok, Exec, >>=_cases, >>=_agree}
use metal_native.Optim.Param.{Slot, absent, is_none, holds, for_slot, for_params, for_groups}

pub for_slot_agree {ℓ} :
    {A : Type 0} {R : Type ℓ} (s : Slot A) (x : R) (f g : A → R)
    → ((a : A) → f a ≡ g a)
    → for_slot s x f ≡ for_slot s x g
for_slot_agree absent x f g h = refl
for_slot_agree is_none x f g h = refl
for_slot_agree (holds a) x f g h = h a

pub for_slot_cases {ℓ} :
    {A : Type 0} {R : Type ℓ} (P : R → Type 0) (s : Slot A) (x : R) (f : A → R)
    → P x
    → ((a : A) → P (f a))
    → P (for_slot s x f)
for_slot_cases P absent x f p h = p
for_slot_cases P is_none x f p h = p
for_slot_cases P (holds a) x f p h = h a

module _ {S : Type 0} (P : S → Type 0) (Bad : Exn → S → Type 0) (body : ℕ → Exec S (Unit {0}))
    (Q : ℕ → Type 0) where
  abbrev BodyEnds : Type 0
  BodyEnds = (i : ℕ) → Q i → (s : S) → P s → Ends P Bad (body i s)

  for_params-Ends :
      BodyEnds → (is : List ℕ) → All Q is → (s : S) → P s → Ends P Bad (for_params body is s)
  unfolding for_params
  for_params-Ends k [] q s p = p
  for_params-Ends k (i ∷ is) q s p =
      >>=-Ends P P Bad (body i) (λ _. for_params body is) s (k i q.0 s p)
        (λ _ t. for_params-Ends k is q.1 t)

  -- The loop ends as its body does.
  pub for_groups-Ends :
      BodyEnds
      → (gs : List (List ℕ)) → All (All Q) gs
      → (s : S) → P s
      → Ends P Bad (for_groups body gs s)
  unfolding for_groups
  for_groups-Ends k [] q s p = p
  for_groups-Ends k (g ∷ gs) q s p =
      >>=-Ends P P Bad (for_params body g) (λ _. for_groups body gs) s (for_params-Ends k g q.0 s p)
        (λ _ t. for_groups-Ends k gs q.1 t)

-- Two bodies that agree wherever `P` holds, and keep it.
module _ {S : Type 0} (P : S → Type 0) (b c : ℕ → Exec S (Unit {0})) where
  module _ (keep : (i : ℕ) (s : S) → P s → P (b i s).1)
      (agree : (i : ℕ) (s : S) → P s → b i s ≡ c i s) where
    for_params_keeps : (is : List ℕ) (s : S) → P s → P (for_params b is s).1
    unfolding for_params
    for_params_keeps [] s p = p
    for_params_keeps (i ∷ is) s p =
        >>=_cases (λ _. for_params b is) (λ r. P r.1) (b i) s
          (λ a e. for_params_keeps is (b i s).1 (keep i s p)) (λ x e. keep i s p)

    for_params_agree : (is : List ℕ) (s : S) → P s → for_params b is s ≡ for_params c is s
    unfolding for_params
    for_params_agree [] s p = refl
    for_params_agree (i ∷ is) s p =
        >>=_agree (b i) (c i) (λ _. for_params b is) (λ _. for_params c is) s (agree i s p)
          (λ a e. for_params_agree is (b i s).1 (keep i s p))

    -- The loops agree.
    pub for_groups_agree :
        (gs : List (List ℕ)) (s : S) → P s → for_groups b gs s ≡ for_groups c gs s
    unfolding for_groups
    for_groups_agree [] s p = refl
    for_groups_agree (g ∷ gs) s p =
        >>=_agree (for_params b g) (for_params c g) (λ _. for_groups b gs) (λ _. for_groups c gs) s
          (for_params_agree g s p)
          (λ a e. for_groups_agree gs (for_params b g s).1 (for_params_keeps g s p))

-- `i` stands in a group.
abbrev pub In : ℕ → List ℕ → Type 0
In i [] = ⊥
In i (j ∷ js) = (j ≡ i) ⊎ In i js

abbrev pub Listed : ℕ → List (List ℕ) → Type 0
Listed i [] = ⊥
Listed i (g ∷ gs) = In i g ⊎ Listed i gs

-- A body that never returns at parameter `i`, and keeps what that rests on.
module _ {S : Type 0} (P : S → Type 0) (body : ℕ → Exec S (Unit {0})) (i : ℕ)
    (keep : (j : ℕ) (s : S) → P s → P (body j s).1)
    (stops : (s : S) → P s → (body i s).0 ≢ ok tt) where
  for_params_stops : (is : List ℕ) → In i is → (s : S) → P s → (for_params body is s).0 ≢ ok tt
  unfolding for_params
  for_params_stops [] m s p = absurd m
  for_params_stops (j ∷ is) (inl e) s p =
      >>=_cases (λ _. for_params body is) (λ r. r.0 ≢ ok tt) (body j) s
        (λ a q. absurd (stops s p (rw e at q))) (λ x q. λ h. cc)
  for_params_stops (j ∷ is) (inr m) s p =
      >>=_cases (λ _. for_params body is) (λ r. r.0 ≢ ok tt) (body j) s
        (λ a q. for_params_stops is m (body j s).1 (keep j s p)) (λ x q. λ h. cc)

  params_keep : (is : List ℕ) (s : S) → P s → P (for_params body is s).1
  unfolding for_params
  params_keep [] s p = p
  params_keep (j ∷ is) s p =
      >>=_cases (λ _. for_params body is) (λ r. P r.1) (body j) s
        (λ a e. params_keep is (body j s).1 (keep j s p)) (λ x e. keep j s p)

  -- The loop does not return.
  pub for_groups_stops :
      (gs : List (List ℕ)) → Listed i gs → (s : S) → P s → (for_groups body gs s).0 ≢ ok tt
  unfolding for_groups
  for_groups_stops [] m s p = absurd m
  for_groups_stops (g ∷ gs) (inl m) s p =
      >>=_cases (λ _. for_groups body gs) (λ r. r.0 ≢ ok tt) (for_params body g) s
        (λ a q. absurd (for_params_stops g m s p q)) (λ x q. λ h. cc)
  for_groups_stops (g ∷ gs) (inr m) s p =
      >>=_cases (λ _. for_groups body gs) (λ r. r.0 ≢ ok tt) (for_params body g) s
        (λ a q. for_groups_stops gs m (for_params body g s).1 (params_keep g s p)) (λ x q. λ h. cc)
