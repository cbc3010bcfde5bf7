-- ===== src/Base/Exec/Ends.antt =====
-- What a run may end in: the state after a normal end, the exception and the state after a raise.
use mathlib.Core.Path.{◌≡◌}
use metal_native.Base.Exec.{Exn, Result, ok, err, Exec, ◌>>=◌}

module _ {ℓ} {S : Type ℓ} {A : Type 0} where
  -- A normal end is in `P`, and an exception with the state that it leaves is in `Bad`.
  abbrev pub Ends : (S → Type 0) → (Exn → S → Type 0) → Result A × S → Type 0
  Ends P Bad (ok _, s) = P s
  Ends P Bad (err e, s) = Bad e s

  -- In any case the state is in `P`.
  pub Ends-state : (P : S → Type 0) (r : Result A × S) → Ends P (λ _ s. P s) r → P r.1
  Ends-state P (ok _, s) h = h
  Ends-state P (err e, s) h = h

  pub Ends-of-state : (P : S → Type 0) (r : Result A × S) → P r.1 → Ends P (λ _ s. P s) r
  Ends-of-state P (ok _, s) h = h
  Ends-of-state P (err e, s) h = h

  -- An exception that is not among the bad ones is not raised.
  pub Ends-ne :
      (P : S → Type 0) (Bad : Exn → S → Type 0) (r : Result A × S) (e : Exn)
      → Ends P Bad r
      → ((s : S) → ¬ Bad e s)
      → ¬ (r.0 ≡ err e)
  Ends-ne P Bad (ok _, s) e h never = λ p. cc
  Ends-ne P Bad (err x, s) e h never = λ p. let same : e ≡ x = cc in never s (rw same h)

module _ {ℓ} {S : Type ℓ} {A B : Type 0} (P Q : S → Type 0) (Bad : Exn → S → Type 0) where
  outcome-Ends :
      (f : A → Exec S B) (r : Result A) (s : S)
      → Ends P Bad (r, s)
      → ((a : A) (t : S) → P t → Ends Q Bad (f a t))
      → Ends Q Bad (((λ t. (r, t)) >>= f) s)
  outcome-Ends f (ok a) s h k = k a s h
  outcome-Ends f (err e) s h k = h

  -- The rule for a bind.
  pub >>=-Ends :
      (m : Exec S A) (f : A → Exec S B) (s : S)
      → Ends P Bad (m s)
      → ((a : A) (t : S) → P t → Ends Q Bad (f a t))
      → Ends Q Bad ((m >>= f) s)
  >>=-Ends m f s h k = outcome-Ends f (m s).0 (m s).1 h k
