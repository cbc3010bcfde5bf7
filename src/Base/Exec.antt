-- ===== src/Base/Exec.antt =====
-- Python exceptions as values, and methods that change a state and may raise. What was written
-- before a raise stays written, so the state comes back beside the exception too.
pub mod Ends
use mathlib.Core.Bool.{Bool}
use mathlib.Core.Option.{Option, none, some}
use mathlib.Core.Path.{◌≡◌, refl, ap, ◌∙◌}
use mathlib.Core.Logic.{◌⊎◌, inl, inr}
use metal_native.Base.Tests.{if◌then◌else◌}

-- The exception classes that the code raises or catches by name; `other` is any other class.
pub data Exn : Type 0 where
  import_error attribute_error value_error type_error runtime_error : Exn
  key_error index_error file_not_found os_error not_implemented zero_division json_error other : Exn

pub data Result {ℓ} (A : Type ℓ) : Type ℓ where
  ok : A → Result A
  err : Exn → Result A

pub Result-cases {ℓ} :
    {A : Type ℓ} (r : Result A) → ((a : A) × (r ≡ ok a)) ⊎ ((e : Exn) × (r ≡ err e))
Result-cases (ok a) = inl (a, refl)
Result-cases (err e) = inr (e, refl)

pub ok_injective {ℓ} : {A : Type ℓ} {a b : A} → ok a ≡ ok b → a ≡ b
ok_injective h = cc

abbrev pub from_option {ℓ} : {A : Type ℓ} → Option A → Exn → Result A
from_option none e = err e
from_option (some a) e = ok a

abbrev pub Exec {ℓ κ} : Type ℓ → Type κ → Type (ℓ ⊔ κ)
Exec S A = S → Result A × S

module _ {ℓ κ} {S : Type ℓ} {A : Type κ} where
  abbrev pub pure : A → Exec S A
  pure a s = (ok a, s)

  abbrev pub raise : Exn → Exec S A
  raise e s = (err e, s)

  abbrev pub lift : Result A → Exec S A
  lift r s = (r, s)

  abbrev pub gets : (S → A) → Exec S A
  gets f s = (ok (f s), s)

  -- `try: m` with one handler for every exception, which sees its class
  abbrev pub try_except : Exec S A → (Exn → Exec S A) → Exec S A
  try_except m handler s = let (r, s') = m s in elim r [ ok a ↦ (ok a, s') | err e ↦ handler e s' ]

abbrev pub modify {ℓ} : {S : Type ℓ} → (S → S) → Exec S (Unit {0})
modify f s = (ok tt, f s)

abbrev pub raise_if {ℓ} : {S : Type ℓ} → Bool → Exn → Exec S (Unit {0})
raise_if b e s = (if b then err e else ok tt, s)

module _ {ℓ κ ν} {S : Type ℓ} {A : Type κ} {B : Type ν} where
  infixl 5 ◌>>=◌ ◌>>◌
  abbrev pub ◌>>=◌ : Exec S A → (A → Exec S B) → Exec S B
  ◌>>=◌ m f s = let (r, s') = m s in elim r [ ok a ↦ f a s' | err e ↦ (err e, s') ]

  abbrev pub ◌>>◌ : Exec S A → Exec S B → Exec S B
  m >> k = m >>= λ _. k

pub from_option-eq-ok {ℓ} :
    {A : Type ℓ} (o : Option A) (e : Exn) {a : A} → from_option o e ≡ ok a → o ≡ some a
from_option-eq-ok none e h = cc
from_option-eq-ok (some x) e h = cc

pub from_option-eq-err {ℓ} :
    {A : Type ℓ} (o : Option A) (e : Exn) {x : Exn} → from_option o e ≡ err x → x ≡ e
from_option-eq-err none e h = cc
from_option-eq-err (some a) e h = cc

module _ {ℓ} {S : Type ℓ} {A B : Type 0} (f : A → Exec S B) (R : Result B × S → Type 0) where
  outcome_cases :
      (r : Result A) (s : S)
      → ((a : A) → r ≡ ok a → R (f a s))
      → ((e : Exn) → r ≡ err e → R (err e, s))
      → R (((λ t. (r, t)) >>= f) s)
  outcome_cases (ok a) s good bad = good a refl
  outcome_cases (err e) s good bad = bad e refl

  -- What holds of a bind, by how its first part ends.
  pub >>=_cases :
      (m : Exec S A) (s : S)
      → ((a : A) → (m s).0 ≡ ok a → R (f a (m s).1))
      → ((e : Exn) → (m s).0 ≡ err e → R (err e, (m s).1))
      → R ((m >>= f) s)
  >>=_cases m s good bad = outcome_cases (m s).0 (m s).1 good bad

module _ {ℓ} {S : Type ℓ} {A B : Type 0} where
  outcome_agree :
      (f g : A → Exec S B) (r : Result A) (s : S)
      → ((a : A) → r ≡ ok a → f a s ≡ g a s)
      → ((λ t. (r, t)) >>= f) s ≡ ((λ t. (r, t)) >>= g) s
  outcome_agree f g (ok a) s h = h a refl
  outcome_agree f g (err e) s h = refl

  -- The rest of a bind, run on the outcome of its first part.
  abbrev pub then_run : (A → Exec S B) → Result A × S → Result B × S
  then_run f (r, s) = elim r [ ok a ↦ f a s | err e ↦ (err e, s) ]

  -- Two binds agree that agree in their first part and in what follows its normal end.
  pub >>=_agree :
      (m n : Exec S A) (f g : A → Exec S B) (s : S)
      → m s ≡ n s
      → ((a : A) → (m s).0 ≡ ok a → f a (m s).1 ≡ g a (m s).1)
      → (m >>= f) s ≡ (n >>= g) s
  >>=_agree m n f g s p h = outcome_agree f g (m s).0 (m s).1 h ∙ ap (then_run g) p
