-- ===== src/Base/Int.antt =====
-- Signed integers over the native numbers.
use Prim.Native.Nat.{ℕ, zero, suc, ◌*◌}
use mathlib.Core.Bool.{Bool, true, false}
use mathlib.Core.List.{List, [], ◌∷◌}
use mathlib.Core.Logic.{◌↔◌}
use mathlib.Core.Path.{◌≡◌, ap}
use native.Mathlib.Omega.{arith}
use metal_native.Base.Tests.{Eq, eqb}

-- `negsuc n` is -(n + 1).
pub data ℤ : Type 0 where
  pos : ℕ → ℤ
  negsuc : ℕ → ℤ

abbrev pub int_beq : ℤ → ℤ → Bool
int_beq (pos a) (pos b) = eqb a b
int_beq (negsuc a) (negsuc b) = eqb a b
int_beq (pos a) (negsuc b) = false
int_beq (negsuc a) (pos b) = false

eq_of_int_beq : (a b : ℤ) → int_beq a b ≡ true → a ≡ b
eq_of_int_beq (pos a) (pos b) h = ap pos (ground arith)
eq_of_int_beq (negsuc a) (negsuc b) h = ap negsuc (ground arith)
eq_of_int_beq (pos a) (negsuc b) h = cc
eq_of_int_beq (negsuc a) (pos b) h = cc

int_beq_refl : (a : ℤ) → int_beq a a ≡ true
int_beq_refl (pos a) = ground arith
int_beq_refl (negsuc a) = ground arith

pub int_beq_iff : (a b : ℤ) → (int_beq a b ≡ true) ↔ (a ≡ b)
int_beq_iff a b = (eq_of_int_beq a b, λ e. rw e (int_beq_refl b))

instance abbrev pub int_eq : Eq ℤ
int_eq = record { test = int_beq; decides = int_beq_iff }

abbrev pub negate : ℕ → ℤ
negate zero = pos 0
negate (suc n) = negsuc n

abbrev pub mul : ℤ → ℤ → ℤ
mul (pos a) (pos b) = pos (a * b)
mul (pos a) (negsuc b) = negate (a * suc b)
mul (negsuc a) (pos b) = negate (suc a * b)
mul (negsuc a) (negsuc b) = pos (suc a * suc b)

-- `math.prod`
abbrev pub prod : List ℤ → ℤ
prod [] = pos 1
prod (a ∷ s) = mul a (prod s)
