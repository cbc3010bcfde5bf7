-- ===== src/Base/Text.antt =====
-- ASCII texts as lists of codes, with the operations of Python's `str` on them.
use Prim.Native.Nat.{ℕ, ◌+◌, ◌-◌}
use Prim.Native.Char.{code}
use Prim.Native.String.{String}
use mathlib.Core.Path.{◌≡◌, refl, ap, sym}
use mathlib.Core.Logic.{◌≢◌, ◌↔◌}
use mathlib.Core.Bool.{Bool, true, false, ◌&&◌}
use mathlib.Core.List.{List, [], ◌∷◌, ◌++◌, map}
use mathlib.Core.Option.{Option, none, some}
use native.Mathlib.Omega.{arith}
use metal_native.Base.Lists.{length, length-append}
use metal_native.Base.Tests.{if◌then◌else◌, Eq, eqb, leb, ltb, nat_eq}

abbrev pub Text : Type 0
Text = List ℕ

abbrev pub codes : String → Text
codes String.[] = []
codes (String.◌∷◌ c s) = code c ∷ codes s

abbrev pub text_beq : Text → Text → Bool
text_beq [] [] = true
text_beq [] (d ∷ t) = false
text_beq (c ∷ s) [] = false
text_beq (c ∷ s) (d ∷ t) = eqb c d && text_beq s t

text_beq_refl : (s : Text) → text_beq s s ≡ true
text_beq_refl [] = refl
text_beq_refl (c ∷ s) = ground (arith, text_beq_refl s)

eq_of_text_beq : (s t : Text) → text_beq s t ≡ true → s ≡ t
eq_of_text_beq [] [] h = refl
eq_of_text_beq [] (d ∷ t) h = cc
eq_of_text_beq (c ∷ s) [] h = cc
eq_of_text_beq (c ∷ s) (d ∷ t) h = ground (arith, eq_of_text_beq s t)

pub text_beq_iff : (s t : Text) → (text_beq s t ≡ true) ↔ (s ≡ t)
text_beq_iff s t = (eq_of_text_beq s t, λ e. rw e (text_beq_refl t))

instance abbrev pub text_eq : Eq Text
text_eq = record { decides = text_beq_iff; test = text_beq }

-- No text is a proper end of itself.
longer : (c : ℕ) (s t : Text) → t ≢ c ∷ s ++ t
longer c s t h = let e = ap length h in omega (arith, e, length-append s t)

no_beq : (s t : Text) (b : Bool) → s ≢ t → text_beq s t ≡ b → b ≡ false
no_beq s t false n h = refl
no_beq s t true n h = absurd (n (eq_of_text_beq s t h))

pub text_beq-append : (s t u : Text) → text_beq (s ++ u) (t ++ u) ≡ text_beq s t
text_beq-append [] [] u = text_beq_refl u
text_beq-append [] (d ∷ t) u = no_beq u (d ∷ t ++ u) (text_beq u (d ∷ t ++ u)) (longer d t u) refl
text_beq-append (c ∷ s) [] u =
    no_beq (c ∷ s ++ u) u (text_beq (c ∷ s ++ u) u) (λ e. longer c s u (sym e)) refl
text_beq-append (c ∷ s) (d ∷ t) u = ap (λ b. eqb c d && b) (text_beq-append s t u)

-- `a <= b` on texts
abbrev pub text_leb : Text → Text → Bool
text_leb [] t = true
text_leb (c ∷ s) [] = false
text_leb (c ∷ s) (e ∷ t) =
    let rest = text_leb s t in if ltb c e then true else if ltb e c then false else rest

-- `s.lower()`
abbrev pub to_lower : ℕ → ℕ
to_lower c = if leb b'A' c && leb c b'Z' then c + 32 else c

abbrev pub lower : Text → Text
lower = map to_lower

-- `s.capitalize()`
abbrev pub to_upper : ℕ → ℕ
to_upper c = if leb b'a' c && leb c b'z' then c - 32 else c

abbrev pub capitalize : Text → Text
capitalize [] = []
capitalize (c ∷ s) = to_upper c ∷ lower s

-- `s.split(sep)[0]`
abbrev pub first_part : ℕ → Text → Text
first_part sep [] = []
first_part sep (c ∷ s) = let rest = first_part sep s in if eqb c sep then [] else c ∷ rest

-- The rest of `s` behind the prefix `p`, if it starts with that.
abbrev pub strip_prefix : Text → Text → Option Text
strip_prefix [] s = some s
strip_prefix (c ∷ p) [] = none
strip_prefix (c ∷ p) (d ∷ s) = if eqb c d then strip_prefix p s else none

abbrev cons_first : ℕ → Option (Text × Text) → Option (Text × Text)
cons_first c none = none
cons_first c (some (a, b)) = some (c ∷ a, b)

-- `s.split(sep, 1)` where that gives two parts.
abbrev pub split_once : ℕ → Text → Option (Text × Text)
split_once sep [] = none
split_once sep (c ∷ s) =
    let rest = split_once sep s in if eqb c sep then some ([], s) else cons_first c rest

-- `c` does not occur.
abbrev pub Lacks : ℕ → Text → Type 0
Lacks c [] = Unit
Lacks c (d ∷ s) = (d ≢ c) × Lacks c s

pub split_once-Lacks : (sep : ℕ) (s a b : Text) → split_once sep s ≡ some (a, b) → Lacks sep a
split_once-Lacks sep [] a b h = cc
split_once-Lacks sep (c ∷ s) [] b h = tt
split_once-Lacks sep (c ∷ s) (x ∷ a) b h = ground (arith, split_once-Lacks sep s a b)

pub split_once-append :
    (sep : ℕ) (a b : Text) → Lacks sep a → split_once sep (a ++ sep ∷ b) ≡ some (a, b)
split_once-append sep [] b h = ground arith
split_once-append sep (c ∷ a) b h = ground (arith, split_once-append sep a b)

pub strip_prefix-append : (p s : Text) → strip_prefix p (p ++ s) ≡ some s
strip_prefix-append [] s = refl
strip_prefix-append (c ∷ p) s = ground (arith, strip_prefix-append p s)
