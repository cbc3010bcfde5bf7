-- ===== src/Config/Number.antt =====
-- What config.py uses of `int(value)` on an ASCII text: blanks around it, a sign, and digits with
-- single underscores between them.
use metal_native.Base.{
  ℕ, suc, ◌+◌, ◌-◌, ◌*◌, Bool, true, false, ◌&&◌, ◌||◌, Option, none, some, [], ◌∷◌, if◌then◌else◌,
  leb, eqb,
}
use metal_native.Base.Int.{ℤ, pos, negsuc}
use metal_native.Base.Text.{Text}

is_digit : ℕ → Bool
is_digit c = leb b'0' c && leb c b'9'

-- `str.isspace` on ASCII
is_space : ℕ → Bool
is_space c = (leb 9 c && leb c 13) || (leb 28 c && leb c 32)

lstrip : Text → Text
lstrip [] = []
lstrip (c ∷ s) = let rest = lstrip s in if is_space c then rest else c ∷ s

rstrip : Text → Text
rstrip [] = []
rstrip (c ∷ s) = elim (rstrip s) [ [] ↦ if is_space c then [] else c ∷ [] | d ∷ r ↦ c ∷ d ∷ r ]

-- `after` says whether a digit stands before.
digits : ℕ → Bool → Text → Option ℕ
digits acc after [] = if after then some acc else none
digits acc after (c ∷ s) =
    let digit = digits (acc * 10 + (c - b'0')) true s in
    let skip = digits acc false s in
    if is_digit c then digit else if eqb c b'_' && after then skip else none

negative : Option ℕ → Option ℤ
negative none = none
negative (some n) = elim n [ ℕ.zero ↦ some (pos 0) | suc m ↦ some (negsuc m) ]

positive : Option ℕ → Option ℤ
positive none = none
positive (some n) = some (pos n)

signed : Text → Option ℤ
unfolding digits is_digit negative positive
signed [] = none
signed (c ∷ s) =
    if eqb c b'-'
    then negative (digits 0 false s)
    else if eqb c b'+'
    then positive (digits 0 false s)
    else positive (digits 0 false (c ∷ s))

unfoldable pub int_of : Text → Option ℤ
unfolding lstrip rstrip signed is_space
int_of s = signed (rstrip (lstrip s))
