-- ===== src/Tensor/Axes.antt =====
-- tensor.py: the axes that `transpose` hands to NumPy.
use metal_native.Base.{
  ℕ, zero, suc, ◌+◌, ◌-◌, ◌<◌, ◌≡◌, ◌⊎◌, ◌∙◌, inl, inr, refl, ltb, eqb, ◌&&◌, Bool-cases, none,
  some, List, [], ◌∷◌, arith, if◌then◌else◌, length, get_elem?, set,
}
use metal_native.Base.Exec.{ok, err, index_error}
use metal_native.Base.Int.{ℤ, pos, negsuc}
use metal_native.Tensor.Reduce.{place, range_from, get_or_zero, swap, swapped_axes}

get_elem?-set :
    (xs : List ℕ) (i v k : ℕ)
    → get_elem? (set xs i v) k ≡ (if eqb i k && ltb k (length xs) then some v else get_elem? xs k)
get_elem?-set [] i v k = ground arith
get_elem?-set (x ∷ xs) zero v zero = ground arith
get_elem?-set (x ∷ xs) zero v (suc k) = ground arith
get_elem?-set (x ∷ xs) (suc i) v zero = ground arith
get_elem?-set (x ∷ xs) (suc i) v (suc k) = ground (arith, get_elem?-set xs i v k)

length-set : (xs : List ℕ) (i v : ℕ) → length (set xs i v) ≡ length xs
length-set [] i v = refl
length-set (x ∷ xs) zero v = refl
length-set (x ∷ xs) (suc i) v = omega (arith, length-set xs i v)

length-range : (i n : ℕ) → length (range_from i n) ≡ n
length-range i zero = refl
length-range i (suc n) = omega (arith, length-range (suc i) n)

get_elem?-range :
    (i n k : ℕ) → get_elem? (range_from i n) k ≡ (if ltb k n then some (i + k) else none)
get_elem?-range i zero k = ground arith
get_elem?-range i (suc n) zero = ground arith
get_elem?-range i (suc n) (suc k) = ground (arith, get_elem?-range (suc i) n k)

get_or_zero-range : (n k : ℕ) → k < n → get_or_zero (range_from 0 n) k ≡ k
get_or_zero-range n k h = ground (arith, get_elem?-range 0 n k)

-- Where the two places of the swap trade their numbers.
abbrev pub traded : ℕ → ℕ → ℕ → ℕ
traded i j k = if eqb k i then j else if eqb k j then i else k

get_elem?-swap :
    (n i j k : ℕ)
    → i < n
    → j < n
    → k < n
    → get_elem? (swap i j (range_from 0 n)) k ≡ some (traded i j k)
get_elem?-swap n i j k p q r = ground (
  arith,
  get_elem?-set (set (range_from 0 n) i (get_or_zero (range_from 0 n) j)) j
      (get_or_zero (range_from 0 n) i) k,
  get_elem?-set (range_from 0 n) i (get_or_zero (range_from 0 n) j) k,
  length-set (range_from 0 n) i (get_or_zero (range_from 0 n) j),
  length-range 0 n,
  get_or_zero-range n i p,
  get_or_zero-range n j q,
  get_elem?-range 0 n k,
)

place-lt : (n : ℕ) (d : ℤ) (i : ℕ) → place n d ≡ ok i → i < n
place-lt n (pos a) i h = elim (Bool-cases (ltb a n)) [ inl e ↦ ground arith | inr e ↦ ground arith ]
place-lt n (negsuc a) i h = ground arith

place-cases : (n : ℕ) (d : ℤ) → ((i : ℕ) × (place n d ≡ ok i)) ⊎ (place n d ≡ err index_error)
place-cases n (pos a) = elim (Bool-cases (ltb a n)) [ inl e ↦ inl (a, rw e) | inr e ↦ inr (rw e) ]
place-cases n (negsuc a) = elim (Bool-cases (ltb a n)) [
  | inl e ↦ inl (n - suc a, rw e)
  | inr e ↦ inr (rw e)
]

swapped_axes_err :
    (n : ℕ) (d0 d1 : ℤ)
    → (place n d0 ≡ err index_error) ⊎ (place n d1 ≡ err index_error)
    → swapped_axes n d0 d1 ≡ err index_error
unfolding swapped_axes
swapped_axes_err n d0 d1 (inl p) = elim (place-cases n d1) [ inl (j, q) ↦ rw (q, p) | inr q ↦ rw q ]
swapped_axes_err n d0 d1 (inr q) = rw q

-- Two dimensions that name places of the shape, from its end if negative, give as axes every
-- dimension once, with these two traded; any other dimension raises IndexError.
pub swapped_axes_lem :
    (n : ℕ) (d0 d1 : ℤ)
    → ((i j : ℕ)
        → place n d0 ≡ ok i
        → place n d1 ≡ ok j
        → (axes : List ℕ) × (swapped_axes n d0 d1 ≡ ok axes)
          × (length axes ≡ n)
          × ((k : ℕ) → k < n → get_elem? axes k ≡ some (traded i j k)))
      × ((place n d0 ≡ err index_error) ⊎ (place n d1 ≡ err index_error)
          → swapped_axes n d0 d1 ≡ err index_error)
unfolding swapped_axes
swapped_axes_lem n d0 d1 = (
  λ i j p q. (
    swap i j (range_from 0 n),
    rw (q, p),
    length-set (set (range_from 0 n) i (get_or_zero (range_from 0 n) j)) j
          (get_or_zero (range_from 0 n) i)
        ∙ length-set (range_from 0 n) i (get_or_zero (range_from 0 n) j)
        ∙ length-range 0 n,
    λ k r. get_elem?-swap n i j k (place-lt n d0 i p) (place-lt n d1 j q) r,
  ),
  swapped_axes_err n d0 d1,
)
