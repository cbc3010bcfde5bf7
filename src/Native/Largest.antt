-- ===== src/Native/Largest.antt =====
-- profiling.py: what `memory_report` shows as the ten largest allocations.
use metal_native.Base.{
  ℕ, suc, zero, ◌+◌, ◌≡◌, ◌≤◌, ap, refl, leb, leb→le, Bool, Bool-cases, List, [], ◌∷◌, inl, inr,
  arith, length, take, keep_if, All, if◌then◌else◌,
}
use metal_native.Native.Report.{Sized, insert_by_size, sort_by_size, sorted_allocs}

-- How many of `allocs` pass the test.
abbrev pub count : (Sized → Bool) → List Sized → ℕ
count p allocs = length (keep_if p allocs)

abbrev AtMost : ℕ → Sized → Type 0
AtMost n a = a.size ≤ n

-- From the largest size to the smallest.
abbrev pub Descending : List Sized → Type 0
Descending [] = Unit
Descending (a ∷ allocs) = All (AtMost a.size) allocs × Descending allocs

abbrev drop : ℕ → List Sized → List Sized
drop zero allocs = allocs
drop (suc n) [] = []
drop (suc n) (a ∷ allocs) = drop n allocs

AtMost-le : (m n : ℕ) (allocs : List Sized) → m ≤ n → All (AtMost m) allocs → All (AtMost n) allocs
AtMost-le m n [] h w = tt
AtMost-le m n (a ∷ allocs) h w = (omega (arith, w.0), AtMost-le m n allocs h w.1)

insert-AtMost :
    (n : ℕ) (a : Sized) (allocs : List Sized)
    → a.size ≤ n
    → All (AtMost n) allocs
    → All (AtMost n) (insert_by_size a allocs)
insert-AtMost n a [] h w = (h, tt)
insert-AtMost n a (b ∷ allocs) h w = elim (Bool-cases (leb b.size a.size)) [
  | inl e ↦ rw e (h, w)
  | inr e ↦ rw e (w.0, insert-AtMost n a allocs h w.1)
]

insert-Descending :
    (a : Sized) (allocs : List Sized) → Descending allocs → Descending (insert_by_size a allocs)
insert-Descending a [] w = (tt, tt)
insert-Descending a (b ∷ allocs) w = elim (Bool-cases (leb b.size a.size)) [
  | inl e ↦ let h = leb→le b.size a.size e in rw e ((h, AtMost-le b.size a.size allocs h w.0), w)
  | inr e ↦ rw e (insert-AtMost b.size a allocs (ground arith) w.0, insert-Descending a allocs w.1)
]

sort-Descending : (allocs : List Sized) → Descending (sort_by_size allocs)
sort-Descending [] = tt
sort-Descending (a ∷ allocs) = insert-Descending a (sort_by_size allocs) (sort-Descending allocs)

count-insert :
    (p : Sized → Bool) (a : Sized) (allocs : List Sized)
    → count p (insert_by_size a allocs) ≡ count p (a ∷ allocs)
count-insert p a [] = refl
count-insert p a (b ∷ allocs) = ground (arith, count-insert p a allocs)

count-sort :
    (p : Sized → Bool) (allocs : List Sized) → count p (sort_by_size allocs) ≡ count p allocs
count-sort p [] = refl
count-sort p (a ∷ allocs) =
    ground (arith, count-sort p allocs, count-insert p a (sort_by_size allocs))

count-take :
    (p : Sized → Bool) (n : ℕ) (allocs : List Sized)
    → count p (take n allocs) + count p (drop n allocs) ≡ count p allocs
count-take p zero allocs = omega arith
count-take p (suc n) [] = refl
count-take p (suc n) (a ∷ allocs) = ground (arith, count-take p n allocs)

All-take : (P : Sized → Type 0) (n : ℕ) (allocs : List Sized) → All P allocs → All P (take n allocs)
All-take P zero allocs w = tt
All-take P (suc n) [] w = tt
All-take P (suc n) (a ∷ allocs) w = (w.0, All-take P n allocs w.1)

All-drop : (P : Sized → Type 0) (n : ℕ) (allocs : List Sized) → All P allocs → All P (drop n allocs)
All-drop P zero allocs w = w
All-drop P (suc n) [] w = tt
All-drop P (suc n) (a ∷ allocs) w = All-drop P n allocs w.1

take-Descending : (n : ℕ) (allocs : List Sized) → Descending allocs → Descending (take n allocs)
take-Descending zero allocs w = tt
take-Descending (suc n) [] w = tt
take-Descending (suc n) (a ∷ allocs) w =
    (All-take (AtMost a.size) n allocs w.0, take-Descending n allocs w.1)

-- Every alloc of `rest` is at most as large as every one of `shown`.
abbrev pub AllAtMost : List Sized → List Sized → Type 0
AllAtMost rest shown = All (λ a. All (AtMost a.size) rest) shown

take-AllAtMost :
    (n : ℕ) (allocs : List Sized) → Descending allocs → AllAtMost (drop n allocs) (take n allocs)
take-AllAtMost zero allocs w = tt
take-AllAtMost (suc n) [] w = tt
take-AllAtMost (suc n) (a ∷ allocs) w =
    (All-drop (AtMost a.size) n allocs w.0, take-AllAtMost n allocs w.1)

-- `min(n, m)`
abbrev pub min : ℕ → ℕ → ℕ
min n m = if leb n m then n else m

length-take : (n : ℕ) (allocs : List Sized) → length (take n allocs) ≡ min n (length allocs)
length-take zero allocs = ground arith
length-take (suc n) [] = ground arith
length-take (suc n) (a ∷ allocs) = ground (arith, length-take n allocs)

length-insert :
    (a : Sized) (allocs : List Sized) → length (insert_by_size a allocs) ≡ suc (length allocs)
length-insert a [] = refl
length-insert a (b ∷ allocs) = ground (arith, length-insert a allocs)

length-sort : (allocs : List Sized) → length (sort_by_size allocs) ≡ length allocs
length-sort [] = refl
length-sort (a ∷ allocs) = omega (arith, length-insert a (sort_by_size allocs), length-sort allocs)

-- The allocations split into the shown, ten or all of them, in descending order of size, and the
-- others, none of which is larger than one that is shown; every allocation is counted on one side.
pub sorted_allocs_lem :
    (allocs : List Sized)
    → (rest : List Sized) × ((p : Sized → Bool)
        → count p (sorted_allocs allocs) + count p rest ≡ count p allocs)
      × Descending (sorted_allocs allocs)
      × (length (sorted_allocs allocs) ≡ min 10 (length allocs))
      × AllAtMost rest (sorted_allocs allocs)
unfolding sorted_allocs
sorted_allocs_lem allocs = (
  drop 10 (sort_by_size allocs),
  λ p. rw (count-take p 10 (sort_by_size allocs)) (count-sort p allocs),
  take-Descending 10 (sort_by_size allocs) (sort-Descending allocs),
  rw (length-take 10 (sort_by_size allocs)) (ap (min 10) (length-sort allocs)),
  take-AllAtMost 10 (sort_by_size allocs) (sort-Descending allocs),
)
