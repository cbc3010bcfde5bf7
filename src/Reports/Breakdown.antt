-- ===== src/Reports/Breakdown.antt =====
-- report_generator.py: the numbers of the breakdown by category.
use metal_native.Base.{
  ℕ, String, suc, ◌+◌, ◌≡◌, ◌∙◌, refl, ap, inl, inr, Bool, true, Bool-cases, Option-cases, none,
  some, List, [], ◌∷◌, ◌++◌, if◌then◌else◌, length, keep_if, ◌==◌, string_eq, All, arith, beq_refl,
}
use metal_native.Base.Dict.{lookup, has_key, insert, lookup-insert}
use metal_native.Base.Text.{Text, text_eq, text_leb}
use metal_native.Regression.{Floats, Comparison, regression, improvement}
use metal_native.Reports.{
  Line, fixed, generated, field, baseline, number, category, row, has_status, count_status,
  Categories, category_of, or_empty, add_to_category, group_from, insert_item, sort_items,
  category_lines, category_breakdown,
}
use metal_native.Reports.Groups.{HoldsCategory, group_from-HoldsCategory}

module _ (F : Floats) where
  -- How many comparisons of the categories pass the test.
  abbrev count_in : (Comparison F → Bool) → Categories F → ℕ
  count_in p [] = 0
  count_in p ((k, comps) ∷ d) = length (keep_if p comps) + count_in p d

  length-keep_if-append :
      (p : Comparison F → Bool) (xs : List (Comparison F)) (c : Comparison F)
      → length (keep_if p (xs ++ c ∷ [])) ≡ length (keep_if p (c ∷ [])) + length (keep_if p xs)
  length-keep_if-append p [] c = ground arith
  length-keep_if-append p (x ∷ xs) c = ground (arith, length-keep_if-append p xs c)

  count_in-insert_new :
      (p : Comparison F → Bool) (k : Text) (d : Categories F)
      → lookup k d ≡ none
      → count_in p (insert k [] d) ≡ count_in p d
  count_in-insert_new p k [] h = refl
  count_in-insert_new p k ((j, w) ∷ d) h = elim (Bool-cases (j == k)) [
    | inl e ↦ absurd (let z = rw e at h in cc)
    | inr e ↦ rw e (ap (λ n. length (keep_if p w) + n) (count_in-insert_new p k d (rw e at h)))
  ]

  count_in-insert :
      (p : Comparison F → Bool) (k : Text) (c : Comparison F) (v : List (Comparison F))
      (d : Categories F)
      → lookup k d ≡ some v
      → count_in p (insert k (v ++ c ∷ []) d) ≡ length (keep_if p (c ∷ [])) + count_in p d
  count_in-insert p k c v [] h = cc
  count_in-insert p k c v ((j, w) ∷ d) h = elim (Bool-cases (j == k)) [
    | inl e ↦
        let same : w ≡ v = (let z = rw e at h in cc) in
        let more = length-keep_if-append p v c in rw (e, same) (omega (arith, more))
    | inr e ↦ let rest = count_in-insert p k c v d (rw e at h) in rw e (omega (arith, rest))
  ]

  count_in-append :
      (p : Comparison F → Bool) (k : Text) (c : Comparison F) (v : List (Comparison F))
      (d : Categories F)
      → lookup k d ≡ some v
      → count_in p (insert k (or_empty F (lookup k d) ++ c ∷ []) d)
        ≡ length (keep_if p (c ∷ [])) + count_in p d
  count_in-append p k c v d h =
      ap (λ o. count_in p (insert k (or_empty F o ++ c ∷ []) d)) h ∙ count_in-insert p k c v d h

  count_in-add :
      (p : Comparison F → Bool) (c : Comparison F) (d : Categories F)
      → count_in p (add_to_category F c d) ≡ length (keep_if p (c ∷ [])) + count_in p d
  count_in-add p c d =
      let k = category_of F c in
      elim (Option-cases (lookup k d)) [
        | inl e ↦
            let there : lookup k (insert k [] d) ≡ some [] =
              lookup-insert k k [] d ∙ ap (λ b. if b then some [] else lookup k d) (beq_refl k) in
            let same = count_in-insert_new p k d e in
            rw (has_key, e)
              (count_in-append p k c [] (insert k [] d) there
                ∙ ap (λ n. length (keep_if p (c ∷ [])) + n) same)
        | inr (v, e) ↦ rw (has_key, e) (count_in-append p k c v d e)
      ]

  count_in-group_from :
      (p : Comparison F → Bool) (cs : List (Comparison F)) (d : Categories F)
      → count_in p (group_from F cs d) ≡ length (keep_if p cs) + count_in p d
  unfolding group_from
  count_in-group_from p [] d = omega arith
  count_in-group_from p (c ∷ cs) d =
      let rest = count_in-group_from p cs (add_to_category F c d) in
      let one = count_in-add p c d in ground (arith, rest, one)

  count_in-insert_item :
      (p : Comparison F → Bool) (item : Text × List (Comparison F)) (d : Categories F)
      → count_in p (insert_item F item d) ≡ length (keep_if p item.1) + count_in p d
  count_in-insert_item p item [] = refl
  count_in-insert_item p item (other ∷ d) = elim (Bool-cases (text_leb item.0 other.0)) [
    | inl e ↦ rw e refl
    | inr e ↦ let rest = count_in-insert_item p item d in rw e (omega (arith, rest))
  ]

  count_in-sort_items :
      (p : Comparison F → Bool) (d : Categories F) → count_in p (sort_items F d) ≡ count_in p d
  unfolding sort_items
  count_in-sort_items p [] = refl
  count_in-sort_items p (item ∷ d) =
      count_in-insert_item p item (sort_items F d)
      ∙ ap (λ n. length (keep_if p item.1) + n) (count_in-sort_items p d)

  insert_item-All :
      (P : Text × List (Comparison F) → Type 0) (item : Text × List (Comparison F))
      (d : Categories F)
      → P item
      → All P d
      → All P (insert_item F item d)
  insert_item-All P item [] h a = (h, tt)
  insert_item-All P item (other ∷ d) h a = elim (Bool-cases (text_leb item.0 other.0)) [
    | inl e ↦ rw e (h, a)
    | inr e ↦ rw e (a.0, insert_item-All P item d h a.1)
  ]

  sort_items-All :
      (P : Text × List (Comparison F) → Type 0) (d : Categories F)
      → All P d
      → All P (sort_items F d)
  unfolding sort_items
  sort_items-All P [] a = tt
  sort_items-All P (item ∷ d) a =
      insert_item-All P item (sort_items F d) a.0 (sort_items-All P d a.1)

  -- The sum of the numbers that lines show under a label.
  abbrev pub sum_shown : String → List (Line F) → ℕ
  sum_shown label [] = 0
  sum_shown label (number t n ∷ lines) =
      let rest = sum_shown label lines in if t == label then n + rest else rest
  sum_shown label (row c ∷ lines) = sum_shown label lines
  sum_shown label (fixed t ∷ lines) = sum_shown label lines
  sum_shown label (generated ∷ lines) = sum_shown label lines
  sum_shown label (field t v ∷ lines) = sum_shown label lines
  sum_shown label (baseline l h ∷ lines) = sum_shown label lines
  sum_shown label (category t ∷ lines) = sum_shown label lines

  keep_all : (cs : List (Comparison F)) → length (keep_if (λ c. true) cs) ≡ length cs
  keep_all [] = refl
  keep_all (c ∷ cs) = ap suc (keep_all cs)

  totals_shown :
      (d : Categories F) → sum_shown "- Total" (category_lines F d) ≡ count_in (λ c. true) d
  totals_shown [] = refl
  totals_shown ((k, comps) ∷ d) =
      let rest = totals_shown d in let all = keep_all comps in omega (arith, rest, all)

  regressions_shown :
      (d : Categories F)
      → sum_shown "- Regressions" (category_lines F d) ≡ count_in (has_status F regression) d
  regressions_shown [] = refl
  regressions_shown ((k, comps) ∷ d) =
      ap (λ n. count_status F regression comps + n) (regressions_shown d)

  improvements_shown :
      (d : Categories F)
      → sum_shown "- Improvements" (category_lines F d) ≡ count_in (has_status F improvement) d
  improvements_shown [] = refl
  improvements_shown ((k, comps) ∷ d) =
      ap (λ n. count_status F improvement comps + n) (improvements_shown d)

  count_in-sorted :
      (p : Comparison F → Bool) (cs : List (Comparison F))
      → count_in p (sort_items F (group_from F cs [])) ≡ length (keep_if p cs)
  count_in-sorted p cs =
      let sorted = count_in-sort_items p (group_from F cs []) in
      let grouped = count_in-group_from p cs [] in omega (arith, sorted, grouped)

  -- The breakdown splits the comparisons by the first part of their names: every category holds
  -- exactly the comparisons of that part, in their order, and over the categories the totals that
  -- are shown add up to the number of comparisons, and the regressions and the improvements that
  -- are shown to those of the report.
  pub category_breakdown_lem :
      (cs : List (Comparison F))
      → All (HoldsCategory F cs) (sort_items F (group_from F cs []))
        × (sum_shown "- Total" (category_breakdown F cs) ≡ length cs)
        × (sum_shown "- Regressions" (category_breakdown F cs) ≡ count_status F regression cs)
        × (sum_shown "- Improvements" (category_breakdown F cs) ≡ count_status F improvement cs)
  unfolding category_breakdown
  category_breakdown_lem cs =
      let d = sort_items F (group_from F cs []) in
      (
        sort_items-All (HoldsCategory F cs) (group_from F cs []) (group_from-HoldsCategory F cs),
        totals_shown d ∙ count_in-sorted (λ c. true) cs ∙ keep_all cs,
        regressions_shown d ∙ count_in-sorted (has_status F regression) cs,
        improvements_shown d ∙ count_in-sorted (has_status F improvement) cs,
      )
