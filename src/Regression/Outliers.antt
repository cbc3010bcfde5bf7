-- ===== src/Regression/Outliers.antt =====
-- regression_runner.py: what is left of the samples.
use metal_native.Base.{
  ◌*◌, ◌≡◌, ◌≤◌, ◌⊎◌, inl, inr, Bool, true, Bool-cases, List, [], ◌∷◌, ltb, length, keep_if, All,
  arith,
}
use metal_native.Regression.{Floats, in_bounds, remove_outliers_iqr}

module _ {A : Type 0} (p : A → Bool) where
  keep_if-All : (xs : List A) → All (λ x. p x ≡ true) (keep_if p xs)
  keep_if-All [] = tt
  keep_if-All (x ∷ xs) = elim (Bool-cases (p x)) [
    | inl e ↦ rw e (e, keep_if-All xs)
    | inr e ↦ rw e (keep_if-All xs)
  ]

module _ (F : Floats) where
  -- At least half of the samples stay, in their order: all of them, or those within the bounds that
  -- the quartiles set.
  pub remove_outliers_iqr_lem :
      (samples : List F.Float)
      → (length samples ≤ length (remove_outliers_iqr F samples) * 2)
        × ((remove_outliers_iqr F samples ≡ samples)
            ⊎ ((remove_outliers_iqr F samples ≡ keep_if (in_bounds F samples) samples)
                × All (λ s. in_bounds F samples s ≡ true) (remove_outliers_iqr F samples)))
  unfolding remove_outliers_iqr
  remove_outliers_iqr_lem samples = elim (Bool-cases (ltb (length samples) 4)) [
    | inl few ↦ (rw few (omega arith), inl (rw few))
    | inr many ↦
        elim (Bool-cases
          (ltb (length (keep_if (in_bounds F samples) samples) * 2) (length samples))) [
            | inl less ↦ (rw (many, less) (omega arith), inl (rw (many, less)))
            | inr half ↦ (
              rw (many, half) (ground arith),
              inr (rw (many, half), rw (many, half) (keep_if-All (in_bounds F samples) samples)),
            )
          ]
  ]
