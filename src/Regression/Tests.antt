-- ===== src/Regression/Tests.antt =====
-- regression_runner.py on whole numbers in the place of floats, in percent where they are ratios.
use metal_native.Base.{ℕ, ◌≡◌, refl, none, List, [], ◌∷◌}
use metal_native.Base.Dict.{Dict}
use metal_native.Base.Exec.{ok}
use metal_native.Base.Text.{Text, text_eq, codes}
use metal_native.Regression.{
  Bench, Comparison, regression, remove_outliers_iqr, by_name, comparisons,
}
use metal_native.Base.{string_eq}
use metal_native.Regression.Fixture.{floats}

-- Only the samples between the quartiles stay, since those are enough.
filters : remove_outliers_iqr floats (7 ∷ 7 ∷ 90 ∷ 7 ∷ []) ≡ 7 ∷ 7 ∷ 7 ∷ []
unfolding remove_outliers_iqr
filters = refl

keeps_all : remove_outliers_iqr floats (7 ∷ 9 ∷ 90 ∷ 8 ∷ []) ≡ 7 ∷ 9 ∷ 90 ∷ 8 ∷ []
unfolding remove_outliers_iqr
keeps_all = refl

abbrev bench : Text → ℕ → Bench floats
bench name median = record { name = name; category = none; median_ms = median }

abbrev before : Dict Text (Bench floats)
before = by_name floats (bench (codes "a") 10 ∷ []) []

abbrev results : List (Bench floats)
results = bench (codes "a") 11 ∷ bench (codes "new") 90 ∷ []

abbrev slower : Comparison floats
slower = record {
  name = codes "a";
  category = codes "unknown";
  current_ms = 11;
  baseline_ms = 10;
  ratio = 110;
  change_pct = 10;
  status = regression;
}

compares : comparisons floats results before 5 ≡ ok (slower ∷ [])
unfolding comparisons
compares = refl
