-- ===== src/Reports/Tests.antt =====
-- report_generator.py on three comparisons, with whole numbers in the place of floats.
use metal_native.Base.{keep_if, ℕ, ◌≡◌, refl, none, some, List, [], ◌∷◌, ltb, All}
use metal_native.Base.Exec.{ok}
use metal_native.Base.Text.{Text, codes}
use metal_native.Regression.{Floats, Status, regression, improvement, stable, Comparison}
use metal_native.Reports.{
  has_status, Meta, Line, number, markdown_lines, text_lines, json_report, sort_items, group_from,
  category_breakdown,
}
use metal_native.Reports.Rows.{comparisons_of, expected, reports_lem}
use metal_native.Reports.Groups.{HoldsCategory}
use metal_native.Reports.Breakdown.{sum_shown, category_breakdown_lem}

abbrev floats : Floats
floats = record {
  Float = ℕ;
  one_f = 100;
  hundred_f = 1;
  one_and_half = 1;
  add_f = λ a b. a;
  sub_f = λ a b. a;
  mul_f = λ a b. a;
  div_f = λ a b. ok a;
  lt_f = ltb;
  le_f = ltb;
  percentile = λ samples p. 0;
}

abbrev compared : Text → Status → Comparison floats
compared name status = record {
  name = name;
  category = codes "unknown";
  current_ms = 1;
  baseline_ms = 1;
  ratio = 100;
  change_pct = 0;
  status = status;
}

abbrev three : List (Comparison floats)
three =
    compared (codes "matmul_small") regression
    ∷ compared (codes "attention") stable
    ∷ compared (codes "matmul_large") improvement
    ∷ []

abbrev meta : Meta
meta = record { label = none; git_hash = some (codes "0123456789abcdef"); git_branch = none }

-- The category of the first comparison comes last.
breaks_down :
    category_breakdown floats three
    ≡ Line.fixed "## Category Breakdown"
      ∷ Line.fixed ""
      ∷ Line.category (codes "Attention")
      ∷ Line.fixed ""
      ∷ number "- Total" 1
      ∷ number "- Regressions" 0
      ∷ number "- Improvements" 0
      ∷ Line.fixed ""
      ∷ Line.category (codes "Matmul")
      ∷ Line.fixed ""
      ∷ number "- Total" 2
      ∷ number "- Regressions" 1
      ∷ number "- Improvements" 1
      ∷ Line.fixed ""
      ∷ []
unfolding category_breakdown
breaks_down = refl

category_breakdown_lem_example :
    All (HoldsCategory floats three) (sort_items floats (group_from floats three []))
    × (sum_shown floats "- Total" (category_breakdown floats three) ≡ 3)
    × (sum_shown floats "- Regressions" (category_breakdown floats three) ≡ 1)
    × (sum_shown floats "- Improvements" (category_breakdown floats three) ≡ 1)
category_breakdown_lem_example = category_breakdown_lem floats three

reports_lem_example :
    (comparisons_of floats (markdown_lines floats three meta meta) ≡ expected floats three)
    × (comparisons_of floats (text_lines floats three meta meta) ≡ expected floats three)
    × (let r = json_report floats three meta meta in
        (r.regressions ≡ keep_if (has_status floats regression) three)
        × (r.improvements ≡ keep_if (has_status floats improvement) three)
        × (r.all_results ≡ three))
reports_lem_example = reports_lem floats three meta meta
