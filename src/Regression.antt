-- ===== src/Regression.antt =====
-- benchmarks/regression_runner.py: the removal of outliers, the comparison with a baseline, and the
-- exit code. Floats and NumPy's percentiles are a parameter.
pub mod Outliers
pub mod ExitCode
pub mod Runner
pub mod Samples
pub mod Placeholders
pub mod Main
pub mod MainExit
pub mod SelfCompare
pub mod Fixture
mod Tests
mod RunnerTests
use metal_native.Base.{
  ℕ, ◌*◌, Bool, true, false, ◌&&◌, ◌||◌, Option, none, some, List, [], ◌∷◌, if◌then◌else◌, ltb, leb,
  length, keep_if,
}
use metal_native.Base.Dict.{Dict, lookup, insert}
use metal_native.Base.Exec.{Result, ok, err}
use metal_native.Base.Text.{Text, text_eq, codes}

pub record Floats : Type 1 where
  pub Float : Type 0
  pub one_f : Float
  pub hundred_f : Float
  pub one_and_half : Float
  pub add_f : Float → Float → Float
  pub sub_f : Float → Float → Float
  pub mul_f : Float → Float → Float
  -- A division by zero raises.
  pub div_f : Float → Float → Result Float
  pub lt_f : Float → Float → Bool
  pub le_f : Float → Float → Bool
  pub percentile : List Float → ℕ → Float

pub data Status : Type 0 where
  regression improvement stable : Status

module _ (F : Floats) where
  open F use {
    Float, one_f, hundred_f, one_and_half, add_f, sub_f, mul_f, div_f, lt_f, le_f, percentile,
  }

  -- `lower_bound <= s <= upper_bound`, for the quartiles of the samples
  abbrev pub in_bounds : List Float → Float → Bool
  in_bounds samples s =
      let q1 = percentile samples 25 in
      let q3 = percentile samples 75 in
      let margin = mul_f one_and_half (sub_f q3 q1) in
      le_f (sub_f q1 margin) s && le_f s (add_f q3 margin)

  -- `len(filtered) < len(samples) * 0.5` compares twice the one with the other.
  unfoldable pub remove_outliers_iqr : List Float → List Float
  remove_outliers_iqr samples =
      let filtered = keep_if (in_bounds samples) samples in
      if ltb (length samples) 4
      then samples
      else if ltb (length filtered * 2) (length samples)
      then samples
      else filtered

  -- The entries of a result that the comparison reads.
  pub record Bench : Type 0 where
    pub name : Text
    pub category : Option Text
    pub median_ms : Float

  pub record Comparison : Type 0 where
    pub name : Text
    pub category : Text
    pub current_ms : Float
    pub baseline_ms : Float
    pub ratio : Float
    pub change_pct : Float
    pub status : Status

  abbrev pub status_of : Float → Float → Status
  status_of ratio threshold =
      if lt_f (add_f one_f threshold) ratio
      then regression
      else if lt_f ratio (sub_f one_f threshold)
      then improvement
      else stable

  abbrev pub or_unknown : Option Text → Text
  or_unknown none = codes "unknown"
  or_unknown (some c) = c

  abbrev pub comparison : Bench → Bench → Float → Result Float → Result Comparison
  comparison current baseline threshold (err e) = err e
  comparison current baseline threshold (ok r) = ok (record {
    name = current.name;
    category = or_unknown current.category;
    current_ms = current.median_ms;
    baseline_ms = baseline.median_ms;
    ratio = r;
    change_pct = mul_f (sub_f r one_f) hundred_f;
    status = status_of r threshold;
  })

  unfoldable pub compare_with_baseline : Bench → Bench → Float → Result Comparison
  compare_with_baseline current baseline threshold =
      comparison current baseline threshold (div_f current.median_ms baseline.median_ms)

  -- `{r["name"]: r for r in baseline_data["results"]}`, into `d`
  abbrev pub by_name : List Bench → Dict Text Bench → Dict Text Bench
  by_name [] d = d
  by_name (r ∷ results) d = by_name results (insert r.name r d)

  abbrev pub and_rest : Result Comparison → Result (List Comparison) → Result (List Comparison)
  and_rest (err e) rest = err e
  and_rest (ok c) (err e) = err e
  and_rest (ok c) (ok rest) = ok (c ∷ rest)

  -- The loop over the results in `main`.
  unfoldable pub comparisons : List Bench → Dict Text Bench → Float → Result (List Comparison)
  unfolding compare_with_baseline
  comparisons [] baseline threshold = ok []
  comparisons (r ∷ results) baseline threshold =
      let rest = comparisons results baseline threshold in
      elim (lookup r.name baseline) [
        | none ↦ rest
        | some b ↦ and_rest (compare_with_baseline r b threshold) rest
      ]

  abbrev pub is_regression : Comparison → Bool
  is_regression c = elim c.status [ regression ↦ true | improvement ↦ false | stable ↦ false ]

  -- The status check of `main`, after the comparisons and the report: 1 is `sys.exit(1)`.
  unfoldable pub exit_code : Bool → List Comparison → ℕ
  exit_code fail_on_regression cs =
      if fail_on_regression && ltb 0 (length (keep_if is_regression cs)) then 1 else 0
