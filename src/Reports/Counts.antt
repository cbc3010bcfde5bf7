-- ===== src/Reports/Counts.antt =====
-- report_generator.py: the numbers of the summary, and the exit code of the run that is reported.
use metal_native.Base.{
  suc, ◌+◌, ◌≡◌, ◌↔◌, refl, true, List, [], ◌∷◌, length, keep_if, if◌then◌else◌, arith,
}
use metal_native.Regression.{
  Floats, Status, regression, improvement, stable, Comparison, is_regression, exit_code,
}
use metal_native.Reports.{Meta, status_beq, has_status, count_status, json_report}

module _ (F : Floats) where
  status_counts :
      (cs : List (Comparison F))
      → count_status F stable cs + count_status F improvement cs + count_status F regression cs
        ≡ length cs
  status_counts [] = refl
  status_counts (c ∷ cs) = one_more c.status (status_counts cs)
    where
      one_more :
          (s : Status)
          → count_status F stable cs + count_status F improvement cs + count_status F regression cs
            ≡ length cs
          → length (
                if status_beq s stable
                then c ∷ keep_if (has_status F stable) cs
                else keep_if (has_status F stable) cs)
              + length (
                  if status_beq s improvement
                  then c ∷ keep_if (has_status F improvement) cs
                  else keep_if (has_status F improvement) cs)
              + length (
                  if status_beq s regression
                  then c ∷ keep_if (has_status F regression) cs
                  else keep_if (has_status F regression) cs)
            ≡ suc (length cs)
      one_more regression h = omega (arith, h)
      one_more improvement h = omega (arith, h)
      one_more stable h = omega (arith, h)

  same_test : (c : Comparison F) → is_regression F c ≡ has_status F regression c
  same_test c = of_status c c.status refl
    where
      of_status :
          (c : Comparison F) (s : Status)
          → c.status ≡ s
          → is_regression F c ≡ has_status F regression c
      of_status c regression e = rw e refl
      of_status c improvement e = rw e refl
      of_status c stable e = rw e refl

  regressions_counted :
      (cs : List (Comparison F))
      → length (keep_if (is_regression F) cs) ≡ count_status F regression cs
  regressions_counted [] = refl
  regressions_counted (c ∷ cs) =
      let h = same_test c in let i = regressions_counted cs in rw h (ground (arith, i))

  -- The counts in the summary of the JSON report add up to its total, which is the number of the
  -- comparisons, and a run under --fail-on-regression exits with 0 exactly where the report of its
  -- comparisons counts no regression.
  summary_lem :
      (cs : List (Comparison F)) (current before : Meta)
      → let s = (json_report F cs current before).summary in
        (s.stable_count + s.improvement_count + s.regression_count ≡ s.total)
        × (s.total ≡ length cs)
        × ((exit_code F true cs ≡ 0) ↔ (s.regression_count ≡ 0))
  unfolding json_report exit_code
  summary_lem cs current before =
      let h = regressions_counted cs in
      (status_counts cs, refl, (λ z. ground (arith, h), λ z. ground (arith, h)))
