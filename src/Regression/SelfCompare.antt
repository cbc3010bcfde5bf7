-- ===== src/Regression/SelfCompare.antt =====
-- regression_runner.py: a run that saves a baseline and compares with it.
use metal_native.Base.{
  ◌≡◌, ◌∙◌, ap, sym, refl, Bool, true, false, some, List, [], ◌∷◌, map, if◌then◌else◌, ◌==◌, All,
  beq_refl,
}
use mathlib.Core.Path.{subst}
use metal_native.Base.Dict.{Dict, lookup, insert, lookup-insert}
use metal_native.Base.Exec.{ok, pure, then_run, ◌>>◌}
use metal_native.Base.Text.{Text, text_eq}
use metal_native.Regression.{Floats, Bench, Comparison, by_name, comparisons, exit_code}
use metal_native.Regression.ExitCode.{NotSlower, exit_code_lem}
use metal_native.Regression.MainExit.{main_compared}
use metal_native.Regression.Runner.{Machine, State, BenchConfig, Statistics, run_all}
use metal_native.Regression.Main.{
  Args, Config, Store, as_bench, selected, threshold_of, save_if, main,
}

module _ (F : Floats) where
  -- No other result has this name.
  abbrev Other : Text → Bench F → Type 0
  Other name r = (r.name == name) ≡ false

  -- The names of the results differ.
  abbrev pub Distinct : List (Bench F) → Type 0
  Distinct [] = Unit
  Distinct (r ∷ results) = All (Other r.name) results × Distinct results

  by_name_keeps :
      (name : Text) (results : List (Bench F)) (d : Dict Text (Bench F))
      → All (Other name) results
      → lookup name (by_name F results d) ≡ lookup name d
  by_name_keeps name [] d w = refl
  by_name_keeps name (r ∷ results) d w =
      by_name_keeps name results (insert r.name r d) w.1
      ∙ lookup-insert r.name name r d
      ∙ ap (λ b. if b then some r else lookup name d) w.0

  abbrev Found : Dict Text (Bench F) → Bench F → Type 0
  Found d r = lookup r.name d ≡ some r

  by_name-Found :
      (results : List (Bench F)) (d : Dict Text (Bench F))
      → Distinct results
      → All (Found (by_name F results d)) results
  by_name-Found [] d w = tt
  by_name-Found (r ∷ results) d w = (
    by_name_keeps r.name results (insert r.name r d) w.0
        ∙ lookup-insert r.name r.name r d
        ∙ ap (λ b. if b then some r else lookup r.name d) (beq_refl r.name),
    by_name-Found results (insert r.name r d) w.1,
  )

  module _ (threshold : F.Float)
      (steady : (x q : F.Float)
        → F.div_f x x ≡ ok q
        → F.lt_f (F.add_f F.one_f threshold) q ≡ false) where
    Found-NotSlower :
        (d : Dict Text (Bench F)) (r : Bench F) → Found d r → NotSlower F d threshold r
    Found-NotSlower d r f b q l e =
        let same : r ≡ b = (let z = sym f ∙ l in cc) in
        steady r.median_ms q (subst (λ x. F.div_f r.median_ms x.median_ms ≡ ok q) (sym same) e)

    All-NotSlower :
        (d : Dict Text (Bench F)) (results : List (Bench F))
        → All (Found d) results
        → All (NotSlower F d threshold) results
    All-NotSlower d [] w = tt
    All-NotSlower d (r ∷ results) w = (Found-NotSlower d r w.0, All-NotSlower d results w.1)

    self_exit :
        (fail : Bool) (results : List (Bench F)) (cs : List (Comparison F))
        → Distinct results
        → comparisons F results (by_name F results []) threshold ≡ ok cs
        → exit_code F fail cs ≡ 0
    self_exit true results cs w h =
        let e = exit_code_lem F (by_name F results []) threshold results cs h in
        e.0.1 (All-NotSlower (by_name F results []) results (by_name-Found results [] w))
    self_exit false results cs w h =
        let e = exit_code_lem F (by_name F results []) threshold results cs h in
        let (a, b, zero_code) = e in zero_code

module _ (F : Floats) (M : Machine F) (S : Store F M) (config : Config F M) where
  module _
      (steady : (x q : F.Float)
        → F.div_f x x ≡ ok q
        → F.lt_f (F.add_f F.one_f (threshold_of F M S config)) q ≡ false) where
    -- A run with --save-baseline and --compare, whose results have different names, in which the
    -- benchmarks, the saving, the load, the comparisons and the report all return, exits with 0 where
    -- the baseline that is loaded holds the results just saved, as the latest one does: it compares
    -- the results with themselves, so that no earlier baseline is looked at and --fail-on-regression
    -- does nothing. What is assumed of floats is that x / x, where it is defined, does not exceed
    -- 1 + threshold.
    pub self_compare :
        (args : Args) (benchmarks : List (BenchConfig F M)) (results : List (Statistics F M))
        (label : Text) (cs : List (Comparison F)) (s t u v w : State F M)
        → S.config ≡ some config
        → selected F M args.category config.benchmarks ≡ some benchmarks
        → args.save_baseline ≡ true
        → args.compare ≡ true
        → run_all F M benchmarks config.outlier_removal s ≡ (ok results, t)
        → S.save args.baseline_label results t ≡ (ok label, u)
        → S.load args.baseline u ≡ (ok (map (as_bench F M) results), v)
        → Distinct F (map (as_bench F M) results)
        → comparisons F
            (map (as_bench F M) results)
            (by_name F (map (as_bench F M) results) [])
            (threshold_of F M S config)
          ≡ ok cs
        → S.report cs v ≡ (ok tt, w)
        → main F M S args s ≡ (ok 0, w)
    self_compare args benchmarks results label cs s t u v w c b sv cp r save l d h p =
        let benches = map (as_bench F M) results in
        let saved : save_if F M S args results t ≡ (ok tt, u) =
          ap (λ x. (if x then S.save args.baseline_label results >> pure tt else pure tt) t) sv
          ∙ ap (then_run (λ i. pure tt)) save in
        main_compared F M S config args benchmarks results benches cs s t u v w c b cp r saved l h p
        ∙ ap (λ n. (ok n, w))
            (self_exit F (threshold_of F M S config) steady args.fail_on_regression benches cs d h)
