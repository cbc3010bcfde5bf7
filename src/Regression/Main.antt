-- ===== src/Regression/Main.antt =====
-- regression_runner.py: `main`, with its exit code as its result. The parsed configuration, the
-- baseline manager and the print of the report are a parameter.
use metal_native.Base.{
  ℕ, Bool, Option, none, some, List, [], ◌∷◌, map, if◌then◌else◌, ◌==◌, keep_if,
}
use metal_native.Base.Exec.{Exn, file_not_found, Exec, pure, raise, lift, try_except, ◌>>=◌, ◌>>◌}
use metal_native.Base.Text.{Text, text_eq}
use metal_native.Regression.{Floats, Bench, Comparison, by_name, comparisons, exit_code}
use metal_native.Regression.Runner.{Machine, State, BenchConfig, Statistics, run_all}

-- The arguments of the command that `main` reads, but the path of the configuration and the format
-- of the report.
pub record Args : Type 0 where
  pub save_baseline : Bool
  pub baseline_label : Option Text
  pub compare : Bool
  pub baseline : Text
  pub category : Option Text
  pub fail_on_regression : Bool

module _ (F : Floats) (M : Machine F) where
  pub record Config : Type 0 where
    pub benchmarks : List (BenchConfig F M)
    pub outlier_removal : Text
    pub regression_threshold_default : Option F.Float

  pub record Store : Type 0 where
    -- The configuration, if its file is there.
    pub config : Option Config
    -- `baseline_mgr.save_baseline`, and the results of `baseline_mgr.load_baseline`
    pub save : Option Text → List (Statistics F M) → Exec (State F M) Text
    pub load : Text → Exec (State F M) (List (Bench F))
    -- The report is generated, printed, and written where a file is given for it.
    pub report : List (Comparison F) → Exec (State F M) (Unit {0})
    -- 0.05
    pub default_threshold : F.Float

  -- The entries of a result that the comparison reads.
  abbrev pub as_bench : Statistics F M → Bench F
  as_bench r = record { name = r.name; category = some r.category; median_ms = r.median_ms }

  -- `if args.category: ...`, where an empty text is false.
  abbrev pub selected : Option Text → List (BenchConfig F M) → Option (List (BenchConfig F M))
  selected none benchmarks = some benchmarks
  selected (some []) benchmarks = some benchmarks
  selected (some (c ∷ category)) benchmarks =
      let chosen = keep_if (λ b. b.category == (c ∷ category)) benchmarks in
      elim chosen [ [] ↦ none | b ∷ bs ↦ some (b ∷ bs) ]

  module _ (S : Store) where
    abbrev pub threshold_of : Config → F.Float
    threshold_of config = elim config.regression_threshold_default [
      | none ↦ S.default_threshold
      | some t ↦ t
    ]

    abbrev pub save_if : Args → List (Statistics F M) → Exec (State F M) (Unit {0})
    save_if args results =
        if args.save_baseline then S.save args.baseline_label results >> pure tt else pure tt

    abbrev pub compare_results : Args → Config → List (Statistics F M) → Exec (State F M) ℕ
    compare_results args config results = S.load args.baseline >>= λ baseline.
        lift (comparisons F (map as_bench results) (by_name F baseline []) (threshold_of config))
        >>= λ cs. S.report cs >> pure (exit_code F args.fail_on_regression cs)

    -- `except FileNotFoundError: ... sys.exit(1)`; the SystemExit of a regression is not caught.
    abbrev pub on_missing : Exn → Exec (State F M) ℕ
    on_missing file_not_found = pure 1
    on_missing e = raise e

    abbrev pub run_selected : Args → Config → List (BenchConfig F M) → Exec (State F M) ℕ
    run_selected args config benchmarks =
        run_all F M benchmarks config.outlier_removal >>= λ results.
        save_if args results
        >> (if args.compare
            then try_except (compare_results args config results) on_missing
            else pure 0)

    abbrev pub run_if : Args → Config → Option (List (BenchConfig F M)) → Exec (State F M) ℕ
    run_if args config none = pure 1
    run_if args config (some benchmarks) = run_selected args config benchmarks

    abbrev pub run_config : Args → Option Config → Exec (State F M) ℕ
    run_config args none = pure 1
    run_config args (some config) = run_if args config (selected args.category config.benchmarks)

    unfoldable pub main : Args → Exec (State F M) ℕ
    unfolding run_all comparisons exit_code
    main args = run_config args S.config
