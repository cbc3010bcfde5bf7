-- ===== src/Regression/MainExit.antt =====
-- regression_runner.py: the exit code of a run of `main` with --compare.
use metal_native.Base.{
  ℕ, ◌≡◌, ◌∙◌, ◌↔◌, ◌⊎◌, inl, inr, ap, refl, Bool, true, false, some, List, [], map, All,
  if◌then◌else◌,
}
use metal_native.Base.Exec.{ok, Exec, pure, lift, try_except, then_run, ◌>>=◌, ◌>>◌}
use metal_native.Regression.{Floats, Bench, Comparison, by_name, comparisons, exit_code}
use metal_native.Regression.ExitCode.{NotSlower, exit_code_lem}
use metal_native.Regression.Runner.{Machine, State, BenchConfig, Statistics, run_all}
use metal_native.Regression.Main.{
  Args, Config, Store, as_bench, selected, threshold_of, save_if, compare_results, on_missing,
  run_if, run_config, main,
}

module _ (F : Floats) (M : Machine F) (S : Store F M) (config : Config F M) (args : Args)
    (benchmarks : List (BenchConfig F M)) (results : List (Statistics F M))
    (before : List (Bench F)) (cs : List (Comparison F)) (s t u v w : State F M) where
  -- The comparisons of the results with the loaded baseline succeed, with this outcome.
  abbrev pub Compares : Type 0
  Compares =
      comparisons F (map (as_bench F M) results) (by_name F before []) (threshold_of F M S config)
      ≡ ok cs

  -- A run with --compare in which every part returns exits with the code of its comparisons.
  pub main_compared :
      S.config ≡ some config
      → selected F M args.category config.benchmarks ≡ some benchmarks
      → args.compare ≡ true
      → run_all F M benchmarks config.outlier_removal s ≡ (ok results, t)
      → save_if F M S args results t ≡ (ok tt, u)
      → S.load args.baseline u ≡ (ok before, v)
      → Compares
      → S.report cs v ≡ (ok tt, w)
      → main F M S args s ≡ (ok (exit_code F args.fail_on_regression cs), w)
  unfolding main
  main_compared c b cp r save l h p =
      let benches = map (as_bench F M) results in
      let finish : List (Comparison F) → Exec (State F M) ℕ =
        λ x. S.report x >> pure (exit_code F args.fail_on_regression x) in
      let compared : List (Bench F) → Exec (State F M) ℕ =
        λ x. lift (comparisons F benches (by_name F x []) (threshold_of F M S config)) >>= finish in
      let last : Exec (State F M) ℕ =
        if args.compare
        then try_except (compare_results F M S args config results) (on_missing F M S)
        else pure 0 in
      let after_run : List (Statistics F M) → Exec (State F M) ℕ = λ x.
        save_if F M S args x
        >> (if args.compare
            then try_except (compare_results F M S args config x) (on_missing F M S)
            else pure 0) in
      let code = exit_code F args.fail_on_regression cs in
      let ended : compare_results F M S args config results u ≡ (ok code, w) =
        ap (then_run compared) l
        ∙ ap (λ x. (lift x >>= finish) v) h
        ∙ ap (then_run (λ i. pure code)) p in
      ap (λ x. run_config F M S args x s) c
      ∙ ap (λ x. run_if F M S args config x s) b
      ∙ ap (then_run after_run) r
      ∙ ap (then_run (λ i. last)) save
      ∙ ap
          (λ x.
            (if x
                then try_except (compare_results F M S args config results) (on_missing F M S)
                else pure 0)
              u)
          cp
      ∙ ap (λ x. try_except (λ q. x) (on_missing F M S) u) ended

  facts :
      Compares
      → ((exit_code F true cs ≡ 0)
          ↔ All
              (NotSlower F (by_name F before []) (threshold_of F M S config))
              (map (as_bench F M) results))
        × ((exit_code F true cs ≡ 0) ⊎ (exit_code F true cs ≡ 1))
        × (exit_code F false cs ≡ 0)
  facts h =
      exit_code_lem F (by_name F before []) (threshold_of F M S config) (map (as_bench F M) results)
        cs h

  -- The code is 0 without --fail-on-regression, and with it where no result is slower.
  code_cases :
      (fail : Bool)
      → Compares
      → ((exit_code F fail cs ≡ 0) ↔ (
          (fail ≡ false)
          ⊎ All
              (NotSlower F (by_name F before []) (threshold_of F M S config))
              (map (as_bench F M) results)))
        × ((exit_code F fail cs ≡ 0) ⊎ (exit_code F fail cs ≡ 1))
  code_cases true h =
      let (slow, code, off) = facts h in
      ((λ z. inr (slow.0 z), λ a. elim a [ inl e ↦ cc | inr a ↦ slow.1 a ]), code)
  code_cases false h = let (slow, code, off) = facts h in ((λ z. inl refl, λ a. off), inl off)

  -- A run of `main` with --compare in which all parts return, that is the benchmarks, the saving of a
  -- baseline where it is asked for, the load of the baseline, the comparisons and the report, exits
  -- with 0 or 1; and with 0 exactly where --fail-on-regression is off or no result is slower than
  -- its baseline by more than the threshold.
  pub main_exit_lem :
      S.config ≡ some config
      → selected F M args.category config.benchmarks ≡ some benchmarks
      → args.compare ≡ true
      → run_all F M benchmarks config.outlier_removal s ≡ (ok results, t)
      → save_if F M S args results t ≡ (ok tt, u)
      → S.load args.baseline u ≡ (ok before, v)
      → Compares
      → S.report cs v ≡ (ok tt, w)
      → (code : ℕ) × (main F M S args s ≡ (ok code, w))
        × ((code ≡ 0) ↔ (
            (args.fail_on_regression ≡ false)
            ⊎ All
                (NotSlower F (by_name F before []) (threshold_of F M S config))
                (map (as_bench F M) results)))
        × ((code ≡ 0) ⊎ (code ≡ 1))
  main_exit_lem c b cp r save l h p =
      let (i, j) = code_cases args.fail_on_regression h in
      (exit_code F args.fail_on_regression cs, main_compared c b cp r save l h p, i, j)
