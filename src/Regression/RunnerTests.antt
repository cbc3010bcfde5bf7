-- ===== src/Regression/RunnerTests.antt =====
-- regression_runner.py: runs of benchmarks by a clock that goes on evenly.
use metal_native.Base.{
  ◌↔◌, ◌⊎◌, All, ℕ, ◌+◌, ◌≡◌, refl, true, false, none, List, [], ◌∷◌, ltb, length,
}
use metal_native.Base.Exec.{Result, ok, err}
use metal_native.Base.Text.{text_eq, codes}
use metal_native.Regression.{Comparison, stable, remove_outliers_iqr, by_name, comparisons}
use metal_native.Base.{some, string_eq}
use metal_native.Base.Dict.{lookup}
use metal_native.Base.Exec.{Exec, pure, other}
use metal_native.Package.{Package, imported, initialized}
use metal_native.Regression.Runner.{
  matmul, softmax, Params, Machine, State, BenchConfig, Statistics, dispatch, placeholders,
  benchmark, run_benchmark,
}
use metal_native.Regression.Samples.{Reported, run_benchmark_lem}
use metal_native.Base.{arith}
use metal_native.Regression.Main.{Args, Config, Store, as_bench, main}
use metal_native.Regression.ExitCode.{NotSlower}
use metal_native.Regression.MainExit.{main_exit_lem}
use metal_native.Regression.SelfCompare.{self_compare}
use metal_native.Regression.Runner.{run_all}
use metal_native.Regression.Placeholders.{benchmark-placeholders}
use metal_native.Base.Exec.{value_error}
use metal_native.Regression.Fixture.{percent, floats}

-- The world is the time, which goes on by 7 with every look at the clock.
abbrev tick : Exec (ℕ × Package) ℕ
tick (t, p) = (ok t, (t + 7, p))

abbrev middle : List ℕ → Result ℕ
middle [] = err other
middle (x ∷ xs) = ok x

abbrev machine : Machine floats
machine = record {
  World = ℕ;
  Inputs = ℕ;
  has_metal_native = true;
  fails = λ m. false;
  make_inputs = λ op sizes half. pure (length sizes);
  kernel = λ op x. pure tt;
  synchronize = pure tt;
  perf_counter = tick;
  placeholder = λ op sizes. pure 90;
  thousand_f = 1;
  median = middle;
  mean = middle;
  stdev = middle;
  minimum = middle;
  maximum = middle;
  zero_f = 0;
}

abbrev begun : State floats machine
begun = (0, imported initialized)

abbrev of_matmul : BenchConfig floats machine
of_matmul = record {
  name = codes "matmul_small";
  category = codes "matmul";
  op = codes "matmul";
  params = record {
    sizes = (codes "M", 2) ∷ (codes "N", 3) ∷ (codes "K", 4) ∷ [];
    dtype = some (codes "float16");
  };
  warmup_iters = 2;
  bench_iters = 4;
}

-- The clock is read twice for every sample.
measures :
    benchmark floats machine matmul of_matmul.params 2 4 begun
    ≡ (ok (7 ∷ 7 ∷ 7 ∷ 7 ∷ []), (56, imported initialized))
unfolding benchmark
measures = refl

run_benchmark_lem_example :
    Reported floats machine of_matmul (run_benchmark floats machine of_matmul (codes "iqr") begun)
    × (dispatch floats machine (codes "matmul") ≡ none
        → run_benchmark floats machine of_matmul (codes "iqr") begun ≡ (err value_error, begun))
run_benchmark_lem_example = run_benchmark_lem floats machine of_matmul (codes "iqr") begun

abbrev softmax_params : Params
softmax_params = record {
  sizes = (codes "batch", 2) ∷ (codes "rows", 3) ∷ (codes "cols", 4) ∷ [];
  dtype = none;
}

no_softmax : lookup "softmax" (imported initialized).names ≡ none
unfolding imported
no_softmax = refl

with_extension : (imported initialized).extension ≡ true
unfolding imported
with_extension = refl

benchmark-placeholders_example :
    benchmark floats machine softmax softmax_params 2 3 begun
    ≡ placeholders floats machine softmax (2 ∷ 3 ∷ 4 ∷ []) 3 begun
benchmark-placeholders_example =
    benchmark-placeholders floats machine softmax "softmax" softmax_params (2 ∷ 3 ∷ 4 ∷ []) 2 3
      begun 3 0 (imported initialized) refl refl refl refl no_softmax with_extension

abbrev measured : Statistics floats machine
measured = record {
  name = codes "matmul_small";
  category = codes "matmul";
  median_ms = 7;
  mean_ms = 7;
  std_ms = 7;
  min_ms = 7;
  max_ms = 7;
  p95_ms = 7;
  p99_ms = 7;
  samples = 4;
}

abbrev config : Config floats machine
config = record {
  benchmarks = of_matmul ∷ [];
  outlier_removal = codes "iqr";
  regression_threshold_default = none;
}

-- A store whose latest baseline is the one above.
abbrev store : Store floats machine
store = record {
  config = some config;
  save = λ label results. pure (codes "now");
  load = λ label. pure (as_bench floats machine measured ∷ []);
  report = λ cs. pure tt;
  default_threshold = 5;
}

abbrev args : Args
args = record {
  save_baseline = true;
  baseline_label = none;
  compare = true;
  baseline = codes "latest";
  category = none;
  fail_on_regression = true;
}

abbrev same : Comparison floats
same = record {
  name = codes "matmul_small";
  category = codes "matmul";
  current_ms = 7;
  baseline_ms = 7;
  ratio = 100;
  change_pct = 0;
  status = stable;
}

abbrev ended : State floats machine
ended = (56, imported initialized)

runs : run_all floats machine (of_matmul ∷ []) (codes "iqr") begun ≡ (ok (measured ∷ []), ended)
unfolding run_all remove_outliers_iqr
runs = refl

steady : (x q : ℕ) → percent x x ≡ ok q → ltb 105 q ≡ false
steady x q h = ground arith

compares_same :
    comparisons floats
      (as_bench floats machine measured ∷ [])
      (by_name floats (as_bench floats machine measured ∷ []) [])
      5
    ≡ ok (same ∷ [])
unfolding comparisons
compares_same = refl

self_compare_example : main floats machine store args begun ≡ (ok 0, ended)
self_compare_example =
    self_compare floats machine store config steady args (of_matmul ∷ []) (measured ∷ [])
      (codes "now") (same ∷ []) begun ended ended ended ended refl refl refl refl runs refl refl
      (tt, tt) compares_same refl

main_exit_lem_example :
    (code : ℕ) × (main floats machine store args begun ≡ (ok code, ended))
    × ((code ≡ 0) ↔ (
        (args.fail_on_regression ≡ false)
        ⊎ All
            (NotSlower floats (by_name floats (as_bench floats machine measured ∷ []) []) 5)
            (as_bench floats machine measured ∷ [])))
    × ((code ≡ 0) ⊎ (code ≡ 1))
main_exit_lem_example =
    main_exit_lem floats machine store config args (of_matmul ∷ []) (measured ∷ [])
      (as_bench floats machine measured ∷ []) (same ∷ []) begun ended ended ended ended refl refl
      refl runs refl refl compares_same refl
