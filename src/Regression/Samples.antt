-- ===== src/Regression/Samples.antt =====
-- regression_runner.py: how many samples a benchmark takes, and how many its statistics are over.
use metal_native.Base.{
  ℕ, zero, suc, ◌*◌, ◌≡◌, ◌≤◌, ap, refl, inl, inr, Bool, true, false, Bool-cases, none, List, ◌∷◌,
  if◌then◌else◌, ◌==◌, length, length-keep_if, arith,
}
use mathlib.Core.Path.{subst}
use metal_native.Base.Exec.{
  Result, ok, err, value_error, Exec, pure, lift, from_option, ◌>>=◌, >>=_cases,
}
use metal_native.Base.Text.{Text, text_eq, codes}
use metal_native.Regression.{Floats, in_bounds, remove_outliers_iqr}
use metal_native.Regression.Outliers.{remove_outliers_iqr_lem}
use metal_native.Regression.Runner.{
  Op, Params, required, read_sizes, is_half, repeat, Machine, kernel_name, State, is_there,
  placeholders, one_call, timed_call, measure_if, on_device, benchmark, BenchConfig, Statistics,
  dispatch, without_outliers, statistics_with, std_of, statistics_of, run_benchmark,
}

-- A normal end is with so many elements.
abbrev Gives : {S A : Type 0} → ℕ → Result (List A) × S → Type 0
Gives n (ok xs, s) = length xs ≡ n
Gives n (err e, s) = Unit

Gives-ok :
    {S A : Type 0} (n : ℕ) (r : Result (List A) × S) (xs : List A)
    → Gives n r
    → r.0 ≡ ok xs
    → length xs ≡ n
Gives-ok n (ok ys, s) xs g h = let same : ys ≡ xs = cc in subst (λ l. length l ≡ n) same g
Gives-ok n (err e, s) xs g h = cc

module _ {S A : Type 0} where
  repeat-Gives : (n : ℕ) (body : Exec S A) (s : S) → Gives n (repeat n body s)
  repeat-Gives zero body s = refl
  repeat-Gives (suc n) body s =
      >>=_cases (λ a. repeat n body >>= λ rest. pure (a ∷ rest)) (Gives (suc n)) body s
        (λ a e.
          let t = (body s).1 in
          >>=_cases (λ rest. pure (a ∷ rest)) (Gives (suc n)) (repeat n body) t
            (λ rest h. ap suc (Gives-ok n (repeat n body t) rest (repeat-Gives n body t) h))
            (λ x h. tt))
        (λ x e. tt)

module _ (F : Floats) (M : Machine F) where
  on_device-Gives :
      (op : Op) (params : Params) (sizes : List ℕ) (warmup_iters n : ℕ) (s : State F M)
      → Gives n (on_device F M op params sizes warmup_iters n s)
  on_device-Gives op params sizes warmup_iters n s =
      let make = M.make_inputs op sizes (is_half params.dtype) in
      >>=_cases (λ x. is_there F M (kernel_name op) >>= measure_if F M op sizes x warmup_iters n)
        (Gives n) make s
        (λ x e.
          >>=_cases (measure_if F M op sizes x warmup_iters n) (Gives n)
            (is_there F M (kernel_name op)) (make s).1
            (λ b h. measured x b (is_there F M (kernel_name op) (make s).1).1) (λ y h. tt))
        (λ y e. tt)
    where
      measured :
          (x : M.Inputs) (b : Bool) (t : State F M)
          → Gives n (measure_if F M op sizes x warmup_iters n b t)
      measured x true t =
          >>=_cases (λ u. repeat n (timed_call F M op x)) (Gives n)
            (repeat warmup_iters (one_call F M op x)) t
            (λ u h.
              repeat-Gives n (timed_call F M op x) (repeat warmup_iters (one_call F M op x) t).1)
            (λ y h. tt)
      measured x false t = repeat-Gives n (M.placeholder op sizes) t

  benchmark-Gives :
      (op : Op) (params : Params) (warmup_iters n : ℕ) (s : State F M)
      → Gives n (benchmark F M op params warmup_iters n s)
  unfolding benchmark
  benchmark-Gives op params warmup_iters n s =
      >>=_cases
        (λ sizes.
          if M.has_metal_native
          then on_device F M op params sizes warmup_iters n
          else placeholders F M op sizes n)
        (Gives n) (lift (read_sizes (required op) params.sizes)) s
        (λ sizes e. elim (Bool-cases M.has_metal_native) [
          | inl h ↦ rw h (on_device-Gives op params sizes warmup_iters n s)
          | inr h ↦ rw h (repeat-Gives n (M.placeholder op sizes) s)
        ])
        (λ x e. tt)

  -- At least half of the samples stay.
  without_outliers_bounds :
      (method : Text) (samples : List F.Float)
      → (length (without_outliers F M method samples) ≤ length samples)
        × (length samples ≤ length (without_outliers F M method samples) * 2)
  unfolding remove_outliers_iqr
  without_outliers_bounds method samples = elim (Bool-cases (method == codes "iqr")) [
    | inl e ↦
        let kept = length-keep_if (in_bounds F samples) samples in
        let half = (remove_outliers_iqr_lem F samples).0 in rw e (ground (arith, kept), half)
    | inr e ↦ rw e (omega arith, omega arith)
  ]

  -- The statistics are of the configuration, over so many samples.
  abbrev CountsTo : BenchConfig F M → ℕ → Result (Statistics F M) × State F M → Type 0
  CountsTo config n (ok r, s) =
      (r.name ≡ config.name) × (r.category ≡ config.category) × (r.samples ≡ n)
  CountsTo config n (err e, s) = Unit

  -- The rest of a method after a float that it may fail to get.
  lift-CountsTo :
      (config : BenchConfig F M) (n : ℕ) (r : Result F.Float)
      (f : F.Float → Exec (State F M) (Statistics F M)) (s : State F M)
      → ((x : F.Float) → CountsTo config n (f x s))
      → CountsTo config n ((lift r >>= f) s)
  lift-CountsTo config n (ok x) f s h = h x
  lift-CountsTo config n (err e) f s h = tt

  statistics_of-CountsTo :
      (config : BenchConfig F M) (samples : List F.Float) (s : State F M)
      → CountsTo config (length samples) (statistics_of F M config samples s)
  statistics_of-CountsTo config samples s =
      let n = length samples in
      let with_max : F.Float
          → F.Float
          → F.Float
          → F.Float
          → F.Float
          → Exec (State F M) (Statistics F M) =
        λ median mean std min max.
          pure (statistics_with F M config samples median mean std min max) in
      let with_min : F.Float → F.Float → F.Float → F.Float → Exec (State F M) (Statistics F M) =
        λ median mean std min. lift (M.maximum samples) >>= with_max median mean std min in
      let with_std : F.Float → F.Float → F.Float → Exec (State F M) (Statistics F M) =
        λ median mean std. lift (M.minimum samples) >>= with_min median mean std in
      let with_mean : F.Float → F.Float → Exec (State F M) (Statistics F M) =
        λ median mean. lift (std_of F M samples) >>= with_std median mean in
      let with_median : F.Float → Exec (State F M) (Statistics F M) =
        λ median. lift (M.mean samples) >>= with_mean median in
      lift-CountsTo config n (M.median samples) with_median s (λ median.
        lift-CountsTo config n (M.mean samples) (with_mean median) s (λ mean.
          lift-CountsTo config n (std_of F M samples) (with_std median mean) s (λ std.
            lift-CountsTo config n (M.minimum samples) (with_min median mean std) s (λ min.
              lift-CountsTo config n (M.maximum samples) (with_max median mean std min) s
                (λ max. (refl, refl, refl))))))

  -- The statistics are of the configuration, over at least half of its iterations.
  abbrev pub Reported : BenchConfig F M → Result (Statistics F M) × State F M → Type 0
  Reported config (ok r, s) =
      (r.name ≡ config.name)
      × (r.category ≡ config.category)
      × (r.samples ≤ config.bench_iters)
      × (config.bench_iters ≤ r.samples * 2)
  Reported config (err e, s) = Unit

  CountsTo-Reported :
      (config : BenchConfig F M) (n : ℕ) (r : Result (Statistics F M) × State F M)
      → n ≤ config.bench_iters
      → config.bench_iters ≤ n * 2
      → CountsTo config n r
      → Reported config r
  CountsTo-Reported config n (ok r, s) a b (name, category, count) =
      (name, category, omega (arith, count), omega (arith, count))
  CountsTo-Reported config n (err e, s) a b c = tt

  samples-Reported :
      (config : BenchConfig F M) (method : Text) (samples : List F.Float) (s : State F M)
      → length samples ≡ config.bench_iters
      → Reported config (statistics_of F M config (without_outliers F M method samples) s)
  samples-Reported config method samples s h =
      let kept = without_outliers F M method samples in
      let bounds = without_outliers_bounds method samples in
      CountsTo-Reported config (length kept) (statistics_of F M config kept s)
        (omega (arith, h, bounds.0)) (omega (arith, h, bounds.1))
        (statistics_of-CountsTo config kept s)

  run_benchmark-Reported :
      (config : BenchConfig F M) (method : Text) (s : State F M)
      → Reported config (run_benchmark F M config method s)
  unfolding run_benchmark
  run_benchmark-Reported config method s =
      >>=_cases
        (λ op. benchmark F M op config.params config.warmup_iters config.bench_iters >>= λ samples.
          statistics_of F M config (without_outliers F M method samples))
        (Reported config) (lift (from_option (dispatch F M config.op) value_error)) s
        (λ op e.
          let run = benchmark F M op config.params config.warmup_iters config.bench_iters in
          >>=_cases (λ samples. statistics_of F M config (without_outliers F M method samples))
            (Reported config) run s
            (λ samples h. samples-Reported config method samples (run s).1 (
              Gives-ok config.bench_iters (run s) samples
                (benchmark-Gives op config.params config.warmup_iters config.bench_iters s) h))
            (λ x h. tt))
        (λ x e. tt)

  -- Where `run_benchmark` returns, its statistics have the name and the category of the
  -- configuration, and are over at most `bench_iters` samples and at least half of them, whether
  -- outliers are removed or not, and whether the samples are measured or placeholders. Of an
  -- operation that it does not know it runs nothing and raises ValueError.
  pub run_benchmark_lem :
      (config : BenchConfig F M) (method : Text) (s : State F M)
      → Reported config (run_benchmark F M config method s)
        × (dispatch F M config.op ≡ none → run_benchmark F M config method s ≡ (err value_error, s))
  unfolding run_benchmark
  run_benchmark_lem config method s =
      (run_benchmark-Reported config method s, λ unknown. rw (unknown, from_option) refl)
