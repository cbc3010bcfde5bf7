-- ===== src/Regression/Runner.antt =====
-- regression_runner.py: the benchmarks and their statistics. The clock, the random numbers, the
-- statistics and what the benchmarks call of metal_native are a parameter; `hasattr(mn, name)` is a
-- read of the package.
use metal_native.Base.{
  ℕ, zero, suc, String, Bool, true, false, Option, none, some, List, [], ◌∷◌, if◌then◌else◌, ◌==◌,
  length, ltb,
}
use metal_native.Base.Dict.{Dict, lookup}
use metal_native.Base.Exec.{
  Result, ok, err, attribute_error, key_error, value_error, Exec, pure, lift, from_option, ◌>>=◌,
  ◌>>◌,
}
use metal_native.Base.Text.{Text, text_eq, codes}
use metal_native.Package.{Object, Package, getattr}
use metal_native.Regression.{Floats, remove_outliers_iqr}

pub data Op : Type 0 where
  matmul attention softmax rmsnorm swiglu : Op

-- The entries of `params` that the benchmark of an operation reads.
abbrev pub required : Op → List Text
required matmul = codes "M" ∷ codes "N" ∷ codes "K" ∷ []
required attention = codes "batch" ∷ codes "num_heads" ∷ codes "seq_len" ∷ codes "head_dim" ∷ []
required softmax = codes "batch" ∷ codes "rows" ∷ codes "cols" ∷ []
required rmsnorm = codes "batch" ∷ codes "seq_len" ∷ codes "hidden" ∷ []
required swiglu = codes "batch" ∷ codes "seq_len" ∷ codes "hidden" ∷ []

pub record Params : Type 0 where
  pub sizes : Dict Text ℕ
  pub dtype : Option Text

abbrev and_read : Result ℕ → Result (List ℕ) → Result (List ℕ)
and_read (err e) rest = err e
and_read (ok n) (err e) = err e
and_read (ok n) (ok rest) = ok (n ∷ rest)

abbrev pub read_sizes : List Text → Dict Text ℕ → Result (List ℕ)
read_sizes [] sizes = ok []
read_sizes (k ∷ names) sizes =
    and_read (from_option (lookup k sizes) key_error) (read_sizes names sizes)

-- `dtype_str == "float16"`, where a missing entry is "float32"
abbrev pub is_half : Option Text → Bool
is_half none = false
is_half (some dtype) = dtype == codes "float16"

-- A loop over `range(n)` that collects what its body gives.
abbrev pub repeat {ℓ} : {S : Type ℓ} {A : Type 0} → ℕ → Exec S A → Exec S (List A)
repeat zero body = pure []
repeat (suc n) body = body >>= λ a. repeat n body >>= λ rest. pure (a ∷ rest)

pub record Machine (F : Floats) : Type 1 where
  pub World : Type 0
  pub Inputs : Type 0
  pub has_metal_native : Bool
  -- Whether the code of a submodule of metal_native raises ImportError.
  pub fails : String → Bool
  -- The inputs of the benchmark by `mn.from_numpy`, a call of its kernel, and `mn.synchronize`.
  pub make_inputs : Op → List ℕ → Bool → Exec (World × Package) Inputs
  pub kernel : Op → Inputs → Exec (World × Package) (Unit {0})
  pub synchronize : Exec (World × Package) (Unit {0})
  pub perf_counter : Exec (World × Package) F.Float
  -- `base_time + np.random.normal(0, base_time * 0.05)`
  pub placeholder : Op → List ℕ → Exec (World × Package) F.Float
  pub thousand_f : F.Float
  pub median : List F.Float → Result F.Float
  pub mean : List F.Float → Result F.Float
  pub stdev : List F.Float → Result F.Float
  pub minimum : List F.Float → Result F.Float
  pub maximum : List F.Float → Result F.Float
  pub zero_f : F.Float

-- The kernel that the benchmark of an operation looks for in the package; `a @ b` is always there.
abbrev pub kernel_name : Op → Option String
kernel_name matmul = none
kernel_name attention = some "flash_attention"
kernel_name softmax = some "softmax"
kernel_name rmsnorm = some "rmsnorm"
kernel_name swiglu = some "swiglu"

abbrev found : Result Object → Result Bool
found (ok o) = ok true
found (err attribute_error) = ok false
found (err e) = err e

-- `hasattr(mn, name)`: only an AttributeError means that the name is missing.
unfoldable pub hasattr : (String → Bool) → String → Exec Package Bool
hasattr fails name p = let (r, q) = getattr fails name p in (found r, q)

module _ (F : Floats) (M : Machine F) where
  abbrev pub State : Type 0
  State = M.World × Package

  unfoldable pub is_there : Option String → Exec State Bool
  unfolding hasattr
  is_there none s = (ok true, s)
  is_there (some name) (w, p) = let (r, q) = hasattr M.fails name p in (r, (w, q))

  abbrev pub placeholders : Op → List ℕ → ℕ → Exec State (List F.Float)
  placeholders op sizes bench_iters = repeat bench_iters (M.placeholder op sizes)

  abbrev pub one_call : Op → M.Inputs → Exec State (Unit {0})
  one_call op x = M.kernel op x >> M.synchronize

  -- `samples.append((end - start) * 1000)`
  abbrev pub timed_call : Op → M.Inputs → Exec State F.Float
  timed_call op x = do
    start ← M.perf_counter
    u ← one_call op x
    end ← M.perf_counter
    pure (F.mul_f (F.sub_f end start) M.thousand_f)

  abbrev pub measure : Op → M.Inputs → ℕ → ℕ → Exec State (List F.Float)
  measure op x warmup_iters bench_iters =
      repeat warmup_iters (one_call op x) >> repeat bench_iters (timed_call op x)

  abbrev pub measure_if : Op → List ℕ → M.Inputs → ℕ → ℕ → Bool → Exec State (List F.Float)
  measure_if op sizes x warmup_iters bench_iters true = measure op x warmup_iters bench_iters
  measure_if op sizes x warmup_iters bench_iters false = placeholders op sizes bench_iters

  abbrev pub on_device : Op → Params → List ℕ → ℕ → ℕ → Exec State (List F.Float)
  on_device op params sizes warmup_iters bench_iters = do
    x ← M.make_inputs op sizes (is_half params.dtype)
    there ← is_there (kernel_name op)
    measure_if op sizes x warmup_iters bench_iters there

  -- `benchmark_matmul`, `benchmark_attention`, `benchmark_softmax`, `benchmark_rmsnorm` and
  -- `benchmark_swiglu`
  unfoldable pub benchmark : Op → Params → ℕ → ℕ → Exec State (List F.Float)
  unfolding is_there
  benchmark op params warmup_iters bench_iters =
      lift (read_sizes (required op) params.sizes) >>= λ sizes.
      if M.has_metal_native
      then on_device op params sizes warmup_iters bench_iters
      else placeholders op sizes bench_iters

  pub record BenchConfig : Type 0 where
    pub name : Text
    pub category : Text
    pub op : Text
    pub params : Params
    pub warmup_iters : ℕ
    pub bench_iters : ℕ

  pub record Statistics : Type 0 where
    pub name : Text
    pub category : Text
    pub median_ms : F.Float
    pub mean_ms : F.Float
    pub std_ms : F.Float
    pub min_ms : F.Float
    pub max_ms : F.Float
    pub p95_ms : F.Float
    pub p99_ms : F.Float
    pub samples : ℕ

  abbrev pub dispatch : Text → Option Op
  dispatch op =
      if op == codes "matmul"
      then some matmul
      else if op == codes "flash_attention"
      then some attention
      else if op == codes "softmax"
      then some softmax
      else if op == codes "rmsnorm"
      then some rmsnorm
      else if op == codes "swiglu"
      then some swiglu
      else none

  abbrev pub without_outliers : Text → List F.Float → List F.Float
  without_outliers outlier_removal samples =
      if outlier_removal == codes "iqr" then remove_outliers_iqr F samples else samples

  -- The dictionary that is returned, without the time and the git queries.
  abbrev pub statistics_with :
      BenchConfig → List F.Float → F.Float → F.Float → F.Float → F.Float → F.Float → Statistics
  statistics_with config samples median mean std min max = record {
    name = config.name;
    category = config.category;
    median_ms = median;
    mean_ms = mean;
    std_ms = std;
    min_ms = min;
    max_ms = max;
    p95_ms = F.percentile samples 95;
    p99_ms = F.percentile samples 99;
    samples = length samples;
  }

  abbrev pub std_of : List F.Float → Result F.Float
  std_of samples = if ltb 1 (length samples) then M.stdev samples else ok M.zero_f

  abbrev pub statistics_of : BenchConfig → List F.Float → Exec State Statistics
  statistics_of config samples = do
    median ← lift (M.median samples)
    mean ← lift (M.mean samples)
    std ← lift (std_of samples)
    min ← lift (M.minimum samples)
    max ← lift (M.maximum samples)
    pure (statistics_with config samples median mean std min max)

  -- The entries of a configuration are taken to be there.
  unfoldable pub run_benchmark : BenchConfig → Text → Exec State Statistics
  unfolding benchmark
  run_benchmark config outlier_removal =
      lift (from_option (dispatch config.op) value_error) >>= λ op.
      benchmark op config.params config.warmup_iters config.bench_iters >>= λ samples.
      statistics_of config (without_outliers outlier_removal samples)

  -- The loop over the benchmarks in `main`.
  unfoldable pub run_all : List BenchConfig → Text → Exec State (List Statistics)
  unfolding run_benchmark
  run_all [] outlier_removal = pure []
  run_all (config ∷ configs) outlier_removal = run_benchmark config outlier_removal >>= λ result.
      run_all configs outlier_removal >>= λ results. pure (result ∷ results)
