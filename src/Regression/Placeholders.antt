-- ===== src/Regression/Placeholders.antt =====
-- regression_runner.py with __init__.py: the kernels that the benchmarks look for in the package.
use metal_native.Base.{
  ℕ, String, ◌≡◌, ◌∙◌, ap, refl, Bool, true, false, Option, none, some, List, contains, string_eq,
  if◌then◌else◌,
}
use metal_native.Base.Dict.{lookup}
use metal_native.Base.Exec.{ok, Exec, lift, ◌>>=◌, then_run}
use metal_native.Package.{
  Package, lazy_modules, tensor_names, device_names, utils_names, dtype_names, config_names,
}
use metal_native.Package.Missing.{getattr_undefined}
use metal_native.Regression.{Floats}
use metal_native.Regression.Runner.{
  Op, matmul, attention, softmax, rmsnorm, swiglu, Params, required, read_sizes, is_half, Machine,
  kernel_name, hasattr, State, is_there, placeholders, measure_if, on_device, benchmark,
}

-- No list of the package has the name.
abbrev Unlisted : String → Type 0
Unlisted name =
    (contains lazy_modules name ≡ false)
    × (contains tensor_names name ≡ false)
    × (contains device_names name ≡ false)
    × (contains utils_names name ≡ false)
    × (contains dtype_names name ≡ false)
    × (contains config_names name ≡ false)

kernel_name-Unlisted : (op : Op) (name : String) → kernel_name op ≡ some name → Unlisted name
kernel_name-Unlisted matmul name h = cc
kernel_name-Unlisted attention name h =
    let e : "flash_attention" ≡ name = cc in rw⁻¹ e (refl, refl, refl, refl, refl, refl)
kernel_name-Unlisted softmax name h =
    let e : "softmax" ≡ name = cc in rw⁻¹ e (refl, refl, refl, refl, refl, refl)
kernel_name-Unlisted rmsnorm name h =
    let e : "rmsnorm" ≡ name = cc in rw⁻¹ e (refl, refl, refl, refl, refl, refl)
kernel_name-Unlisted swiglu name h =
    let e : "swiglu" ≡ name = cc in rw⁻¹ e (refl, refl, refl, refl, refl, refl)

hasattr-undefined :
    (fails : String → Bool) (name : String) (p : Package)
    → lookup name p.names ≡ none
    → p.extension ≡ true
    → Unlisted name
    → hasattr fails name p ≡ (ok false, p)
unfolding hasattr
hasattr-undefined fails name p n x u = let g = getattr_undefined fails name p n x u in rw g refl

module _ (F : Floats) (M : Machine F) where
  is_there-undefined :
      (o : Option String) (name : String) (w : M.World) (p : Package)
      → o ≡ some name
      → lookup name p.names ≡ none
      → p.extension ≡ true
      → Unlisted name
      → is_there F M o (w, p) ≡ (ok false, (w, p))
  unfolding is_there
  is_there-undefined o name w p h n x u =
      ap (λ k. is_there F M k (w, p)) h
      ∙ ap (λ r. (r.0, (w, r.1))) (hasattr-undefined M.fails name p n x u)

  -- A benchmark of any operation but `a @ b` never measures a kernel in a package with an extension
  -- module, since no list of the package has the kernel's name: unless the name is bound when the
  -- inputs are made, its samples are the random placeholders, and neither the kernel nor the clock
  -- is called.
  pub benchmark-placeholders :
      (op : Op) (name : String) (params : Params) (sizes : List ℕ) (warmup_iters bench_iters : ℕ)
      (s : State F M) (x : M.Inputs) (w : M.World) (p : Package)
      → kernel_name op ≡ some name
      → M.has_metal_native ≡ true
      → read_sizes (required op) params.sizes ≡ ok sizes
      → M.make_inputs op sizes (is_half params.dtype) s ≡ (ok x, (w, p))
      → lookup name p.names ≡ none
      → p.extension ≡ true
      → benchmark F M op params warmup_iters bench_iters s
        ≡ placeholders F M op sizes bench_iters (w, p)
  unfolding benchmark
  benchmark-placeholders op name params sizes warmup_iters bench_iters s x w p k h r m n e =
      let t = is_there-undefined (kernel_name op) name w p k n e (kernel_name-Unlisted op name k) in
      let by_sizes : List ℕ → Exec (State F M) (List F.Float) = λ z.
        if M.has_metal_native
        then on_device F M op params z warmup_iters bench_iters
        else placeholders F M op z bench_iters in
      let with_inputs : M.Inputs → Exec (State F M) (List F.Float) =
        λ i. is_there F M (kernel_name op) >>= measure_if F M op sizes i warmup_iters bench_iters in
      ap (λ z. (lift z >>= by_sizes) s) r
      ∙ ap
          (λ b.
            (if b
                then on_device F M op params sizes warmup_iters bench_iters
                else placeholders F M op sizes bench_iters)
              s)
          h
      ∙ ap (then_run with_inputs) m
      ∙ ap (then_run (measure_if F M op sizes x warmup_iters bench_iters)) t
