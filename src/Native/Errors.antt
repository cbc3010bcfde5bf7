-- ===== src/Native/Errors.antt =====
-- Which exceptions leave the functions of utils.py, device.py and profiling.py.
use mathlib.Core.Path.{subst}
use metal_native.Base.{ℕ, some, ◌≡◌, refl, Bool, true, false, if◌then◌else◌, Option, none, List}
use metal_native.Base.Exec.{
  Exn, Result, ok, err, runtime_error, Exec, try_except, raise, pure, lift, ◌>>=◌, ◌>>◌, >>=_cases,
}
use metal_native.Base.Int.{ℤ, pos, negsuc}
use metal_native.Base.Text.{Text}
use metal_native.Native.{NativeModule, is_missing, if_missing}
use metal_native.Native.Utils.{
  synchronize, empty_cache, memory_allocated, max_memory_allocated, reset_peak_stats, set_seed,
  get_memory_info, synchronize_context, unavailable, manual_seed,
}
use metal_native.Native.Device.{
  device_name, info_if, get_device_info, is_available, device_properties, supports_bfloat16,
}
use metal_native.Native.Report.{Line}
use metal_native.Native.Profiling.{
  begin_trace, end_trace, gpu_counters, memory_snapshot, memory_report, or_runtime_error,
}

-- An end by no exception that the test accepts.
abbrev pub Avoids {ℓ} : {A : Type ℓ} → (Exn → Bool) → Result A → Type 0
Avoids bad (ok a) = Unit
Avoids bad (err e) = bad e ≡ false

module _ {ℓ} {S : Type ℓ} {A : Type 0} where
  handled-Avoids :
      (handler : Exec S A)
      → ((t : S) → Avoids is_missing (handler t).0)
      → (e : Exn) (b : Bool) → is_missing e ≡ b
      → (t : S) → Avoids is_missing ((if b then handler else raise e) t).0
  handled-Avoids handler h e true m t = h t
  handled-Avoids handler h e false m t = m

  outcome-Avoids :
      (handler : Exec S A)
      → ((t : S) → Avoids is_missing (handler t).0)
      → (r : Result A) (s t : S) → Avoids is_missing (if_missing (λ u. (r, t)) handler s).0
  outcome-Avoids handler h (ok a) s t = tt
  outcome-Avoids handler h (err e) s t = handled-Avoids handler h e (is_missing e) refl t

  pub if_missing-Avoids :
      (m handler : Exec S A)
      → ((t : S) → Avoids is_missing (handler t).0)
      → (s : S) → Avoids is_missing (if_missing m handler s).0
  if_missing-Avoids m handler h s = outcome-Avoids handler h (m s).0 s (m s).1

module _ (C : NativeModule) where
  set_seed-Avoids : (seed : ℤ) (w : C.World) → Avoids is_missing (set_seed C seed w).0
  unfolding set_seed
  set_seed-Avoids (negsuc n) w = refl
  set_seed-Avoids (pos n) w =
      if_missing-Avoids (C.import_c >> C.set_seed n) (raise runtime_error) (λ t. refl) w

  >>=-Avoids :
      {A B : Type 0} (m : Exec C.World A) (f : A → Exec C.World B) (s : C.World)
      → Avoids is_missing (m s).0
      → ((a : A) (t : C.World) → Avoids is_missing (f a t).0)
      → Avoids is_missing ((m >>= f) s).0
  >>=-Avoids m f s h k =
      >>=_cases f (λ r. Avoids is_missing r.0) m s (λ a e. k a (m s).1)
        (λ x e. subst (Avoids is_missing) e h)

  memory_allocated-Avoids : (w : C.World) → Avoids is_missing (memory_allocated C w).0
  unfolding memory_allocated
  memory_allocated-Avoids w =
      if_missing-Avoids (C.import_c >> C.memory_allocated) (raise runtime_error) (λ t. refl) w

  max_memory_allocated-Avoids : (w : C.World) → Avoids is_missing (max_memory_allocated C w).0
  unfolding max_memory_allocated
  max_memory_allocated-Avoids w =
      if_missing-Avoids (C.import_c >> C.max_memory_allocated) (raise runtime_error) (λ t. refl) w

  synchronize-Avoids : (w : C.World) → Avoids is_missing (synchronize C w).0
  unfolding synchronize
  synchronize-Avoids w =
      if_missing-Avoids (C.import_c >> C.synchronize) (raise runtime_error) (λ t. refl) w

  unavailable-Avoids :
      (r : Result (Option (ℕ × ℕ))) (s t : C.World)
      → Avoids is_missing r
      → Avoids is_missing (try_except (λ u. (r, t)) (unavailable C) s).0
  unavailable-Avoids (ok a) s t h = tt
  unavailable-Avoids (err runtime_error) s t h = tt
  unavailable-Avoids (err e) s t h = h

  get_memory_info-Avoids : (w : C.World) → Avoids is_missing (get_memory_info C w).0
  unfolding get_memory_info
  get_memory_info-Avoids w =
      let rest : ℕ → Exec C.World (Option (ℕ × ℕ)) =
        λ current. max_memory_allocated C >>= λ peak. pure (some (current, peak)) in
      let r = (memory_allocated C >>= rest) w in
      unavailable-Avoids r.0 w r.1 (
        >>=-Avoids (memory_allocated C) rest w (memory_allocated-Avoids w) (λ current t.
          >>=-Avoids (max_memory_allocated C) (λ peak. pure (some (current, peak))) t
            (max_memory_allocated-Avoids t) (λ peak u. tt)))

  synchronize_context-Avoids :
      {A : Type 0} (body : Exec C.World A) (w : C.World)
      → Avoids is_missing (body w).0
      → Avoids is_missing (synchronize_context C body w).0
  unfolding synchronize_context
  synchronize_context-Avoids body w h =
      >>=-Avoids (synchronize C) (λ u t. ((body w).0, t)) (body w).1 (synchronize-Avoids (body w).1)
        (λ u t. h)

  available-Avoids :
      (show : C.Properties → Result Text)
      → ((p : C.Properties) → Avoids is_missing (show p))
      → (available : Bool) (t : C.World) → Avoids is_missing (info_if C show available t).0
  unfolding device_properties
  available-Avoids show h false t = tt
  available-Avoids show h true t =
      >>=-Avoids (device_properties C) (λ p. lift (show p)) t
        (if_missing-Avoids (C.import_c >> C.device_properties) (raise runtime_error) (λ u. refl) t)
        (λ p u. h p)

  get_device_info-Avoids :
      (show : C.Properties → Result Text) (w : C.World)
      → ((p : C.Properties) → Avoids is_missing (show p))
      → Avoids is_missing (get_device_info C show w).0
  unfolding get_device_info is_available
  get_device_info-Avoids show w h =
      >>=-Avoids (is_available C) (info_if C show) w
        (if_missing-Avoids (C.import_c >> C.is_available) (pure false) (λ t. tt) w)
        (available-Avoids show h)

  -- Whatever the extension module does, also where it cannot be imported or lacks a function, no
  -- function of utils.py and no query of device.py ends by ImportError or AttributeError; of
  -- `get_device_info` this holds where the text of the properties does not end so, and of a block
  -- under `SynchronizeContext` where the block does not.
  pub wrappers_lem :
      {A : Type 0} (seed : ℤ) (show : C.Properties → Result Text) (body : Exec C.World A)
      (w : C.World)
      → ((p : C.Properties) → Avoids is_missing (show p))
      → Avoids is_missing (body w).0
      → Avoids is_missing (get_memory_info C w).0
        × Avoids is_missing (set_seed C seed w).0
        × Avoids is_missing (synchronize_context C body w).0
        × Avoids is_missing (get_device_info C show w).0
        × Avoids is_missing (synchronize C w).0
        × Avoids is_missing (empty_cache C w).0
        × Avoids is_missing (memory_allocated C w).0
        × Avoids is_missing (max_memory_allocated C w).0
        × Avoids is_missing (reset_peak_stats C w).0
        × Avoids is_missing (manual_seed C seed w).0
        × Avoids is_missing (device_name C w).0
        × Avoids is_missing (is_available C w).0
        × Avoids is_missing (device_properties C w).0
        × Avoids is_missing (supports_bfloat16 C w).0
  unfolding empty_cache reset_peak_stats manual_seed device_name is_available device_properties
      supports_bfloat16
  wrappers_lem seed show body w h k = (
    get_memory_info-Avoids w,
    set_seed-Avoids seed w,
    synchronize_context-Avoids body w k,
    get_device_info-Avoids show w h,
    synchronize-Avoids w,
    if_missing-Avoids (C.import_c >> C.empty_cache) (pure tt) (λ t. tt) w,
    memory_allocated-Avoids w,
    max_memory_allocated-Avoids w,
    if_missing-Avoids (C.import_c >> C.reset_peak_stats) (pure tt) (λ t. tt) w,
    set_seed-Avoids seed w,
    if_missing-Avoids (C.import_c >> C.device_name) (raise runtime_error) (λ t. refl) w,
    if_missing-Avoids (C.import_c >> C.is_available) (pure false) (λ t. tt) w,
    if_missing-Avoids (C.import_c >> C.device_properties) (raise runtime_error) (λ t. refl) w,
    if_missing-Avoids (C.import_c >> C.supports_bfloat16) (raise runtime_error) (λ t. refl) w,
  )

  -- An end by no exception but RuntimeError.
  abbrev pub OnlyRuntime : {A : Type 0} → Result A → Type 0
  OnlyRuntime (ok a) = Unit
  OnlyRuntime (err e) = e ≡ runtime_error

  handled-OnlyRuntime :
      {A : Type 0} (r : Result A) (s t : C.World)
      → OnlyRuntime (or_runtime_error C (λ u. (r, t)) s).0
  handled-OnlyRuntime (ok a) s t = tt
  handled-OnlyRuntime (err e) s t = refl

  sampled :
      (r : Result (Option C.Counters)) (t : C.World)
      → (x : Option C.Counters) × ((try_except (λ u. (r, t)) (λ e. pure none) t).0 ≡ ok x)
  sampled (ok x) t = (x, refl)
  sampled (err e) t = (none, refl)

  -- Whatever the extension module and the file system do, `begin_trace`, `end_trace`,
  -- `memory_snapshot` and `memory_report` end by no exception but RuntimeError, and `gpu_counters`
  -- returns.
  profiling_lem :
      (write : List Line → Text → Exec C.World (Unit {0})) (path : Option Text) (w : C.World)
      → OnlyRuntime (begin_trace C path w).0
        × OnlyRuntime (end_trace C w).0
        × OnlyRuntime (memory_snapshot C w).0
        × OnlyRuntime (memory_report C write path w).0
        × ((x : Option C.Counters) × ((gpu_counters C w).0 ≡ ok x))
  unfolding begin_trace end_trace memory_snapshot memory_report gpu_counters
  profiling_lem write path w = (
    handled-OnlyRuntime _ w _,
    handled-OnlyRuntime _ w _,
    handled-OnlyRuntime _ w _,
    handled-OnlyRuntime _ w _,
    sampled _ _,
  )
