-- ===== src/Accelerate/Backends.antt =====
-- python/metal_native/accelerate_plugin.py: what the backend does on a machine without the extension
-- module.
use metal_native.Base.{◌≡◌, refl, Bool, true, false, not}
use metal_native.Base.Exec.{Result, ok, err, runtime_error, pure, raise_if, ◌>>◌, then_run}
use metal_native.Native.{NativeModule, is_missing}
use metal_native.Native.Errors.{Avoids, if_missing-Avoids}
use metal_native.Accelerate.{
  is_available, accelerator_init, synchronize, empty_cache, read_memory, no_memory, get_memory_info,
}

module _ (C : NativeModule) where
  -- How the constructor ends, by how `is_available` ends.
  abbrev pub started : Result Bool → Result (Unit {0})
  started (ok true) = ok tt
  started (ok false) = err runtime_error
  started (err e) = err e

  init_result :
      (r : Result Bool) (w : C.World)
      → (then_run (λ available. raise_if (not available) runtime_error) (r, w)).0 ≡ started r
  init_result (ok true) w = refl
  init_result (ok false) w = refl
  init_result (err e) w = refl

  -- Whatever the extension module does, also where it cannot be imported or lacks a function, no
  -- method of the backend that asks it ends by ImportError or AttributeError; and the constructor
  -- returns exactly where `is_available` returns True, raises RuntimeError where it returns False, and
  -- raises what it raises.
  backend_lem :
      (w : C.World)
      → Avoids is_missing (is_available C w).0
        × Avoids is_missing (synchronize C w).0
        × Avoids is_missing (empty_cache C w).0
        × Avoids is_missing (get_memory_info C w).0
        × ((accelerator_init C w).0 ≡ started (is_available C w).0)
  unfolding is_available synchronize empty_cache get_memory_info accelerator_init
  backend_lem w = (
    if_missing-Avoids (C.import_c >> C.is_available) (pure false) (λ t. tt) w,
    if_missing-Avoids (C.import_c >> C.synchronize) (pure tt) (λ t. tt) w,
    if_missing-Avoids (C.import_c >> C.empty_cache) (pure tt) (λ t. tt) w,
    if_missing-Avoids (read_memory C) (pure no_memory) (λ t. tt) w,
    init_result (is_available C w).0 (is_available C w).1,
  )
