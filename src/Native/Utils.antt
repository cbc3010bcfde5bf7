-- ===== src/Native/Utils.antt =====
-- python/metal_native/utils.py
use metal_native.Base.{ℕ, Option, none, some}
use metal_native.Base.Exec.{
  Exn, runtime_error, value_error, Exec, try_except, raise, pure, ◌>>=◌, ◌>>◌,
}
use metal_native.Base.Int.{ℤ, pos, negsuc}
use metal_native.Native.{NativeModule, if_missing}

module _ (C : NativeModule) where
  unfoldable pub synchronize : Exec C.World (Unit {0})
  synchronize = if_missing (C.import_c >> C.synchronize) (raise runtime_error)

  unfoldable pub empty_cache : Exec C.World (Unit {0})
  empty_cache = if_missing (C.import_c >> C.empty_cache) (pure tt)

  unfoldable pub memory_allocated : Exec C.World ℕ
  memory_allocated = if_missing (C.import_c >> C.memory_allocated) (raise runtime_error)

  unfoldable pub max_memory_allocated : Exec C.World ℕ
  max_memory_allocated = if_missing (C.import_c >> C.max_memory_allocated) (raise runtime_error)

  unfoldable pub reset_peak_stats : Exec C.World (Unit {0})
  reset_peak_stats = if_missing (C.import_c >> C.reset_peak_stats) (pure tt)

  unfoldable pub set_seed : ℤ → Exec C.World (Unit {0})
  set_seed (negsuc n) = raise value_error
  set_seed (pos n) = if_missing (C.import_c >> C.set_seed n) (raise runtime_error)

  unfoldable pub manual_seed : ℤ → Exec C.World (Unit {0})
  unfolding set_seed
  manual_seed seed = set_seed seed

  -- `except RuntimeError: return "GPU Memory: Not available"`
  abbrev pub unavailable : Exn → Exec C.World (Option (ℕ × ℕ))
  unavailable runtime_error = pure none
  unavailable e = raise e

  -- The current and the peak number of bytes that the text shows, or its other text.
  unfoldable pub get_memory_info : Exec C.World (Option (ℕ × ℕ))
  unfolding memory_allocated max_memory_allocated
  get_memory_info =
      try_except
        (do current ← memory_allocated; peak ← max_memory_allocated; pure (some (current, peak)))
        unavailable

  -- `with SynchronizeContext(): body`
  unfoldable pub synchronize_context {ℓ} : {A : Type ℓ} → Exec C.World A → Exec C.World A
  unfolding synchronize
  synchronize_context body s = let (r, t) = body s in (synchronize >> λ u. (r, u)) t
