-- ===== src/Native/Tests.antt =====
-- The theorems on the wrappers at a concrete extension module.
use metal_native.Base.{ℕ, ◌+◌, ◌≡◌, refl, Bool, false, none, some, List, [], ◌∷◌, length}
use metal_native.Base.Exec.{key_error, err, ok, err, runtime_error, other, Exec, raise}
use metal_native.Base.Int.{negsuc}
use metal_native.Base.Text.{Text, codes}
use metal_native.Native.{is_missing}
use metal_native.Native.Utils.{
  synchronize, empty_cache, memory_allocated, max_memory_allocated, reset_peak_stats, manual_seed,
  set_seed, get_memory_info, synchronize_context,
}
use metal_native.Native.Device.{
  get_device_info, device_name, is_available, device_properties, supports_bfloat16,
}
use metal_native.Native.Report.{Line, Sized, sorted_allocs}
use metal_native.Native.Profiling.{memory_report}
use metal_native.Native.Fixture.{tick, c}
use metal_native.Native.Errors.{Avoids, wrappers_lem}
use metal_native.Native.Largest.{count, Descending, AllAtMost, min, sorted_allocs_lem}

abbrev write : List Line → Text → Exec ℕ (Unit {0})
write report path = tick

-- A snapshot without one of the read keys is no report.
missing_key : memory_report c write none 0 ≡ (err runtime_error, 1)
unfolding memory_report
missing_key = refl

not_available : is_available c 0 ≡ (ok false, 1)
unfolding is_available
not_available = refl

wrappers_lem_example :
    Avoids is_missing (get_memory_info c 0).0
    × Avoids is_missing (set_seed c (negsuc 0) 0).0
    × Avoids is_missing (synchronize_context c (device_name c) 0).0
    × Avoids is_missing (get_device_info c (λ p. err key_error) 0).0
    × Avoids is_missing (synchronize c 0).0
    × Avoids is_missing (empty_cache c 0).0
    × Avoids is_missing (memory_allocated c 0).0
    × Avoids is_missing (max_memory_allocated c 0).0
    × Avoids is_missing (reset_peak_stats c 0).0
    × Avoids is_missing (manual_seed c (negsuc 0) 0).0
    × Avoids is_missing (device_name c 0).0
    × Avoids is_missing (is_available c 0).0
    × Avoids is_missing (device_properties c 0).0
    × Avoids is_missing (supports_bfloat16 c 0).0
unfolding device_name
wrappers_lem_example =
    wrappers_lem c (negsuc 0) (λ p. err key_error) (device_name c) 0 (λ p. refl) tt

-- The body raises, and the failing `end_trace` does not hide that.
abbrev body : Exec ℕ ℕ
body = raise other

abbrev allocs : List Sized
allocs =
    record { size = 3; tag = none }
    ∷ record { size = 8; tag = some (codes "a") }
    ∷ record { size = 3; tag = some (codes "b") }
    ∷ []

sorts :
    sorted_allocs allocs
    ≡ record { size = 8; tag = some (codes "a") }
      ∷ record { size = 3; tag = none }
      ∷ record { size = 3; tag = some (codes "b") }
      ∷ []
unfolding sorted_allocs
sorts = refl

sorted_allocs_lem_example :
    (rest : List Sized) × ((p : Sized → Bool)
      → count p (sorted_allocs allocs) + count p rest ≡ count p allocs)
    × Descending (sorted_allocs allocs)
    × (length (sorted_allocs allocs) ≡ min 10 3)
    × AllAtMost rest (sorted_allocs allocs)
sorted_allocs_lem_example = sorted_allocs_lem allocs
