-- ===== src/Native.antt =====
-- The Python wrappers around the extension module `metal_native._C`, which is a parameter: its
-- functions change a state of their own and may raise. What a function does here includes the
-- lookup of its name in the module.
pub mod Utils
pub mod Report
pub mod Profiling
pub mod Device
pub mod Errors
pub mod Largest
pub mod Trace
pub mod Fixture
mod Tests
use metal_native.Base.{ℕ, if◌then◌else◌, Bool, true, false, Option, List}
use metal_native.Base.Exec.{
  Exn, import_error, attribute_error, value_error, type_error, runtime_error, key_error,
  index_error, file_not_found, os_error, not_implemented, zero_division, json_error, other, Exec,
  try_except, raise, pure,
}
use metal_native.Base.Text.{Text}

-- The entries of the dictionaries in a memory snapshot that the report reads; `none` is a missing key.
pub record Heap : Type 0 where
  pub heap_size : Option ℕ
  pub used_bytes : Option ℕ
  pub free_bytes : Option ℕ
  pub num_allocations : Option ℕ
  pub fragmentation_ratio : Option ℕ

pub record Allocation : Type 0 where
  pub size : Option ℕ
  pub tag : Option Text

pub record Snapshot : Type 0 where
  pub total_allocated : Option ℕ
  pub total_cached : Option ℕ
  pub peak_allocated : Option ℕ
  pub available_system : Option ℕ
  pub heaps : Option (List Heap)
  pub allocations : Option (List Allocation)

pub record NativeModule : Type 1 where
  pub World : Type 0
  pub Counters : Type 0
  -- `from metal_native import _C`
  pub import_c : Exec World (Unit {0})
  pub synchronize : Exec World (Unit {0})
  pub empty_cache : Exec World (Unit {0})
  pub memory_allocated : Exec World ℕ
  pub max_memory_allocated : Exec World ℕ
  pub reset_peak_stats : Exec World (Unit {0})
  pub set_seed : ℕ → Exec World (Unit {0})
  pub set_capture_destination : Text → Exec World (Unit {0})
  pub begin_capture : Exec World (Unit {0})
  pub end_capture : Exec World (Unit {0})
  pub sample_counters : Exec World Counters
  pub memory_snapshot : Exec World Snapshot
  pub Properties : Type 0
  pub device_name : Exec World Text
  pub is_available : Exec World Bool
  pub device_properties : Exec World Properties
  pub supports_bfloat16 : Exec World Bool

-- The class is one of `(ImportError, AttributeError)`.
abbrev pub is_missing : Exn → Bool
is_missing import_error = true
is_missing attribute_error = true
is_missing e = false

-- `try: m` with `except (ImportError, AttributeError): handler`
abbrev pub if_missing {ℓ} : {S : Type ℓ} {A : Type 0} → Exec S A → Exec S A → Exec S A
if_missing m handler = try_except m (λ e. if is_missing e then handler else raise e)
