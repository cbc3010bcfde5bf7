-- ===== src/Native/Fixture.antt =====
-- A concrete extension module for tests.
use metal_native.Base.{ℕ, suc, true, none, some, []}
use metal_native.Base.Exec.{ok, attribute_error, type_error, other, Exec, pure, raise}
use metal_native.Base.Text.{codes}
use metal_native.Native.{NativeModule, Snapshot}

-- A tick of the state counts the calls; `synchronize` is missing, and `end_capture` fails.
abbrev pub tick : Exec ℕ (Unit {0})
tick s = (ok tt, suc s)

abbrev pub snapshot : Snapshot
snapshot = record {
  total_allocated = some 6;
  total_cached = some 0;
  peak_allocated = some 7;
  available_system = none;
  heaps = none;
  allocations = some [];
}

abbrev pub c : NativeModule
c = record {
  World = ℕ;
  Counters = ℕ;
  import_c = tick;
  synchronize = raise attribute_error;
  empty_cache = tick;
  memory_allocated = pure 6;
  max_memory_allocated = pure 7;
  reset_peak_stats = tick;
  set_seed = λ n. tick;
  set_capture_destination = λ path. tick;
  begin_capture = tick;
  end_capture = raise type_error;
  sample_counters = raise other;
  memory_snapshot = pure snapshot;
  Properties = ℕ;
  device_name = pure (codes "M1");
  is_available = raise attribute_error;
  device_properties = pure 0;
  supports_bfloat16 = pure true;
}
