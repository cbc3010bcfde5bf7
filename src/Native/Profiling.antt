-- ===== src/Native/Profiling.antt =====
-- python/metal_native/profiling.py
use metal_native.Base.{Option, none, some, List, []}
use metal_native.Base.Exec.{runtime_error, Exec, try_except, raise, pure, lift, ◌>>=◌, ◌>>◌}
use metal_native.Base.Text.{Text}
use metal_native.Native.{NativeModule, Snapshot}
use metal_native.Native.Report.{Line, report_lines}

module _ (C : NativeModule) where
  -- `except (ImportError, AttributeError)` and `except Exception` that both raise RuntimeError
  abbrev pub or_runtime_error : {A : Type 0} → Exec C.World A → Exec C.World A
  or_runtime_error m = try_except m (λ e. raise runtime_error)

  abbrev set_destination : Option Text → Exec C.World (Unit {0})
  set_destination none = pure tt
  set_destination (some path) = C.set_capture_destination path

  unfoldable pub begin_trace : Option Text → Exec C.World (Unit {0})
  begin_trace path = or_runtime_error (do _ ← C.import_c; _ ← set_destination path; C.begin_capture)

  unfoldable pub end_trace : Exec C.World (Unit {0})
  end_trace = or_runtime_error (C.import_c >> C.end_capture)

  -- The counters, or `none` for the invalid ones.
  unfoldable pub gpu_counters : Exec C.World (Option C.Counters)
  gpu_counters =
      try_except (do _ ← C.import_c; c ← C.sample_counters; pure (some c)) (λ e. pure none)

  unfoldable pub memory_snapshot : Exec C.World Snapshot
  memory_snapshot = or_runtime_error (C.import_c >> C.memory_snapshot)

  -- `with open(output_path, 'w') as f: f.write(report)`, where the path is given and not empty; how
  -- the file system takes it is a parameter.
  abbrev write_report :
      (List Line → Text → Exec C.World (Unit {0}))
      → Option Text
      → List Line
      → Exec C.World (Unit {0})
  write_report write none report = pure tt
  write_report write (some []) report = pure tt
  write_report write (some path) report = write report path

  unfoldable pub memory_report :
      (List Line → Text → Exec C.World (Unit {0})) → Option Text → Exec C.World (List Line)
  unfolding memory_snapshot report_lines
  memory_report write output_path = or_runtime_error (do
    snapshot ← memory_snapshot
    report ← lift (report_lines snapshot)
    _ ← write_report write output_path report
    pure report)

  -- `with TraceContext(path): body`
  unfoldable pub trace_context {ℓ} : {A : Type ℓ} → Option Text → Exec C.World A → Exec C.World A
  unfolding begin_trace end_trace
  trace_context path body = begin_trace path >> λ s.
      let (r, t) = body s in (try_except end_trace (λ e. pure tt) >> λ u. (r, u)) t
