-- ===== src/Native/Trace.antt =====
-- What the contexts of profiling.py and utils.py do around their body.
use metal_native.Base.{◌≡◌, refl, Option}
use metal_native.Base.Exec.{Result, ok, err, Exec, try_except, pure, ◌>>◌}
use metal_native.Base.Text.{Text}
use metal_native.Native.{NativeModule}
use metal_native.Native.Profiling.{begin_trace, end_trace, trace_context}

module _ (C : NativeModule) {A : Type 0} (body : Exec C.World A) where
  -- The rest of `trace_context` behind the end of `begin_trace`.
  abbrev pub traced : Result (Unit {0}) × C.World → Result A × C.World
  traced (ok u, t) = ((body t).0, (end_trace C (body t).1).1)
  traced (err e, t) = (err e, t)

  ended :
      (r : Result A) (x : Result (Unit {0})) (t u : C.World)
      → (try_except (λ v. (x, u)) (λ e. pure tt) >> λ v. (r, v)) t ≡ (r, u)
  ended r (ok a) t u = refl
  ended r (err e) t u = refl

  begun :
      (x : Result (Unit {0})) (w t : C.World)
      → ((λ v. (x, t)) >> λ s.
            let (r, u) = body s in (try_except (end_trace C) (λ e. pure tt) >> λ v. (r, v)) u)
          w
        ≡ traced (x, t)
  begun (ok u) w t = let o = end_trace C (body t).1 in ended (body t).0 o.0 (body t).1 o.1
  begun (err e) w t = refl

  -- Where `begin_trace` fails, `TraceContext` fails with it and does not run its body. Where it
  -- returns, the body runs once, then `end_trace`, and the end of the body, an exception too, is
  -- the end of the whole, whatever `end_trace` does.
  trace_context_lem :
      (path : Option Text) (w : C.World)
      → trace_context C path body w ≡ traced (begin_trace C path w)
  unfolding trace_context
  trace_context_lem path w = begun (begin_trace C path w).0 w (begin_trace C path w).1
