-- ===== src/Interop/Tests.antt =====
-- interop.py and dlpack_bridge.py with the PyTorch of Fixture.
use metal_native.Base.{◌≡◌, refl, true, false, none, some}
use metal_native.Base.Exec.{ok, err, type_error, runtime_error}
use metal_native.Tensor.{wrap}
use metal_native.Tensor.Fixture.{backend}
use metal_native.Interop.{a_tensor, another, or_inherited, from_torch, to_dlpack, from_dlpack}
use metal_native.Interop.Fixture.{torch, pair}
use metal_native.Interop.Flags.{Flagged, from_torch-requires_grad}
use metal_native.Interop.Errors.{Only, bridge_errors}

-- A bfloat16 tensor on MPS goes by the CPU where its buffer cannot be shared.
copies : from_torch backend torch pair none 0 ≡ (ok (wrap backend pair true), 0)
unfolding from_torch
copies = refl

from_torch-requires_grad_example :
    Flagged backend
      (or_inherited backend torch (some false) pair)
      (from_torch backend torch pair (some false) 0)
from_torch-requires_grad_example = from_torch-requires_grad backend torch pair (some false) 0

bridge_errors_example :
    Only runtime_error (to_dlpack backend torch (a_tensor (wrap backend pair true)) 0).0
    × Only runtime_error (from_dlpack backend torch pair 0).0
    × (to_dlpack backend torch another 0 ≡ (err type_error, 0))
bridge_errors_example = bridge_errors backend torch (wrap backend pair true) pair 0
