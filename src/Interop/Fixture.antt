-- ===== src/Interop/Fixture.antt =====
-- A PyTorch whose tensors are shapes, and in which DLPack fails.
use metal_native.Base.{ℕ, true, false, List, [], ◌∷◌}
use metal_native.Base.Exec.{other, pure, raise}
use metal_native.Base.Int.{ℤ, pos}
use metal_native.Tensor.Fixture.{backend}
use metal_native.Interop.{PyTorch}

abbrev pub torch : PyTorch backend
torch = record {
  Obj = List ℤ;
  Capsule = List ℤ;
  Buffer = ℕ;
  import_torch = pure tt;
  requires_grad = λ o. true;
  device_type = λ o. "mps";
  is_contiguous = λ o. false;
  dtype_name = λ o. "bfloat16";
  contiguous = λ o. pure o;
  cpu = λ o. pure o;
  as_numpy = λ o. pure o;
  from_numpy = λ a. pure a;
  set_requires_grad = λ o. pure tt;
  to_dlpack = λ o. raise other;
  from_dlpack = λ c. raise other;
  view_of = λ buffer o dtype. pure o;
  copy_into = λ view o. pure tt;
  tensor_from_mps_ptr = λ o dtype. raise other;
  allocate_tensor_for_copy = λ o dtype. raise other;
  tensor_from_cpu_data = λ o dtype. pure o;
  tensor_from_dlpack = λ c g. raise other;
  tensor_to_dlpack = λ h. raise other;
}

abbrev pub pair : List ℤ
pair = pos 2 ∷ []
