-- ===== src/Accelerate/Tests.antt =====
-- accelerate_plugin.py on a model with a buffer in a submodule, and with the extension module of
-- Native.Fixture, which lacks functions.
use metal_native.Base.{
  ◌==◌, ℕ, String, string_eq, ◌≡◌, refl, Option, some, List, [], ◌∷◌, inl, inr, if◌then◌else◌,
}
use metal_native.Base.Exec.{
  ok, err, key_error, import_error, other, Exec, pure, raise, ok_injective,
}
use mathlib.Core.Path.{subst}
use metal_native.Base.Int.{ℤ}
use metal_native.Tensor.Fixture.{backend}
use metal_native.Interop.Fixture.{torch, pair}
use metal_native.Accelerate.{register_backend, Modules, through_metal, prepare_model}
use metal_native.Accelerate.Buffers.{Raises, Refused, Listed, prepare_model-Raises}

-- Any error but ImportError leaves the registration.
registers : register_backend {W = ℕ} (raise import_error) 0 ≡ (ok tt, 0)
unfolding register_backend
registers = refl

registers_other : register_backend {W = ℕ} (raise other) 0 ≡ (err other, 0)
unfolding register_backend
registers_other = refl

abbrev dotted : String
dotted = "bn.running_mean"

abbrev register : ℕ → String → List ℤ → Exec ℕ (Unit {0})
register model name o = if name == dotted then raise key_error else pure tt

abbrev modules : List (String × Option (List ℤ)) → Modules backend torch
modules buffers = record {
  Model = ℕ;
  Param = ℕ;
  import_nn = pure tt;
  named_parameters = λ model. pure (("weight", some 0) ∷ []);
  named_buffers = λ model. pure buffers;
  get_data = λ p. pure pair;
  set_data = λ p o. pure tt;
  register_buffer = register;
}

abbrev buffers : List (String × Option (List ℤ))
buffers = ("scale", some pair) ∷ (dotted, some pair) ∷ []

-- A model whose buffers are all its own is returned.
prepared : (prepare_model backend torch (modules (("scale", some pair) ∷ [])) 5 0).0 ≡ ok 5
unfolding prepare_model through_metal
prepared = refl

refused : Refused backend torch (modules buffers) 5 dotted
refused o w = tt

listed :
    (v : ℕ) (bs : List (String × Option (List ℤ)))
    → ok buffers ≡ ok bs
    → Listed backend torch (modules buffers) dotted bs
listed v bs e =
    subst (Listed backend torch (modules buffers) dotted) (ok_injective e) (inr (inl refl))

prepare_model-Raises_example : Raises (prepare_model backend torch (modules buffers) 5 0)
prepare_model-Raises_example =
    prepare_model-Raises backend torch (modules buffers) 5 dotted 0 refused listed
