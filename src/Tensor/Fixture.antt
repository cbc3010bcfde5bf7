-- ===== src/Tensor/Fixture.antt =====
-- tensor.py: an extension module whose handles are shapes and whose state counts the new tensors.
use metal_native.Base.{ℕ, suc, Bool, true, List, [], ◌∷◌, string_eq, nat_eq}
use metal_native.Base.Exec.{ok, Exec, pure}
use metal_native.Base.Int.{ℤ, pos, int_eq}
use metal_native.Dtypes.{Numpy}
use metal_native.Tensor.{Backend}

abbrev pub numpy : Numpy
numpy = record { Obj = ℕ; dtype_of = λ o. ok "float32"; scalar_class = λ t. 0; dtype_obj = λ t. 0 }

-- The shape without its last entry.
abbrev pub front : List ℤ → List ℤ
front [] = []
front (a ∷ []) = []
front (a ∷ (b ∷ s)) = a ∷ front (b ∷ s)

abbrev pub drop_last : List ℤ → ℤ → Bool → Exec ℕ (List ℤ)
drop_last h d keepdim = pure (front h)

abbrev pub backend : Backend
backend = record {
  World = ℕ;
  Handle = List ℤ;
  Scalar = ℕ;
  Array = List ℤ;
  Data = ℕ;
  numpy = numpy;
  import_c = pure tt;
  tensor_shape = λ h. h;
  tensor_dtype = λ h. "float32";
  tensor_item = λ h. pure 7;
  tensor_to_numpy = λ h. pure h;
  tensor_from_numpy = λ a d g w. (ok a, suc w);
  tensor_empty = λ s d g w. (ok s, suc w);
  tensor_zeros = λ s d g w. (ok s, suc w);
  tensor_ones = λ s d g w. (ok s, suc w);
  reshape_handle = λ h s. pure s;
  is_contiguous = λ h. pure true;
  clone = λ h. pure h;
  reduce_sum = drop_last;
  reduce_mean = drop_last;
  reduce_max = drop_last;
  array = λ n. ok (pos n ∷ []);
  array_shape = λ a. a;
  array_dtype = λ a. 0;
  astype = λ a t. ok a;
  reshape = λ a s. ok (pos 1 ∷ []);
  transpose = λ a axes. ok a;
  randn = λ s. pure s;
}
