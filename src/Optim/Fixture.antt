-- ===== src/Optim/Fixture.antt =====
-- Data for the tests of the optimizers: numbers and arrays of one element as naturals, and objects
-- with each kind of write-back.
use Prim.Native.Nat.{◌^◌}
use metal_native.Base.{
  ℕ, ◌+◌, ◌-◌, ◌*◌, ◌/◌, Bool, true, false, if◌then◌else◌, ltb, leb, eqb, ◌==◌, nat_eq,
}
use metal_native.Base.Exec.{Result, ok, err, value_error}
use metal_native.Dtypes.{DType, float32, bfloat16, dtype_eq}
use metal_native.Base.{string_eq}
use metal_native.Optim.Numeric.{Numeric}
use metal_native.Optim.Param.{
  Slot, absent, is_none, holds, Target, data_attribute, item_assignment, neither, Param, Heap,
}

abbrev pub numeric : Numeric
numeric = record {
  Float = ℕ;
  zero_f = 0;
  one_f = 1;
  neg_f = λ x. x;
  sub_f = λ x y. x - y;
  mul_f = λ x y. x * y;
  pow_f = λ x n. x ^ n;
  lt_f = ltb;
  le_f = leb;
  eq_f = eqb;
  Array = ℕ;
  zeros_like = λ a. 0;
  add = λ a b. a + b;
  sub = λ a b. a - b;
  div = λ a b. a / b;
  scale = λ x a. x * a;
  add_scalar = λ a x. a + x;
  div_scalar = λ a x. a / x;
  square = λ a. a * a;
  sqrt = λ a. a;
  maximum = λ a b. if ltb a b then b else a;
}

-- A tensor is refused for bfloat16.
abbrev pub tensor_of : ℕ → DType → Result ℕ
tensor_of a d = if dtype_eq d bfloat16 then err value_error else ok a

abbrev pub object : Slot ℕ → Bool → Target → Param numeric
object g property target = record {
  private_grad = g;
  own_grad = absent;
  grad_is_property = property;
  value = 10;
  dtype = float32;
  target = target;
}

-- 1 is an object with `data` and a gradient, 2 a tensor with a gradient, 3 an idle tensor, and all
-- others are arrays without gradients.
abbrev pub objects : Heap numeric
objects i =
    if i == 1
    then object (holds 4) true data_attribute
    else if i == 2
    then object (holds 6) true neither
    else if i == 3
    then object is_none true neither
    else object absent false item_assignment
