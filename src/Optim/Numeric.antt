-- ===== src/Optim/Numeric.antt =====
-- What optim/*.py use of Python's floats and of NumPy: a parameter of the optimizers. The array
-- operations are those on arrays of one shape, where NumPy raises nothing.
use metal_native.Base.{ℕ, Bool}

pub record Numeric : Type 1 where
  pub Float : Type 0
  pub zero_f : Float
  pub one_f : Float
  pub neg_f : Float → Float
  pub sub_f : Float → Float → Float
  pub mul_f : Float → Float → Float
  -- `x ** n` for a Python int n
  pub pow_f : Float → ℕ → Float
  pub lt_f : Float → Float → Bool
  pub le_f : Float → Float → Bool
  pub eq_f : Float → Float → Bool
  pub Array : Type 0
  pub zeros_like : Array → Array
  pub add : Array → Array → Array
  pub sub : Array → Array → Array
  pub div : Array → Array → Array
  -- `x * a` and `a * x` for a float x
  pub scale : Float → Array → Array
  pub add_scalar : Array → Float → Array
  pub div_scalar : Array → Float → Array
  pub square : Array → Array
  pub sqrt : Array → Array
  pub maximum : Array → Array → Array
