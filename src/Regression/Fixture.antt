-- ===== src/Regression/Fixture.antt =====
-- regression_runner.py: whole numbers in the place of floats, in percent where they are ratios.
use metal_native.Base.{◌/◌, eqb, if◌then◌else◌, ℕ, ◌+◌, ◌-◌, ◌*◌, ltb, leb}
use metal_native.Base.Exec.{Result, ok, err, zero_division}
use metal_native.Base.Text.{text_eq}
use metal_native.Regression.{Floats}
use metal_native.Base.{string_eq}

abbrev pub percent : ℕ → ℕ → Result ℕ
percent a b = if eqb b 0 then err zero_division else if eqb a b then ok 100 else ok (a * 100 / b)

abbrev pub floats : Floats
floats = record {
  Float = ℕ;
  one_f = 100;
  hundred_f = 1;
  one_and_half = 1;
  add_f = λ a b. a + b;
  sub_f = λ a b. a - b;
  mul_f = λ a b. a * b;
  div_f = percent;
  lt_f = ltb;
  le_f = leb;
  percentile = λ samples p. 7;
}
