-- ===== src/Double/Whole.antt =====
-- Whole numbers in the place of `double`: an instance for runs of the models.
use qnx_lmbench_mods.Base.{ℕ, ◌+◌, ◌-◌, ◌*◌, ◌/◌, ltb, leb, arith}
use qnx_lmbench_mods.Double.{Double, RatioOrder}

abbrev pub whole : Double
whole = record {
  D = ℕ;
  of_u64 = λ n. n;
  lit = λ a b. a / b;
  add = λ a b. a + b;
  sub = λ a b. a - b;
  mul = λ a b. a * b;
  div = λ a b. a / b;
  less = ltb;
  less_eq = leb;
  to_u64 = λ a. a;
}

pub whole-RatioOrder : RatioOrder whole
whole-RatioOrder = record {
  asym = λ u n v m p q h. ground arith;
  trans = λ u n v m w k p q r h g. ground arith;
}
