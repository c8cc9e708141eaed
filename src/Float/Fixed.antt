-- ===== src/Float/Fixed.antt =====
-- Thousandths in the place of an f64, for runs of the code of engine/src that scales by a fraction.
use high_frequency_market_ma.Prelude.{ℕ, ◌+◌, ◌-◌, ◌*◌, ◌/◌, ◌^◌, max, ltb}
use high_frequency_market_ma.Prelude.Int.{pos, pos_part}
use high_frequency_market_ma.Float.{Float}

instance abbrev pub thousandths : Float ℕ
thousandths = record {
  of_int = λ a. pos_part a * 1000;
  round_i64 = λ a. pos ((a + 500) / 1000);
  round_usize = λ a. (a + 500) / 1000;
  add = ◌+◌;
  sub = ◌-◌;
  mul = λ a b. a * b / 1000;
  div = λ a b. a * 1000 / b;
  max = max;
  gt = λ a b. ltb b a;
  abs = λ a. a;
  sqrt = λ a. a;
  exp = λ a. a;
  ln = λ a. a;
  neg = λ a. 0;
  pi = 3142;
  min_value = 0;
  literal = λ n places. n * 1000 / 10 ^ places;
}
