-- ===== src/Float/Whole.antt =====
-- Whole numbers of ticks in the place of an f64, for runs of the code of engine/src.
use high_frequency_market_ma.Prelude.{◌+◌, ◌*◌}
use high_frequency_market_ma.Prelude.Int.{
  ℤ, pos, ◌+ℤ◌, ◌-ℤ◌, max_ℤ, ltb_ℤ, sub_ℕ, pos_part, neg_part,
}
use high_frequency_market_ma.Float.{Float}

abbrev pub times : ℤ → ℤ → ℤ
times a b =
    sub_ℕ (pos_part a * pos_part b + neg_part a * neg_part b)
      (pos_part a * neg_part b + neg_part a * pos_part b)

instance abbrev pub whole : Float ℤ
whole = record {
  of_int = λ a. a;
  round_i64 = λ a. a;
  round_usize = pos_part;
  add = ◌+ℤ◌;
  sub = ◌-ℤ◌;
  mul = times;
  div = λ a b. a;
  max = max_ℤ;
  gt = λ a b. ltb_ℤ b a;
  abs = λ a. pos (pos_part a + neg_part a);
  sqrt = λ a. a;
  exp = λ a. a;
  ln = λ a. a;
  neg = λ a. pos 0 -ℤ a;
  pi = pos 3;
  min_value = pos 0;
  literal = λ n places. pos n;
}
