-- ===== src/Float.antt =====
-- What engine/src does with an `f64`. The numbers are a parameter: the theorems about code that uses
-- them hold whatever these operations are, or name the laws that they need.
pub mod Whole
pub mod Fixed
use high_frequency_market_ma.Prelude.{ℕ, Bool}
use high_frequency_market_ma.Prelude.Int.{ℤ}

pub record Float {ℓ} (F : Type ℓ) : Type ℓ where
  -- `as f64` from an i64 or a u64, `round() as i64` and `round() as usize`
  pub of_int : ℤ → F
  pub round_i64 : F → ℤ
  pub round_usize : F → ℕ
  pub add : F → F → F
  pub sub : F → F → F
  pub mul : F → F → F
  pub div : F → F → F
  pub max : F → F → F
  pub gt : F → F → Bool
  pub abs : F → F
  pub sqrt : F → F
  pub exp : F → F
  pub ln : F → F
  pub neg : F → F
  -- `PI`, `f64::MIN`, and the decimal literal of these digits, shifted right by as many places
  pub pi : F
  pub min_value : F
  pub literal : ℕ → ℕ → F
