-- ===== src/Risk.antt =====
-- engine/src/risk.rs: the risk figures of the open inventory, and the kill switch that watches them.
pub mod Latch
mod Tests
use Prim.Native.String.{String}
use high_frequency_market_ma.Prelude.{
  ℕ, ◌+◌, Bool, true, false, Option, none, some, List, [], ◌∷◌, if◌then◌else◌,
}
use high_frequency_market_ma.Prelude.Int.{ℤ, pos, pos_part, neg_part, ltb_ℤ}
use high_frequency_market_ma.Prelude.Word.{wrap_i64}
use high_frequency_market_ma.Float.{Float}

pub data KillReason : Type 0 where
  inventory_limit drawdown value_at_risk manual : KillReason

unfoldable pub describe : KillReason → String
describe inventory_limit = "inventory limit breached"
describe drawdown = "drawdown limit breached"
describe value_at_risk = "VaR limit breached"
describe manual = "manual kill switch triggered"

pub record RiskLimits {ℓ} (F : Type ℓ) : Type ℓ where
  pub max_abs_inventory : ℤ
  pub max_drawdown : F
  pub max_var_95 : F

pub record RiskMetrics {ℓ} (F : Type ℓ) : Type ℓ where
  pub position_value : F
  pub unrealized_pnl : F
  pub var_95 : F
  pub es_95 : F

pub record KillSwitch {ℓ} (F : Type ℓ) : Type ℓ where
  pub limits : RiskLimits F
  pub peak_pnl : F
  pub triggered : Option KillReason

-- `i64::abs`, which is the smallest i64 itself for the smallest i64.
abbrev pub abs_i64 : ℤ → ℤ
abs_i64 a = wrap_i64 (pos (pos_part a + neg_part a))

module _ {ℓ} {F : Type ℓ} ⦃f : Float F⦄ where
  unfoldable pub std_normal_pdf : F → F
  std_normal_pdf z =
      f.div (f.exp (f.div (f.neg (f.mul z z)) (f.literal 20 1)))
        (f.sqrt (f.mul (f.literal 20 1) f.pi))

  abbrev pub z_95 : F
  z_95 = f.literal 16448536269514722 16

  abbrev pub tail_mass_95 : F
  tail_mass_95 = f.literal 5 2

  unfoldable pub compute_risk : ℤ → F → F → F → F → RiskMetrics F
  compute_risk inventory mid sigma horizon_secs cash =
      let position_value = f.mul (f.of_int inventory) mid in
      let position_dollar_vol =
        f.mul (f.mul (f.abs (f.of_int inventory)) sigma)
          (f.sqrt (f.max horizon_secs (f.literal 0 1))) in
      record {
        position_value = position_value;
        unrealized_pnl = f.add cash position_value;
        var_95 = f.mul z_95 position_dollar_vol;
        es_95 = f.mul (f.div (std_normal_pdf z_95) tail_mass_95) position_dollar_vol;
      }

  abbrev pub new_kill_switch : RiskLimits F → KillSwitch F
  new_kill_switch limits = record { limits = limits; peak_pnl = f.min_value; triggered = none }

  abbrev pub is_triggered : KillSwitch F → Option KillReason
  is_triggered ks = ks.triggered

  -- The reason that is found, once the peak is known.
  abbrev pub reason : RiskLimits F → F → ℤ → RiskMetrics F → Bool → Option KillReason
  reason limits peak inventory metrics manual_kill =
      if manual_kill
      then some manual
      else (if ltb_ℤ limits.max_abs_inventory (abs_i64 inventory)
          then some inventory_limit
          else (if f.gt (f.sub peak metrics.unrealized_pnl) limits.max_drawdown
              then some drawdown
              else (if f.gt metrics.var_95 limits.max_var_95 then some value_at_risk else none)))

  unfoldable pub evaluate :
      KillSwitch F → ℤ → RiskMetrics F → Bool → KillSwitch F × Option KillReason
  evaluate ks inventory metrics manual_kill = elim ks.triggered [
    | some r ↦ (ks, some r)
    | none ↦
        let peak = f.max ks.peak_pnl metrics.unrealized_pnl in
        let r = reason ks.limits peak inventory metrics manual_kill in
        (record ks { peak_pnl = peak; triggered = r }, r)
  ]

  abbrev pub reset : KillSwitch F → KillSwitch F
  reset ks = record ks { triggered = none; peak_pnl = f.min_value }
