-- ===== src/Risk/Tests.antt =====
-- Runs of the kill switch of engine/src/risk.rs from its own tests, and the theorems about it at a
-- switch whose inventory limit is 5.
use high_frequency_market_ma.Prelude.{◌≡◌, refl, false, some, [], ◌∷◌}
use high_frequency_market_ma.Prelude.Int.{ℤ, pos, negsuc, ◌-ℤ◌}
use high_frequency_market_ma.Prelude.Word.{wrap_i64}
use high_frequency_market_ma.Float.Whole.{whole}
use high_frequency_market_ma.Risk.{
  inventory_limit, RiskLimits, RiskMetrics, KillSwitch, new_kill_switch, evaluate,
}
use high_frequency_market_ma.Risk.Latch.{
  Look, evaluate_each, first_reason, evaluate_each-first_reason,
}

abbrev limits : RiskLimits ℤ
limits = record { max_abs_inventory = pos 5; max_drawdown = pos 100; max_var_95 = pos 100 }

abbrev fresh : KillSwitch ℤ
fresh = new_kill_switch limits

abbrev metrics : ℤ → RiskMetrics ℤ
metrics pnl = record { position_value = pos 0; unrealized_pnl = pnl; var_95 = pos 1; es_95 = pos 2 }

abbrev look : ℤ → ℤ → Look ℤ
look inventory pnl = record { inventory = inventory; metrics = metrics pnl; manual_kill = false }

-- `kill_switch_trips_on_inventory_breach_and_latches`
trips_and_latches :
    let looks = look (pos 3) (pos 0) ∷ look (pos 6) (pos 0) ∷ look (pos 0) (pos 0) ∷ [] in
    (evaluate_each fresh looks).triggered ≡ some inventory_limit
unfolding evaluate_each evaluate wrap_i64 ◌-ℤ◌
trips_and_latches = refl

evaluate_each-first_reason_example :
    (evaluate_each fresh (look (pos 0) (pos 150) ∷ look (negsuc 2) (pos 20) ∷ [])).triggered
    ≡ first_reason limits (pos 0) (look (pos 0) (pos 150) ∷ look (negsuc 2) (pos 20) ∷ [])
evaluate_each-first_reason_example =
    evaluate_each-first_reason (look (pos 0) (pos 150) ∷ look (negsuc 2) (pos 20) ∷ []) fresh refl
