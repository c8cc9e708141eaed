-- ===== src/Risk/Latch.antt =====
-- The kill switch of engine/src/risk.rs over many evaluations.
use high_frequency_market_ma.Prelude.{
  ◌+◌, ◌≡◌, refl, sym, ap, ◌∙◌, Bool, true, false, ◌||◌, Option, none, some, is_some, List, [], ◌∷◌,
  Option-cases, inl, inr, if◌then◌else◌, arith,
}
use high_frequency_market_ma.Prelude.Int.{
  ℤ, pos, ltb_ℤ, ◌≤ℤ◌, ◌<ℤ◌, ◌-ℤ◌, -ℤ_parts, pos_part, neg_part, one_part,
}
use high_frequency_market_ma.Prelude.Word.{IsI64, i64_min, wrap_i64, wrap_i64_of_IsI64}
use high_frequency_market_ma.Float.{Float}
use high_frequency_market_ma.Risk.{
  KillReason, manual, inventory_limit, drawdown, value_at_risk, RiskLimits, RiskMetrics, KillSwitch,
  evaluate, reason, abs_i64,
}

-- What one evaluation looks at.
pub record Look {ℓ} (F : Type ℓ) : Type ℓ where
  pub inventory : ℤ
  pub metrics : RiskMetrics F
  pub manual_kill : Bool

is_some-reason :
    (a b c d : Bool)
    → is_some (
        if a
        then some manual
        else (if b
            then some inventory_limit
            else (if c then some drawdown else (if d then some value_at_risk else none))))
      ≡ (a || b || c || d)
is_some-reason true b c d = refl
is_some-reason false true c d = refl
is_some-reason false false true d = refl
is_some-reason false false false true = refl
is_some-reason false false false false = refl

second_false : (a b c d : Bool) → (a || b || c || d) ≡ false → b ≡ false
second_false true b c d h = cc h
second_false false true c d h = cc h
second_false false false c d h = refl

module _ {ℓ} {F : Type ℓ} ⦃f : Float F⦄ where
  unfoldable pub evaluate_each : KillSwitch F → List (Look F) → KillSwitch F
  evaluate_each ks [] = ks
  evaluate_each ks (l ∷ ls) = evaluate_each (evaluate ks l.inventory l.metrics l.manual_kill).0 ls

  -- The first reason in a row of looks, each against the highest result so far.
  abbrev pub first_reason : RiskLimits F → F → List (Look F) → Option KillReason
  first_reason limits peak [] = none
  first_reason limits peak (l ∷ ls) =
      let peak' = f.max peak l.metrics.unrealized_pnl in
      or_else (reason limits peak' l.inventory l.metrics l.manual_kill)
        (first_reason limits peak' ls)
    where
      or_else : Option KillReason → Option KillReason → Option KillReason
      or_else (some r) later = some r
      or_else none later = later

  pub evaluate-latched :
      (ks : KillSwitch F) (i : ℤ) (m : RiskMetrics F) (k : Bool) {r : KillReason}
      → ks.triggered ≡ some r
      → evaluate ks i m k ≡ (ks, some r)
  unfolding evaluate
  evaluate-latched ks i m k e = simp (evaluate, e)

  pub evaluate-armed :
      (ks : KillSwitch F) (i : ℤ) (m : RiskMetrics F) (k : Bool)
      → ks.triggered ≡ none
      → let peak = f.max ks.peak_pnl m.unrealized_pnl in
        let r = reason ks.limits peak i m k in
        evaluate ks i m k ≡ (record ks { peak_pnl = peak; triggered = r }, r)
  unfolding evaluate
  evaluate-armed ks i m k e = rw (evaluate, e)

  -- A triggered kill switch is the same after any number of evaluations.
  pub evaluate_each-latched :
      (ls : List (Look F)) (ks : KillSwitch F) {r : KillReason}
      → ks.triggered ≡ some r
      → evaluate_each ks ls ≡ ks
  unfolding evaluate_each
  evaluate_each-latched [] ks e = refl
  evaluate_each-latched (l ∷ ls) ks e =
      ap (λ p. evaluate_each p.0 ls) (evaluate-latched ks l.inventory l.metrics l.manual_kill e)
      ∙ evaluate_each-latched ls ks e

  -- After any number of evaluations, a kill switch that was not triggered is triggered for the
  -- reason that the first breaching evaluation has, each taken against the highest result up to
  -- it, and is not triggered where none breaches.
  pub evaluate_each-first_reason :
      (ls : List (Look F)) (ks : KillSwitch F)
      → ks.triggered ≡ none
      → (evaluate_each ks ls).triggered ≡ first_reason ks.limits ks.peak_pnl ls
  unfolding evaluate_each
  evaluate_each-first_reason [] ks e = e
  evaluate_each-first_reason (l ∷ ls) ks e =
      let peak = f.max ks.peak_pnl l.metrics.unrealized_pnl in
      let now = reason ks.limits peak l.inventory l.metrics l.manual_kill in
      let next : KillSwitch F = record ks { peak_pnl = peak; triggered = now } in
      ap (λ p. (evaluate_each p.0 ls).triggered)
        (evaluate-armed ks l.inventory l.metrics l.manual_kill e)
      ∙ elim (Option-cases now) [
        | inl n ↦ evaluate_each-first_reason ls next n ∙ rw n
        | inr (r, s) ↦ ap (λ k. k.triggered) (evaluate_each-latched ls next s) ∙ s ∙ rw s
      ]

  -- An armed switch trips just where the manual kill or one of the three limits says so.
  evaluate-is_some :
      (ks : KillSwitch F) (inventory : ℤ) (metrics : RiskMetrics F) (manual_kill : Bool)
      → ks.triggered ≡ none
      → let (ks', r) = evaluate ks inventory metrics manual_kill in
        (is_some r ≡ (
          manual_kill
          || ltb_ℤ ks.limits.max_abs_inventory (abs_i64 inventory)
          || f.gt (f.sub ks'.peak_pnl metrics.unrealized_pnl) ks.limits.max_drawdown
          || f.gt metrics.var_95 ks.limits.max_var_95))
        × (ks'.triggered ≡ r)
        × (ks'.peak_pnl ≡ f.max ks.peak_pnl metrics.unrealized_pnl)
  evaluate-is_some ks i m k e = rw (evaluate-armed ks i m k e) (is_some-reason k _ _ _, refl, refl)

  -- Where an evaluation returns no reason, an inventory that is an i64 above the smallest is
  -- within the inventory limit on either side.
  pub evaluate-inventory :
      (ks : KillSwitch F) (i : ℤ) (m : RiskMetrics F) (k : Bool)
      → (evaluate ks i m k).1 ≡ none
      → IsI64 i
      → i64_min <ℤ i
      → (i ≤ℤ ks.limits.max_abs_inventory) × (pos 0 -ℤ i ≤ℤ ks.limits.max_abs_inventory)
  evaluate-inventory ks i m k e w lt = elim (Option-cases ks.triggered) [
    | inl armed ↦
        let (tripped, _, _) = evaluate-is_some ks i m k armed in
        let within : ltb_ℤ ks.limits.max_abs_inventory (abs_i64 i) ≡ false =
          second_false k _ _ _ (sym tripped ∙ ap is_some e) in
        let size : wrap_i64 (pos (pos_part i + neg_part i)) ≡ pos (pos_part i + neg_part i) =
          wrap_i64_of_IsI64 _ (omega (arith, lt, one_part i)) in
        (ground (arith, within, size), ground (arith, within, size, -ℤ_parts (pos 0) i))
    | inr (r, latch) ↦ absurd (cc (sym e ∙ ap (λ p. p.1) (evaluate-latched ks i m k latch)))
  ]
