-- ===== src/Strategy/Decide.antt =====
-- What the strategy of engine/src/main.rs sends, against its kill switch and its position.
use high_frequency_market_ma.Prelude.{◌≡◌, refl, ap, ◌∙◌, Option, none, some, List, [], ◌∷◌, All}
use high_frequency_market_ma.Prelude.Int.{pos, ◌-ℤ◌, ◌≤ℤ◌, ◌<ℤ◌}
use high_frequency_market_ma.Prelude.Word.{IsI64, i64_min}
use high_frequency_market_ma.Float.{Float}
use high_frequency_market_ma.Types.{Price, Qty, quote, cancel_all}
use high_frequency_market_ma.Risk.{KillReason}
use high_frequency_market_ma.Risk.Latch.{evaluate-latched, evaluate-inventory}
use high_frequency_market_ma.Strategy.{
  Shadow, decide, Strategy, Pass, shadow_of, metrics_of, pass, passes,
}

module _ {ℓ} {F : Type ℓ} ⦃f : Float F⦄ where
  decide-quote :
      (s : Shadow F) (kill : Option KillReason) (bid_ticks ask_ticks : Price) {bp ap : Price}
      {bq aq : Qty}
      → (decide s kill bid_ticks ask_ticks).1 ≡ some (quote bp bq ap aq)
      → kill ≡ none
  unfolding decide
  decide-quote s none bt at e = refl
  decide-quote s (some r) bt at e = cc

  pub decide-kill :
      (s : Shadow F) (kill : Option KillReason) (bid_ticks ask_ticks : Price) {r : KillReason}
      → kill ≡ some r
      → (decide s kill bid_ticks ask_ticks).1 ≡ some cancel_all
  unfolding decide
  decide-kill s none bt at e = cc
  decide-kill s (some r) bt at e = refl

  pass-latched :
      (st : Strategy F) (p : Pass F) {r : KillReason}
      → st.kill_switch.triggered ≡ some r
      → ((pass st p).1 ≡ some cancel_all) × ((pass st p).0.kill_switch ≡ st.kill_switch)
  unfolding pass decide
  pass-latched st p e =
      let i = (shadow_of st p).inventory in
      let same = evaluate-latched st.kill_switch i (metrics_of st p) p.manual_kill e in
      (decide-kill (shadow_of st p) _ _ _ (ap (λ z. z.1) same), ap (λ z. z.0) same)

  -- Once its kill switch is triggered, every later pass of the strategy's loop hands a
  -- cancellation of all quotes to its command ring, whatever the feed, the snapshots and the
  -- clock bring.
  pub passes-latched :
      (ps : List (Pass F)) (st : Strategy F) {r : KillReason}
      → st.kill_switch.triggered ≡ some r
      → All (λ c. c ≡ some cancel_all) (passes st ps)
  unfolding passes
  passes-latched [] st e = tt
  passes-latched (p ∷ ps) st e =
      let (sent, same) = pass-latched st p e in
      (sent, passes-latched ps (pass st p).0 (ap (λ k. k.triggered) same ∙ e))

  -- Where a pass of the strategy's loop sends a quote, its inventory, if it is an i64 above the
  -- smallest, is within the inventory limit on either side.
  pub pass-inventory :
      (st : Strategy F) (p : Pass F) {bp ap : Price} {bq aq : Qty}
      → let i = (shadow_of st p).inventory in
        (pass st p).1 ≡ some (quote bp bq ap aq)
        → IsI64 i
        → i64_min <ℤ i
        → (i ≤ℤ st.kill_switch.limits.max_abs_inventory)
          × (pos 0 -ℤ i ≤ℤ st.kill_switch.limits.max_abs_inventory)
  unfolding pass
  pass-inventory st p e w lt =
      evaluate-inventory st.kill_switch (shadow_of st p).inventory (metrics_of st p) p.manual_kill
        (decide-quote (shadow_of st p) _ _ _ e) w lt
