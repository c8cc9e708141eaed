-- ===== src/Strategy/Publish.antt =====
-- The snapshot that a pass of the strategy of engine/src/main.rs publishes to the monitor.
use high_frequency_market_ma.Prelude.{
  ℕ, ◌/◌, ◌≡◌, inl, inr, refl, sym, ap, ◌∙◌, Bool, true, false, if◌then◌else◌, Option, none, some,
  is_some, Option-cases, List, map,
}
use mathlib.Core.Option
use high_frequency_market_ma.Float.{Float}
use high_frequency_market_ma.Types.{Price, Qty, quote, StrategyCommand, cancel_all}
use high_frequency_market_ma.OrderBook.{OrderBook}
use high_frequency_market_ma.OrderBook.Mirror.{depth_snapshot}
use high_frequency_market_ma.Risk.{KillReason, describe, evaluate}
use high_frequency_market_ma.Risk.Latch.{evaluate-armed, evaluate-latched}
use high_frequency_market_ma.Quoting.{Quote, update_vol, quote_prices}
use high_frequency_market_ma.Ipc.{Snapshot}
use high_frequency_market_ma.Strategy.{
  Shadow, decide, ticks_to_price, price_to_ticks, our_lot_size, Strategy, Pass, model, shadow_of,
  mid_of, metrics_of, pass,
}

-- What a pass reads of the clock and of the counters of the feed for its snapshot.
pub record Counters : Type 0 where
  pub stamp_nanos : ℕ
  pub packets_received : ℕ
  pub gaps_detected : ℕ
  pub events_lost : ℕ
  pub ring_dropped : ℕ

pub sent_quote :
    (b : Bool) {bt at bp ap : Price} {bq aq : Qty}
    → (if b then some (quote bt our_lot_size at our_lot_size) else none) ≡ some (quote bp bq ap aq)
    → (bt ≡ bp) × (at ≡ ap)
sent_quote true e = (cc, cc)
sent_quote false e = cc

module _ {ℓ} {F : Type ℓ} ⦃f : Float F⦄ where
  unfoldable pub depth_as_prices : OrderBook → Bool → List (F × Qty)
  depth_as_prices book bids =
      let (b, a) = depth_snapshot book 5 in
      if bids
      then map (λ l. (ticks_to_price l.0, l.1)) b
      else map (λ l. (ticks_to_price l.0, l.1)) a

  -- The reason that a pass does not quote, and the quote that it has else.
  abbrev pub kill_of : Strategy F → Pass F → Option KillReason
  kill_of st p =
      (evaluate st.kill_switch (shadow_of st p).inventory (metrics_of st p) p.manual_kill).1

  abbrev pub quote_of : Strategy F → Pass F → Quote F
  quote_of st p =
      quote_prices model (mid_of st p) (shadow_of st p).inventory
        (update_vol st.vol_est (mid_of st p) p.now_nanos).1 p.time_remaining

  abbrev pub unless_killed : Option KillReason → F → Option F
  unless_killed (some r) price = none
  unless_killed none price = some price

  unfoldable pub publish : Strategy F → Pass F → Counters → Snapshot F
  publish st p counters =
      let s = shadow_of st p in
      let kill = kill_of st p in
      let q = quote_of st p in
      let metrics = metrics_of st p in
      record {
        ts_ms = counters.stamp_nanos / 1000000;
        mid = mid_of st p;
        our_bid = unless_killed kill (ticks_to_price (price_to_ticks q.bid));
        our_ask = unless_killed kill (ticks_to_price (price_to_ticks q.ask));
        inventory = s.inventory;
        cash = s.cash;
        unrealized_pnl = metrics.unrealized_pnl;
        sigma = (update_vol st.vol_est (mid_of st p) p.now_nanos).1;
        var_95 = metrics.var_95;
        es_95 = metrics.es_95;
        killed = is_some kill;
        kill_reason = Option.map describe kill;
        bid_depth = depth_as_prices s.shadow_book true;
        ask_depth = depth_as_prices s.shadow_book false;
        trades_count = s.trades_count;
        feed_packets_received = counters.packets_received;
        feed_gaps_detected = counters.gaps_detected;
        feed_events_lost = counters.events_lost;
        ring_dropped = counters.ring_dropped;
      }

  -- What the kill switch returns is what it then stands at.
  evaluate-triggered :
      (st : Strategy F) (p : Pass F) → kill_of st p ≡ (pass st p).0.kill_switch.triggered
  unfolding pass
  evaluate-triggered st p =
      let i = (shadow_of st p).inventory in
      let m = metrics_of st p in
      elim (Option-cases st.kill_switch.triggered) [
        | inl armed ↦
            let e = evaluate-armed st.kill_switch i m p.manual_kill armed in
            ap (λ z. z.1) e ∙ ap (λ z. z.0.triggered) (sym e)
        | inr (r, latched) ↦
            let e = evaluate-latched st.kill_switch i m p.manual_kill latched in
            ap (λ z. z.1) e ∙ sym latched ∙ ap (λ z. z.0.triggered) (sym e)
      ]

  decide-shadow :
      (s : Shadow F) (kill : Option KillReason) (bt at : Price)
      → ((decide s kill bt at).0.inventory ≡ s.inventory) × ((decide s kill bt at).0.cash ≡ s.cash)
  unfolding decide
  decide-shadow s (some r) bt at = (refl, refl)
  decide-shadow s none bt at = (refl, refl)

  decide-withdrawn :
      (s : Shadow F) (kill : Option KillReason) (bt at : Price) (b a : F)
      → is_some kill ≡ true
      → ((decide s kill bt at).1 ≡ some cancel_all)
        × (unless_killed kill b ≡ none)
        × (unless_killed kill a ≡ none)
  unfolding decide
  decide-withdrawn s (some r) bt at b a e = (refl, refl, refl)
  decide-withdrawn s none bt at b a e = cc

  decide-quoted :
      (s : Shadow F) (kill : Option KillReason) (bt at : Price) {bp ap : Price} {bq aq : Qty}
      → (decide s kill bt at).1 ≡ some (quote bp bq ap aq)
      → (unless_killed kill (ticks_to_price bt) ≡ some (ticks_to_price bp))
        × (unless_killed kill (ticks_to_price at) ≡ some (ticks_to_price ap))
  unfolding decide
  decide-quoted s (some r) bt at e = cc
  decide-quoted s none bt at e =
      let (b, a) = sent_quote _ e in
      (ap (λ t. some (ticks_to_price t)) b, ap (λ t. some (ticks_to_price t)) a)

  -- What the monitor sees of a pass, against the pass.
  pub record Shows (snap : Snapshot F) (st' : Strategy F) (command : Option StrategyCommand)
      : Type ℓ where
    pub killed : snap.killed ≡ is_some st'.kill_switch.triggered
    pub reason : snap.kill_reason ≡ Option.map describe st'.kill_switch.triggered
    pub inventory : snap.inventory ≡ st'.shadow.inventory
    pub cash : snap.cash ≡ st'.shadow.cash
    pub withdrawn :
        snap.killed ≡ true
        → (command ≡ some cancel_all) × (snap.our_bid ≡ none) × (snap.our_ask ≡ none)
    pub quoted :
        (bp ap : Price) (bq aq : Qty)
        → command ≡ some (quote bp bq ap aq)
        → (snap.our_bid ≡ some (ticks_to_price bp)) × (snap.our_ask ≡ some (ticks_to_price ap))

  -- The snapshot that a pass of the strategy publishes shows its kill switch with the reason,
  -- its inventory and its cash as the pass leaves them; where it is killed, the pass sends a
  -- cancellation of all quotes and the snapshot shows no prices, and where the pass sends a
  -- quote, the snapshot shows the prices of that quote.
  pub publish-Shows :
      (st : Strategy F) (p : Pass F) (counters : Counters)
      → Shows (publish st p counters) (pass st p).0 (pass st p).1
  unfolding publish pass
  publish-Shows st p counters =
      let s = shadow_of st p in
      let kill = kill_of st p in
      let q = quote_of st p in
      let bt = price_to_ticks q.bid in
      let at = price_to_ticks q.ask in
      let e = evaluate-triggered st p in
      let (inventory, cash) = decide-shadow s kill bt at in
      record {
        killed = ap is_some e;
        reason = ap (Option.map describe) e;
        inventory = sym inventory;
        cash = sym cash;
        withdrawn = decide-withdrawn s kill bt at (ticks_to_price bt) (ticks_to_price at);
        quoted = λ bp ap bq aq e. decide-quoted s kill bt at e;
      }
