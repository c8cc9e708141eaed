-- ===== src/Strategy/Quotes.antt =====
-- The two prices of a quote that the strategy of engine/src/main.rs sends.
use high_frequency_market_ma.Prelude.{◌≡◌, Option, none, some}
use high_frequency_market_ma.Prelude.Int.{◌≤ℤ◌}
use high_frequency_market_ma.Float.{Float}
use high_frequency_market_ma.Types.{Price, Qty, quote}
use high_frequency_market_ma.Risk.{KillReason}
use high_frequency_market_ma.Quoting.Spread.{SpreadLaws, quote_prices-le}
use high_frequency_market_ma.Strategy.{
  Shadow, decide, price_to_ticks, Strategy, Pass, model, shadow_of, mid_of, pass,
}
use high_frequency_market_ma.Strategy.Publish.{sent_quote, kill_of, quote_of}

module _ {ℓ} {F : Type ℓ} ⦃f : Float F⦄ where
  decide-prices :
      (s : Shadow F) (kill : Option KillReason) (bt at : Price) {bp ap : Price} {bq aq : Qty}
      → (decide s kill bt at).1 ≡ some (quote bp bq ap aq)
      → (bt ≡ bp) × (at ≡ ap)
  unfolding decide
  decide-prices s (some r) bt at e = cc
  decide-prices s none bt at e = sent_quote _ e

  -- Where the floats obey the laws of f64 for sums with a number that is not negative, for max
  -- and for rounding, and the reservation price of a pass is finite, a quote that the pass
  -- sends has a bid price that is at most its ask price, whatever the inventory and the
  -- volatility are.
  pub pass-IsOrdered :
      (laws : SpreadLaws F) (st : Strategy F) (p : Pass F) {bp ap : Price} {bq aq : Qty}
      → laws.IsFinite (quote_of st p).reservation_price
      → (pass st p).1 ≡ some (quote bp bq ap aq)
      → bp ≤ℤ ap
  unfolding pass
  pass-IsOrdered laws st p {bp} {ap} finite e =
      let q = quote_of st p in
      let (_, _, le) = quote_prices-le laws model (mid_of st p) _ _ p.time_remaining finite in
      let (b, a) =
        decide-prices (shadow_of st p) (kill_of st p) (price_to_ticks q.bid) (price_to_ticks q.ask)
          e in
      rw (← b, ← a) (laws.ticks_mono q.bid q.ask le)
