-- ===== src/Strategy/Follow.antt =====
-- The shadow book of engine/src/main.rs against the book of the exchange of
-- engine/src/market_sim.rs.
use high_frequency_market_ma.Prelude.{
  ℕ, ◌^◌, ◌<◌, ◌≡◌, refl, ap, ◌∙◌, true, false, List, [], ◌∷◌, map, All,
}
use high_frequency_market_ma.Float.{Float}
use high_frequency_market_ma.Types.{
  Price, Qty, bid, ask, MarketEvent, add, cancel, trade, FeedPacket,
}
use high_frequency_market_ma.OrderBook.{new}
use high_frequency_market_ma.UdpFeed.Forward.{seq_event}
use high_frequency_market_ma.MarketSim.{Round, run_sim}
use high_frequency_market_ma.MarketSim.Keeps.{CommandFits}
use high_frequency_market_ma.MarketSim.Log.{timeless, no_loss, events, run_sim-replays}
use high_frequency_market_ma.Strategy.{Shadow, apply_each, our_part, our_trade, apply_event, drain}

module _ {ℓ} {F : Type ℓ} ⦃f : Float F⦄ where
  pub our_part-book : (s : Shadow F) (e : MarketEvent) → (our_part s e).shadow_book ≡ s.shadow_book
  unfolding our_trade
  our_part-book s (add id bid price qty ts true) = refl
  our_part-book s (add id ask price qty ts true) = refl
  our_part-book s (add id side price qty ts false) = refl
  our_part-book s (cancel id side price ts) = refl
  our_part-book s (trade id true bid price qty ts) = refl
  our_part-book s (trade id true ask price qty ts) = refl
  our_part-book s (trade id false side price qty ts) = refl

  pub drain-book :
      (ps : List FeedPacket) (s : Shadow F)
      → (drain s (map seq_event ps)).shadow_book
        ≡ apply_each s.shadow_book (map (λ (p : FeedPacket). p.event) ps)
  unfolding drain apply_event apply_each
  drain-book [] s = refl
  drain-book (p ∷ ps) s =
      drain-book ps (apply_event s (seq_event p))
      ∙ ap (λ b. apply_each b (map (λ (p : FeedPacket). p.event) ps)) (our_part-book _ p.event)

  -- Where no packet is lost and the quantities of background orders and commands are below 2 ^
  -- 64, a strategy that starts with an empty shadow book and drains all the events that the
  -- exchange sends comes to the exchange's book, but for the times of the orders.
  pub drain-run_sim :
      (now : ℕ → ℕ) (background_qty noise_qty : Qty) (levels : ℕ) (start : Price) (rs : List Round)
      (s : Shadow F)
      → background_qty < 2 ^ 64
      → All (λ r. All (CommandFits (λ _ qty. qty < 2 ^ 64)) r.commands) rs
      → s.shadow_book ≡ new
      → let x = (run_sim now no_loss background_qty noise_qty levels start rs).exchange in
        timeless (drain s (map seq_event x.feed.sent)).shadow_book ≡ timeless x.book
  drain-run_sim now background_qty noise_qty levels start rs s small fits fresh =
      let x = (run_sim now no_loss background_qty noise_qty levels start rs).exchange in
      ap timeless (drain-book x.feed.sent s ∙ ap (λ b. apply_each b (events x.feed.sent)) fresh)
      ∙ run_sim-replays now background_qty noise_qty levels start rs small fits
