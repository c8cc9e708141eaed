-- ===== src/Strategy/Recover.antt =====
-- The strategy of engine/src/main.rs behind the exchange of engine/src/market_sim.rs again, after it
-- has lost events.
use high_frequency_market_ma.Prelude.{
  ℕ, ◌^◌, ◌<◌, ◌≡◌, sym, ap, ◌∙◌, true, not, ◌||◌, List, [], ◌++◌, map, is_empty, append-nil, All,
}
use high_frequency_market_ma.Float.{Float}
use high_frequency_market_ma.Types.{Qty, FeedPacket}
use high_frequency_market_ma.OrderBook.Valid.{IsValid}
use high_frequency_market_ma.UdpFeed.Forward.{seq_event}
use high_frequency_market_ma.MarketSim.{Sim, Round, publish_resync, steps}
use high_frequency_market_ma.MarketSim.Keeps.{CommandFits, steps-Keeps}
use high_frequency_market_ma.MarketSim.Log.{timeless, no_loss, Logged, logged}
use high_frequency_market_ma.Strategy.{Shadow, apply_each, drain, pull_resync}
use high_frequency_market_ma.Strategy.Follow.{drain-book}
use high_frequency_market_ma.Strategy.Heal.{pull_resync-heals}

module _ {ℓ} {F : Type ℓ} ⦃f : Float F⦄ where
  -- Where the feed handler has counted more losses than the strategy knew of, and the snapshot
  -- of the exchange's well-formed book is not empty and has a higher sequence number than all
  -- that the strategy has applied, a strategy that pulls it, whatever its shadow book was, and
  -- then drains what the exchange sends in further rounds comes to the exchange's book after
  -- these rounds, but for the times of the orders, if no packet of theirs is lost and the
  -- quantities of background orders and commands are below 2 ^ 64.
  pub drain-steps :
      (s : Shadow F) (x : Sim) (lost ts : ℕ) (now : ℕ → ℕ) (background_qty noise_qty : Qty)
      (rs : List Round)
      → IsValid x.exchange.book
      → s.last_known_lost_events < lost
      → s.highest_seq_applied < x.exchange.feed.seq
      → (not (is_empty (publish_resync x).resync.bids)
          || not (is_empty (publish_resync x).resync.asks))
        ≡ true
      → background_qty < 2 ^ 64
      → All (λ r. All (CommandFits (λ _ qty. qty < 2 ^ 64)) r.commands) rs
      → let s' = pull_resync s lost (publish_resync x).resync ts in
        let x' = (steps now no_loss background_qty noise_qty x rs).exchange in
        (after : List FeedPacket) × (x'.feed.sent ≡ x.exchange.feed.sent ++ after)
        × (timeless (drain s' (map seq_event after)).shadow_book ≡ timeless x'.book)
  unfolding apply_each
  drain-steps s x lost ts now background_qty noise_qty rs v more newer full small fits =
      let s' = pull_resync s lost (publish_resync x).resync ts in
      let healed = pull_resync-heals s x lost ts v more newer full in
      let start : Logged x.exchange.feed.sent s'.shadow_book x.exchange = record {
        valid = v;
        since = record { after = []; log = sym (append-nil x.exchange.feed.sent); same = healed.0 };
      } in
      let end =
        steps-Keeps now no_loss (logged now x.exchange.feed.sent s'.shadow_book) background_qty
          noise_qty small x rs fits start in
      (end.since.after, end.since.log, ap timeless (drain-book end.since.after s') ∙ end.since.same)
