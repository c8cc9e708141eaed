-- ===== src/Strategy/FeedTests.antt =====
-- The way from the exchange to the shadow book of engine/src/main.rs, at one level of the exchange's
-- own orders, and the loop over the ring at one event.
use high_frequency_market_ma.Prelude.{
  ℕ, suc, ◌≡◌, refl, false, some, none, [], ◌∷◌, map, length, arith,
}
use high_frequency_market_ma.Prelude.Int.{ℤ, pos, ◌+ℤ◌, ◌-ℤ◌}
use high_frequency_market_ma.Prelude.Word.{wrap_i64}
use high_frequency_market_ma.TreeMap.{get, insert, first_key, last_key}
use high_frequency_market_ma.Float.Whole.{whole}
use high_frequency_market_ma.Types.{bid, SeqEvent, add}
use high_frequency_market_ma.OrderBook.{
  new, submit_limit_order, submit_loop, best_level, insert_resting_order, push_order,
}
use high_frequency_market_ma.RingBuffer.{RingInner, make_inner}
use high_frequency_market_ma.RingBuffer.Queue.{Holds}
use high_frequency_market_ma.UdpFeed.{datagram, run_feed, start}
use high_frequency_market_ma.MarketSim.{
  Exchange, run_sim, steps, publish_resync, refresh, place_background, submit_and_emit, sum_qty,
  cancel_existing, emit, emit_each,
}
use high_frequency_market_ma.MarketSim.Log.{timeless, no_loss}
use high_frequency_market_ma.Strategy.{Shadow, drain, drain_ring}
use high_frequency_market_ma.Strategy.Codec.{encode, decode, decode-encode}
use high_frequency_market_ma.Strategy.Drain.{drain_ring-drain, drain_ring-run_sim}

abbrev clock : ℕ → ℕ
clock n = n

abbrev first_shadow : Shadow ℤ
first_shadow = record {
  shadow_book = new;
  inventory = pos 0;
  cash = pos 0;
  trades_count = 0;
  our_bid_price = pos 0;
  our_ask_price = pos 0;
  have_quotes = false;
  highest_seq_applied = 0;
  last_known_lost_events = 0;
}

abbrev one_event : SeqEvent
one_event = record { seq = 4; event = add 1 bid (pos 9999) 5 0 false }

abbrev one_in_ring : RingInner SeqEvent
one_in_ring = record {
  buf = some one_event ∷ none ∷ [];
  capacity = 2;
  mask = 1;
  head = 0;
  tail = 1;
  dropped = 0;
}

one_in_ring-Holds : Holds 1 one_in_ring (one_event ∷ [])
one_in_ring-Holds = record {
  word = omega arith;
  capacity = refl;
  mask = refl;
  size = refl;
  head = omega arith;
  tail = refl;
  room = omega arith;
  slots = (refl, tt);
}

drain_ring-drain_example :
    (ring : RingInner SeqEvent) × (drain_ring 2 one_in_ring first_shadow
      ≡ some (ring, drain first_shadow (one_event ∷ [])))
    × Holds 1 ring []
drain_ring-drain_example =
    drain_ring-drain 2 (one_event ∷ []) first_shadow one_in_ring-Holds (omega arith)

abbrev one_level : Exchange
one_level = (run_sim clock no_loss 20 3 1 (pos 10000) []).exchange

one_level-length : length one_level.feed.sent ≡ 2
unfolding run_sim steps publish_resync refresh place_background submit_and_emit sum_qty
    submit_limit_order submit_loop best_level last_key cancel_existing first_key
    insert_resting_order push_order insert wrap_i64 ◌+ℤ◌ ◌-ℤ◌ emit emit_each get
one_level-length = refl

drain_ring-run_sim_example :
    let h =
      run_feed decode
        (start (make_inner 16384))
        (map (λ p. datagram (encode p)) one_level.feed.sent) in
    (ring : RingInner SeqEvent) × (s : Shadow ℤ) × (drain_ring
        (suc (length one_level.feed.sent))
        h.out
        first_shadow
      ≡ some (ring, s))
    × (timeless s.shadow_book ≡ timeless one_level.book)
    × (h.health.packets_received ≡ length one_level.feed.sent)
    × (h.out.dropped ≡ 0)
drain_ring-run_sim_example =
    drain_ring-run_sim encode decode clock 20 3 1 (pos 10000) [] first_shadow decode-encode
      (omega arith) tt refl (omega (arith, one_level-length))
