-- ===== src/MarketSim/GapTests.antt =====
-- Two levels that the exchange of engine/src/market_sim.rs places, and the loss of the second packet.
use high_frequency_market_ma.Prelude.{
  ℕ, ◌≡◌, refl, Bool, false, some, List, [], ◌∷◌, map, length, ◌-◌, ◌==◌, arith,
}
use high_frequency_market_ma.Prelude.Int.{pos, ◌+ℤ◌, ◌-ℤ◌}
use high_frequency_market_ma.Prelude.Word.{wrap_i64}
use high_frequency_market_ma.TreeMap.{get, insert, first_key, last_key}
use high_frequency_market_ma.Types.{Side, bid, ask, Price, FeedPacket, add}
use high_frequency_market_ma.OrderBook.{
  submit_limit_order, submit_loop, best_level, insert_resting_order, push_order,
}
use high_frequency_market_ma.RingBuffer.{make_inner}
use high_frequency_market_ma.UdpFeed.{datagram, run_feed, start}
use high_frequency_market_ma.MarketSim.{
  Exchange, run_sim, steps, publish_resync, refresh, place_background, submit_and_emit, sum_qty,
  cancel_existing, emit, emit_each,
}
use high_frequency_market_ma.MarketSim.Log.{no_loss}
use high_frequency_market_ma.MarketSim.Gaps.{run_feed-run_sim}
use high_frequency_market_ma.Strategy.Codec.{encode, decode, decode-encode}

abbrev clock : ℕ → ℕ
clock n = n

abbrev second_lost : ℕ → Bool
second_lost seq = seq == 1

abbrev two_levels : (ℕ → Bool) → Exchange
two_levels lost = (run_sim clock lost 20 3 2 (pos 10000) []).exchange

abbrev added : ℕ → Side → Price → ℕ → FeedPacket
added id side price ts = record { seq = id - 1; event = add id side price 20 ts false }

abbrev last_two : List FeedPacket
last_two = added 3 bid (pos 9998) 5 ∷ added 4 ask (pos 10002) 7 ∷ []

two_levels-sent :
    (length (two_levels no_loss).feed.sent ≡ 4)
    × ((two_levels second_lost).feed.sent ≡ added 1 bid (pos 9999) 1 ∷ last_two)
unfolding run_sim steps publish_resync refresh place_background submit_and_emit sum_qty
    submit_limit_order submit_loop best_level last_key cancel_existing first_key
    insert_resting_order push_order insert wrap_i64 ◌+ℤ◌ ◌-ℤ◌ emit emit_each get
two_levels-sent = (refl, refl)

run_feed-run_sim_example :
    let h =
      run_feed decode
        (start (make_inner 16384))
        (map (λ p. datagram (encode p)) (two_levels second_lost).feed.sent) in
    (h.expected_seq ≡ some 4) × (h.health.events_lost_to_gaps ≡ 1)
run_feed-run_sim_example =
    run_feed-run_sim encode decode (make_inner 16384) clock second_lost 20 3 2 (pos 10000) []
      decode-encode (omega (arith, two_levels-sent.0)) two_levels-sent.1
