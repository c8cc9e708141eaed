-- ===== src/Strategy/Tests.antt =====
-- The strategy of engine/src/main.rs with whole numbers of ticks for its floats.
use high_frequency_market_ma.Prelude.{
  All, ◌<◌, ◌+◌, ◌++◌, ℕ, ◌≡◌, refl, true, false, some, none, List, [], ◌∷◌, map, arith, not,
  is_empty, ◌||◌,
}
use high_frequency_market_ma.Prelude.Int.{ℤ, pos, ◌+ℤ◌, ◌-ℤ◌, ◌≤ℤ◌, +ℤ_parts, -ℤ_parts}
use high_frequency_market_ma.Float.Whole.{whole}
use high_frequency_market_ma.Types.{
  bid, ask, Order, SeqEvent, FeedPacket, add, trade, quote, cancel_all,
}
use high_frequency_market_ma.OrderBook.{new, mid_ticks, best_bid, best_ask}
use high_frequency_market_ma.OrderBook.Mirror.{export_resync}
use high_frequency_market_ma.OrderBook.Valid.{IsValid}
use high_frequency_market_ma.UdpFeed.Forward.{seq_event}
use high_frequency_market_ma.MarketSim.{Round, Sim, empty_sim, publish_resync, run_sim, steps}
use high_frequency_market_ma.MarketSim.Log.{timeless, no_loss}
use high_frequency_market_ma.Strategy.{
  Strategy, Pass, pass, passes, model, price_to_ticks, Shadow, drain, apply_event, our_trade,
  pull_resync, decide,
}
use high_frequency_market_ma.Strategy.Inventory.{IsMoved, drain-IsMoved}
use high_frequency_market_ma.Strategy.Heal.{pull_resync-heals}
use high_frequency_market_ma.Strategy.Decide.{passes-latched, pass-inventory}
use high_frequency_market_ma.Quoting.{
  new_vol, update_vol, ewma_after, next_var, Quote, quote_prices,
}
use high_frequency_market_ma.TreeMap.{first_key, last_key}
use high_frequency_market_ma.Prelude.Word.{wrap_i64}
use high_frequency_market_ma.Risk.{compute_risk, std_normal_pdf, manual, new_kill_switch, evaluate}
use high_frequency_market_ma.Strategy.Recover.{drain-steps}
use high_frequency_market_ma.Strategy.Stale.{drain-stale}
use high_frequency_market_ma.Strategy.Quotes.{pass-IsOrdered}
use high_frequency_market_ma.Quoting.Spread.{SpreadLaws}
use high_frequency_market_ma.OrderBook.Totals.{resting}
use high_frequency_market_ma.Strategy.Publish.{Counters, publish, Shows, publish-Shows}
use high_frequency_market_ma.Strategy.Follow.{drain-run_sim}

abbrev clock : ℕ → ℕ
clock n = n

abbrev first_shadow : Shadow ℤ
first_shadow = record {
  shadow_book = new;
  inventory = pos 0;
  cash = pos 0;
  trades_count = 0;
  our_bid_price = pos 0;
  our_ask_price = pos 0;
  have_quotes = false;
  highest_seq_applied = 0;
  last_known_lost_events = 0;
}

abbrev two_rounds : List Round
two_rounds =
    record {
      mid_ticks = pos 10001;
      refreshed = (true, false) ∷ [];
      commands = quote (pos 10001) 5 (pos 10001) 5 ∷ [];
      noise = some bid;
      publishes = true;
    }
    ∷ record {
      mid_ticks = pos 10000;
      refreshed = (false, true) ∷ [];
      commands = cancel_all ∷ [];
      noise = none;
      publishes = false;
    }
    ∷ []

drain-run_sim_example :
    let x = (run_sim clock no_loss 20 3 1 (pos 10000) two_rounds).exchange in
    timeless (drain first_shadow (map seq_event x.feed.sent)).shadow_book ≡ timeless x.book
drain-run_sim_example =
    drain-run_sim clock 20 3 1 (pos 10000) two_rounds first_shadow (omega arith) (omega arith) refl

-- The exchange with one order in its book, ten events after its start.
abbrev mended_sim : Sim
mended_sim = record (empty_sim 1) {
  exchange = record {
    book = record { bids = (pos 9999, one_order ∷ []) ∷ []; asks = [] };
    feed = record { seq = 10; sent = [] };
    id_gen = 1;
    reads = 1;
  };
}
  where
    one_order : Order
    one_order = record {
      id = 1;
      side = bid;
      price = pos 9999;
      qty = 5;
      ts_nanos = 0;
      is_ours = true;
    }

mended_sim-IsValid : IsValid mended_sim.exchange.book
mended_sim-IsValid = ground arith

mended_sim_full :
    (not (is_empty (publish_resync mended_sim).resync.bids)
      || not (is_empty (publish_resync mended_sim).resync.asks))
    ≡ true
unfolding publish_resync export_resync
mended_sim_full = refl

pull_resync-heals_example :
    let s = pull_resync first_shadow 2 (publish_resync mended_sim).resync 7 in
    (timeless s.shadow_book ≡ timeless mended_sim.exchange.book)
    × (s.highest_seq_applied ≡ 10)
    × (s.last_known_lost_events ≡ 2)
pull_resync-heals_example =
    pull_resync-heals first_shadow mended_sim 2 7 mended_sim-IsValid (omega arith) (omega arith)
      mended_sim_full

abbrev pub first_strategy : Strategy ℤ
first_strategy = record {
  shadow = first_shadow;
  vol_est = new_vol (pos 5) (pos 97);
  kill_switch = new_kill_switch (record {
    max_abs_inventory = pos 60;
    max_drawdown = pos 800;
    max_var_95 = pos 1000000000000000000000000;
  });
  last_mid = pos 10000;
}

abbrev killed_strategy : Strategy ℤ
killed_strategy = record first_strategy {
  kill_switch = record first_strategy.kill_switch { triggered = some manual };
}

abbrev pub quiet_pass : Pass ℤ
quiet_pass = record {
  popped = [];
  pulled = none;
  now_nanos = 7;
  time_remaining = pos 45;
  manual_kill = false;
}

passes-latched_example :
    All (λ c. c ≡ some cancel_all) (passes killed_strategy (quiet_pass ∷ quiet_pass ∷ []))
passes-latched_example = passes-latched (quiet_pass ∷ quiet_pass ∷ []) killed_strategy refl

abbrev first_quote : Quote ℤ
first_quote = quote_prices model (pos 10000) (pos 0) (pos 25) (pos 45)

quotes :
    (pass first_strategy quiet_pass).1
    ≡ some (quote (price_to_ticks first_quote.bid) 5 (price_to_ticks first_quote.ask) 5)
unfolding pass drain pull_resync update_vol ewma_after next_var compute_risk evaluate decide
    quote_prices mid_ticks wrap_i64 best_bid best_ask first_key last_key ◌+ℤ◌ ◌-ℤ◌ std_normal_pdf
quotes = refl

pass-inventory_example : (pos 0 ≤ℤ pos 60) × (pos 0 -ℤ pos 0 ≤ℤ pos 60)
unfolding drain
pass-inventory_example = pass-inventory first_strategy quiet_pass quotes (omega arith) (omega arith)

abbrev our_trades : List SeqEvent
our_trades =
    record { seq = 1; event = trade 7 true bid (pos 9999) 5 0 }
    ∷ record { seq = 2; event = trade 8 true ask (pos 10001) 3 0 }
    ∷ record { seq = 3; event = trade 9 false ask (pos 10001) 4 0 }
    ∷ []

inventory_two : (drain first_shadow our_trades).inventory ≡ pos 2
unfolding drain apply_event our_trade wrap_i64 ◌+ℤ◌ ◌-ℤ◌
inventory_two = refl

drain-IsMoved_example : IsMoved (pos 0) 5 3 (drain first_shadow our_trades).inventory
drain-IsMoved_example = drain-IsMoved our_trades first_shadow (omega arith)

abbrev some_counters : Counters
some_counters = record {
  stamp_nanos = 9000000;
  packets_received = 4;
  gaps_detected = 1;
  events_lost = 2;
  ring_dropped = 0;
}

publish-Shows_example :
    Shows
      (publish first_strategy quiet_pass some_counters)
      (pass first_strategy quiet_pass).0
      (pass first_strategy quiet_pass).1
publish-Shows_example = publish-Shows first_strategy quiet_pass some_counters

-- The exchange goes on for two rounds behind the snapshot that mends the shadow book.
drain-steps_example :
    let s = pull_resync first_shadow 2 (publish_resync mended_sim).resync 7 in
    let x = (steps clock no_loss 3 2 mended_sim two_rounds).exchange in
    (after : List FeedPacket) × (x.feed.sent ≡ mended_sim.exchange.feed.sent ++ after)
    × (timeless (drain s (map seq_event after)).shadow_book ≡ timeless x.book)
drain-steps_example =
    drain-steps first_shadow mended_sim 2 7 clock 3 2 two_rounds mended_sim-IsValid (omega arith)
      (omega arith) mended_sim_full (omega arith) (((omega arith, omega arith), tt), ((tt, tt), tt))

-- The event of the order that the snapshot has.
drain-stale_example :
    let s = pull_resync first_shadow 2 (publish_resync mended_sim).resync 7 in
    let e : SeqEvent = record { seq = 4; event = add 1 bid (pos 9999) 5 0 true } in
    (4 < s.highest_seq_applied)
    × (resting (drain s (e ∷ [])).shadow_book.bids ≡ resting mended_sim.exchange.book.bids + 5)
drain-stale_example =
    drain-stale first_shadow mended_sim 2 7 4 1 bid (pos 9999) 5 0 true mended_sim-IsValid
      (omega arith) (omega arith) mended_sim_full (omega arith)

whole-SpreadLaws : SpreadLaws ℤ
whole-SpreadLaws = record {
  le = ◌≤ℤ◌;
  IsFinite = λ x. Unit;
  le_trans = λ x y z h k. omega arith;
  le_max = λ x. ground arith;
  sub_le = λ x y _ h. omega (arith, -ℤ_parts x y);
  le_add = λ x y _ h. omega (arith, +ℤ_parts x y);
  ticks_mono = λ x y h. h;
}

pass-IsOrdered_example : price_to_ticks first_quote.bid ≤ℤ price_to_ticks first_quote.ask
unfolding drain whole-SpreadLaws
pass-IsOrdered_example = pass-IsOrdered whole-SpreadLaws first_strategy quiet_pass tt quotes
