-- ===== src/MarketSim/QuoteTests.antt =====
-- The quotes of a run of the exchange of engine/src/market_sim.rs: one that comes to rest on both sides,
-- and its cancellation.
use high_frequency_market_ma.Prelude.{
  ℕ, ◌≡◌, ◌≤◌, refl, false, none, List, [], ◌∷◌, All, sum_by, arith,
}
use high_frequency_market_ma.Prelude.Int.{pos, ◌+ℤ◌, ◌-ℤ◌}
use high_frequency_market_ma.Prelude.Word.{wrap_i64}
use high_frequency_market_ma.TreeMap.{get, insert, remove, first_key, last_key}
use high_frequency_market_ma.Types.{quote, cancel_all}
use high_frequency_market_ma.OrderBook.{
  submit_limit_order, submit_loop, best_level, insert_resting_order, push_order, cancel_order,
  position, remove_at, put_level,
}
use high_frequency_market_ma.OrderBook.Mirror.{flat}
use high_frequency_market_ma.MarketSim.{
  Exchange, Round, run_sim, steps, step, publish_resync, refresh, place_background, submit_and_emit,
  cancel_and_emit, sum_qty, cancel_existing, cancel_quotes, handle_command, handle_commands, emit,
  emit_each,
}
use high_frequency_market_ma.MarketSim.Log.{no_loss}
use high_frequency_market_ma.MarketSim.Tracked.{own}
use high_frequency_market_ma.MarketSim.Quoted.{Fitting, is_withdrawn, commands_of}
use high_frequency_market_ma.MarketSim.Withdraw.{run_sim-once, run_sim-withdraws}

abbrev pub clock : ℕ → ℕ
clock n = n

abbrev quiet : Round
quiet = record {
  mid_ticks = pos 10000;
  refreshed = [];
  commands = [];
  noise = none;
  publishes = false;
}

abbrev quoted : List Round
quoted = record quiet { commands = quote (pos 9998) 5 (pos 10002) 5 ∷ [] } ∷ []

abbrev pub quoted_and_cancelled : List Round
quoted_and_cancelled =
    record quiet { commands = quote (pos 9998) 5 (pos 10002) 5 ∷ [] }
    ∷ record quiet { commands = cancel_all ∷ [] }
    ∷ []

abbrev pub exchange_after : List Round → Exchange
exchange_after rs = (run_sim clock no_loss 20 3 1 (pos 10000) rs).exchange

-- The quote rests, on the bids here.
quoted-run : let x = exchange_after quoted in (x.reads ≡ 8) × (sum_by own (flat x.book.bids) ≡ 1)
unfolding run_sim steps step publish_resync refresh place_background submit_and_emit sum_qty
    submit_limit_order submit_loop best_level last_key cancel_existing first_key
    insert_resting_order push_order insert wrap_i64 ◌+ℤ◌ ◌-ℤ◌ emit emit_each get cancel_quotes
    handle_command handle_commands
quoted-run = (refl, refl)

pub cancelled-reads : (exchange_after quoted_and_cancelled).reads ≡ 10
unfolding run_sim steps step publish_resync refresh place_background submit_and_emit sum_qty
    submit_limit_order submit_loop best_level last_key cancel_existing first_key
    insert_resting_order push_order insert wrap_i64 ◌+ℤ◌ ◌-ℤ◌ emit emit_each get cancel_quotes
    handle_command handle_commands cancel_and_emit cancel_order position remove_at put_level remove
cancelled-reads = refl

pub cancelled-fits : All (λ r. All Fitting r.commands) quoted_and_cancelled
cancelled-fits = (((omega arith, omega arith), tt), ((tt, tt), tt))

run_sim-once_example :
    (sum_by own (flat (exchange_after quoted).book.bids) ≤ 1)
    × (sum_by own (flat (exchange_after quoted).book.asks) ≤ 1)
run_sim-once_example =
    run_sim-once clock no_loss 20 3 1 (pos 10000) quoted (omega arith)
      (((omega arith, omega arith), tt), tt) (omega (arith, quoted-run.0))

run_sim-withdraws_example :
    All (λ o. o.is_ours ≡ false) (flat (exchange_after quoted_and_cancelled).book.bids)
    × All (λ o. o.is_ours ≡ false) (flat (exchange_after quoted_and_cancelled).book.asks)
unfolding is_withdrawn commands_of
run_sim-withdraws_example =
    run_sim-withdraws clock no_loss 20 3 1 (pos 10000) quoted_and_cancelled (omega arith)
      cancelled-fits (omega (arith, cancelled-reads)) refl
