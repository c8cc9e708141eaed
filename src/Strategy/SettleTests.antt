-- ===== src/Strategy/SettleTests.antt =====
-- What the strategy of engine/src/main.rs books of two trades of its own, and a pass in which its quote
-- has come to rest.
use high_frequency_market_ma.Prelude.{◌≡◌, refl, ◌↔◌, true, false, none, List, [], ◌∷◌}
use high_frequency_market_ma.Prelude.Int.{ℤ, pos, ◌+ℤ◌, ◌-ℤ◌}
use high_frequency_market_ma.Prelude.Word.{wrap_i64}
use high_frequency_market_ma.TreeMap.{get, insert, first_key, last_key}
use high_frequency_market_ma.Float.Whole.{whole}
use high_frequency_market_ma.Types.{bid, ask, SeqEvent, add, trade}
use high_frequency_market_ma.OrderBook.{
  mid_ticks, best_bid, best_ask, insert_resting_order, push_order,
}
use high_frequency_market_ma.Risk.{compute_risk, evaluate, std_normal_pdf}
use high_frequency_market_ma.Quoting.{update_vol, ewma_after, next_var}
use high_frequency_market_ma.Strategy.{
  Pass, pass, drain, apply_event, apply_to_book, price_to_ticks,
}
use high_frequency_market_ma.Strategy.Publish.{kill_of, quote_of}
use high_frequency_market_ma.Strategy.Settle.{
  Settled, any_rested, last_price, drain-Settled, pass-requotes,
}
use high_frequency_market_ma.Strategy.Tests.{first_strategy, quiet_pass}

abbrev own_events : List SeqEvent
own_events =
    record { seq = 1; event = add 7 bid (pos 9999) 5 0 true }
    ∷ record { seq = 2; event = add 8 ask (pos 10001) 5 0 true }
    ∷ []

abbrev own_trades : List SeqEvent
own_trades =
    record { seq = 3; event = trade 7 true bid (pos 9999) 5 0 }
    ∷ record { seq = 4; event = trade 6 false bid (pos 9998) 5 0 }
    ∷ record { seq = 5; event = trade 8 true ask (pos 10001) 3 0 }
    ∷ []

drain-Settled_example :
    Settled own_trades first_strategy.shadow (drain first_strategy.shadow own_trades)
drain-Settled_example = drain-Settled own_trades first_strategy.shadow

abbrev quoted_pass : Pass ℤ
quoted_pass = record quiet_pass { popped = own_events }

quoted_pass-lives : kill_of first_strategy quoted_pass ≡ none
unfolding drain apply_event apply_to_book insert_resting_order push_order insert get update_vol
    ewma_after next_var compute_risk evaluate mid_ticks wrap_i64 best_bid best_ask first_key
    last_key ◌+ℤ◌ ◌-ℤ◌ std_normal_pdf
quoted_pass-lives = refl

pass-requotes_example : ((pass first_strategy quoted_pass).1 ≡ none) ↔ (
    (any_rested false own_events ≡ true)
    × (last_price bid (pos 0) own_events ≡ price_to_ticks (quote_of first_strategy quoted_pass).bid)
    × (last_price ask (pos 0) own_events
        ≡ price_to_ticks (quote_of first_strategy quoted_pass).ask))
pass-requotes_example = pass-requotes first_strategy quoted_pass refl quoted_pass-lives
