-- ===== src/MarketSim/Tests.antt =====
-- Runs of the exchange of engine/src/market_sim.rs, and the theorems about it at two rounds with a
-- quote, a noise order and a cancellation.
use high_frequency_market_ma.Prelude.{
  ℕ, Bool, true, false, some, none, List, [], ◌∷◌, All, arith, ltb,
}
use high_frequency_market_ma.Prelude.Int.{pos, ◌<ℤ◌}
use high_frequency_market_ma.Types.{bid, ask, Order, quote, cancel_all}
use high_frequency_market_ma.OrderBook.{OrderBook, submit_limit_order}
use high_frequency_market_ma.OrderBook.Valid.{IsValid}
use high_frequency_market_ma.MarketSim.{Round, run_sim, safe_ask_price}
use high_frequency_market_ma.MarketSim.Safe.{IsSafe, run_sim-IsSafe, safe_ask_price-Accepted}

abbrev clock : ℕ → ℕ
clock n = n

abbrev third_lost : ℕ → Bool
third_lost seq = ltb 1 seq

abbrev two_rounds : List Round
two_rounds =
    record {
      mid_ticks = pos 10001;
      refreshed = (true, false) ∷ [];
      commands = quote (pos 10001) 5 (pos 10001) 5 ∷ [];
      noise = some bid;
      publishes = true;
    }
    ∷ record {
      mid_ticks = pos 10000;
      refreshed = (false, true) ∷ [];
      commands = cancel_all ∷ [];
      noise = none;
      publishes = false;
    }
    ∷ []

run_sim-IsSafe_example : IsSafe (run_sim clock third_lost 20 3 1 (pos 10000) two_rounds).exchange
run_sim-IsSafe_example = run_sim-IsSafe clock third_lost 20 3 1 (pos 10000) two_rounds

abbrev one_bid : Order
one_bid = record { id = 1; side = bid; price = pos 10001; qty = 5; ts_nanos = 0; is_ours = true }

abbrev one_bid_book : OrderBook
one_bid_book = record { bids = (pos 10001, one_bid ∷ []) ∷ []; asks = [] }

one_bid_book-IsValid : IsValid one_bid_book
one_bid_book-IsValid = ground arith

safe_ask_price-Accepted_example :
    All
      (λ f. pos 10001 <ℤ f.price)
      (submit_limit_order one_bid_book 2 ask (safe_ask_price (pos 10001) (pos 10001)) 5 0 true).1
safe_ask_price-Accepted_example =
    safe_ask_price-Accepted 2 (pos 10001) (pos 10001) 5 0 (omega arith) (omega arith)
      one_bid_book-IsValid
