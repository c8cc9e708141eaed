-- ===== src/OrderBook/Tests.antt =====
-- Runs of the order book of engine/src/orderbook.rs, some of them from its own tests, and the
-- theorems about it at a book of two levels on each side.
use high_frequency_market_ma.Prelude.{
  ℕ, ◌+◌, ◌-◌, ◌≢◌, ◌⊎◌, ◌≡◌, refl, Bool, true, false, [], ◌∷◌, ◌++◌, All, ltb, if◌then◌else◌,
  arith,
}
use high_frequency_market_ma.Prelude.Int.{pos}
use high_frequency_market_ma.TreeMap.{get, insert, remove, first_key, last_key}
use high_frequency_market_ma.Types.{Side, bid, ask, Order}
use high_frequency_market_ma.OrderBook.Mirror.{depth_snapshot}
use high_frequency_market_ma.OrderBook.Depth.{Shows, depth_snapshot-Shows}
use high_frequency_market_ma.OrderBook.{
  OrderBook, new, book_of, crosses, level_loop, visit_level, put_level, best_level, submit_loop,
  insert_resting_order, submit_limit_order, execute_market_order, push_order, cancel_order,
}
use high_frequency_market_ma.OrderBook.Mirror.{flat, export_resync, rebuild_from_resync}
use high_frequency_market_ma.OrderBook.Queues.{filled}
use high_frequency_market_ma.OrderBook.Valid.{IsValid, IsUncrossed}
use high_frequency_market_ma.OrderBook.Totals.{resting}
use high_frequency_market_ma.OrderBook.Submit.{
  submit_limit_order-IsValid, submit_limit_order-conserves,
}
use high_frequency_market_ma.OrderBook.Crossing.{submit_limit_order-IsUncrossed}
use high_frequency_market_ma.OrderBook.Orders.{match_orders, within, beyond}
use high_frequency_market_ma.OrderBook.Priority.{resting_orders, submit_limit_order-priority}
use high_frequency_market_ma.OrderBook.Market.{execute_market_order-priority}
use high_frequency_market_ma.OrderBook.Replay.{
  replay_fills, replay-submit_limit_order, replay-execute_market_order,
}
use high_frequency_market_ma.OrderBook.Resync.{restamp_book, rebuild_from_resync-export_resync}
use high_frequency_market_ma.OrderBook.Removed.{Removed, cancel_order-Removed}

abbrev order : ℕ → Side → ℕ → ℕ → Bool → Order
order id side price qty ours = record {
  id = id;
  side = side;
  price = pos price;
  qty = qty;
  ts_nanos = 0;
  is_ours = ours;
}

abbrev two_sided : OrderBook
two_sided = record {
  bids =
      (pos 9998, order 3 bid 9998 4 false ∷ [])
      ∷ (pos 9999, order 1 bid 9999 5 false ∷ order 6 bid 9999 2 true ∷ [])
      ∷ [];
  asks =
      (pos 10001, order 2 ask 10001 5 true ∷ [])
      ∷ (pos 10003, order 4 ask 10003 10 false ∷ [])
      ∷ [];
}

two_sided-IsValid : IsValid two_sided
two_sided-IsValid = ground arith

two_sided-IsUncrossed : IsUncrossed two_sided
two_sided-IsUncrossed = omega arith

-- `submit_limit_order_walks_multiple_crossing_levels_but_stops_at_the_limit_price`
walks_to_limit : (submit_limit_order two_sided 9 bid (pos 10002) 7 0 false).0 ≡ record two_sided {
  bids =
      (pos 9998, order 3 bid 9998 4 false ∷ [])
      ∷ (pos 9999, order 1 bid 9999 5 false ∷ order 6 bid 9999 2 true ∷ [])
      ∷ (pos 10002, order 9 bid 10002 2 false ∷ [])
      ∷ [];
  asks = (pos 10003, order 4 ask 10003 10 false ∷ []) ∷ [];
}
unfolding submit_limit_order submit_loop visit_level level_loop put_level best_level
    insert_resting_order push_order get insert remove first_key last_key
walks_to_limit = refl

submit_limit_order-IsValid_example :
    IsValid (submit_limit_order two_sided 9 bid (pos 10002) 7 0 false).0
submit_limit_order-IsValid_example =
    submit_limit_order-IsValid bid (pos 10002) 7 0 two_sided-IsValid 9 false

submit_limit_order-conserves_example :
    let (b', fills) = submit_limit_order two_sided 9 bid (pos 10002) 7 0 false in
    (filled fills + resting b'.asks ≡ 15) × (filled fills + resting b'.bids ≡ 18)
submit_limit_order-conserves_example =
    submit_limit_order-conserves 9 bid (pos 10002) 7 0 false two_sided-IsValid

submit_limit_order-IsUncrossed_example :
    IsUncrossed (submit_limit_order two_sided 9 ask (pos 9998) 20 0 false).0
submit_limit_order-IsUncrossed_example =
    submit_limit_order-IsUncrossed 9 ask (pos 9998) 20 0 false two_sided-IsValid
      two_sided-IsUncrossed

submit_limit_order-priority_example :
    let (b', fills) = submit_limit_order two_sided 9 ask (pos 9999) 20 0 false in
    let reach = crosses ask (pos 9999) in
    let m = match_orders 0 (within reach (resting_orders ask two_sided)) 20 in
    (fills ≡ m.fills)
    × (resting_orders ask b' ≡ m.queue ++ beyond reach (resting_orders ask two_sided))
    × (book_of ask b' ≡ (
        if ltb 0 m.remaining
        then push_order (record (order 9 ask 9999 0 false) { qty = m.remaining }) two_sided.asks
        else two_sided.asks))
submit_limit_order-priority_example =
    submit_limit_order-priority 9 ask (pos 9999) 20 0 false two_sided-IsValid

execute_market_order-priority_example :
    let (b', fills) = execute_market_order two_sided ask 6 0 in
    let m = match_orders 0 (resting_orders ask two_sided) 6 in
    (fills ≡ m.fills) × (resting_orders ask b' ≡ m.queue) × (b'.asks ≡ two_sided.asks)
execute_market_order-priority_example = execute_market_order-priority ask 6 0 two_sided-IsValid

replay-submit_limit_order_example :
    let (b', fills) = submit_limit_order two_sided 9 bid (pos 10002) 7 0 false in
    let traded = replay_fills fills two_sided in
    (if ltb (filled fills) 7
      then insert_resting_order traded 9 bid (pos 10002) (7 - filled fills) 0 false
      else traded)
    ≡ b'
replay-submit_limit_order_example =
    replay-submit_limit_order 9 bid (pos 10002) 7 0 false two_sided-IsValid

replay-execute_market_order_example :
    let (b', fills) = execute_market_order two_sided ask 6 0 in replay_fills fills two_sided ≡ b'
replay-execute_market_order_example = replay-execute_market_order ask 6 0 two_sided-IsValid

rebuild_from_resync-export_resync_example :
    rebuild_from_resync new (export_resync two_sided) 8 ≡ restamp_book 8 two_sided
rebuild_from_resync-export_resync_example =
    rebuild_from_resync-export_resync new 8 two_sided-IsValid

cancel_order-Removed_example :
    let (b', found) = cancel_order two_sided bid (pos 9999) 6 in
    (b'.asks ≡ two_sided.asks)
    × (((found ≡ true) × Removed (pos 9999) 6 (flat two_sided.bids) (flat b'.bids))
        ⊎ ((found ≡ false)
            × (b' ≡ two_sided)
            × All (λ o. o.price ≡ pos 9999 → o.id ≢ 6) (flat two_sided.bids)))
cancel_order-Removed_example = cancel_order-Removed bid (pos 9999) 6 two_sided-IsValid

depth_snapshot-Shows_example : Shows ask 5 two_sided.asks (depth_snapshot two_sided 5).1
depth_snapshot-Shows_example = depth_snapshot-Shows ask 5 two_sided-IsValid
