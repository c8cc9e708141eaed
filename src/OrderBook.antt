-- ===== src/OrderBook.antt =====
-- engine/src/orderbook.rs: the limit order book and its matching. A method that takes `&mut self`
-- returns the new book.
pub mod Queues
pub mod Ends
pub mod Walk
pub mod Valid
pub mod Totals
pub mod Sides
pub mod Submit
pub mod Crossing
pub mod Orders
pub mod Priority
pub mod Market
pub mod Replay
pub mod Resync
pub mod Restamp
pub mod Amend
pub mod Cancel
pub mod Removed
pub mod Depth
pub mod Marks
pub mod Mirror
mod Tests
use high_frequency_market_ma.Prelude.{
  ℕ, zero, suc, ◌-◌, min, Bool, true, false, none, some, List, [], ◌∷◌, ◌++◌, map, reverse, length,
  is_empty, ltb, ◌==◌, if◌then◌else◌, unwrap_or,
}
use mathlib.Core.Option
use mathlib.Core.Option.{Option}
use high_frequency_market_ma.Prelude.Int.{leb_ℤ, ◌+ℤ◌}
use high_frequency_market_ma.Prelude.Word.{wrap_i64}
use high_frequency_market_ma.Float.{Float}
use high_frequency_market_ma.TreeMap.{TreeMap, get, insert, remove, keys, first_key, last_key}
use high_frequency_market_ma.Types.{Price, Qty, OrderId, Side, bid, ask, opposite, Order, Fill}

abbrev pub Queue : Type 0
Queue = List Order

abbrev pub Levels : Type 0
Levels = TreeMap Queue

pub record OrderBook : Type 0 where
  pub bids : Levels
  pub asks : Levels

abbrev pub new : OrderBook
new = record { bids = []; asks = [] }

unfoldable pub best_bid : OrderBook → Option Price
best_bid b = last_key b.bids

unfoldable pub best_ask : OrderBook → Option Price
best_ask b = first_key b.asks

unfoldable pub mid_ticks {ℓ} : {F : Type ℓ} ⦃f : Float F⦄ → OrderBook → Option F
mid_ticks ⦃f⦄ b = elim (best_bid b) [
  | none ↦ none
  | some bb ↦
      Option.map (λ ba. f.div (f.of_int (wrap_i64 (bb +ℤ ba))) (f.literal 20 1)) (best_ask b)
]

-- `book_mut` hands out one side of the book: these read it, and write it back.
abbrev pub book_of : Side → OrderBook → Levels
book_of bid b = b.bids
book_of ask b = b.asks

abbrev pub set_book : Side → Levels → OrderBook → OrderBook
set_book bid m b = record b { bids = m }
set_book ask m b = record b { asks = m }

-- `entry(price).or_insert_with(VecDeque::new).push_back(order)`
unfoldable pub push_order : Order → Levels → Levels
push_order o m = insert o.price (unwrap_or (get m o.price) [] ++ o ∷ []) m

unfoldable pub insert_resting_order :
    OrderBook → OrderId → Side → Price → Qty → ℕ → Bool → OrderBook
insert_resting_order b id side price qty ts_nanos is_ours =
    set_book side (push_order order (book_of side b)) b
  where
    order : Order
    order = record {
      id = id;
      side = side;
      price = price;
      qty = qty;
      ts_nanos = ts_nanos;
      is_ours = is_ours;
    }

-- The queue of one price level, with what the order being matched still wants and the fills so far.
pub record Matched : Type 0 where
  pub queue : Queue
  pub remaining : Qty
  pub fills : List Fill

abbrev pub fill_of : Side → Price → ℕ → Order → Qty → Fill
fill_of resting_side level_price ts_nanos front traded = record {
  resting_order_id = front.id;
  resting_is_ours = front.is_ours;
  side_of_resting_order = resting_side;
  price = level_price;
  qty = traded;
  ts_nanos = ts_nanos;
}

-- `while remaining > 0 && !queue.is_empty()`, the loop over the queue of one level.
unfoldable pub level_loop : ℕ → Side → Price → ℕ → Queue → Qty → List Fill → Matched
level_loop zero side price ts queue remaining fills = record {
  queue = queue;
  remaining = remaining;
  fills = fills;
}
level_loop (suc fuel) side price ts [] remaining fills = record {
  queue = [];
  remaining = remaining;
  fills = fills;
}
level_loop (suc fuel) side price ts (front ∷ rest) remaining fills =
    let traded = min front.qty remaining in
    let left = record front { qty = front.qty - traded } in
    let again =
      level_loop fuel side price ts (if left.qty == 0 then rest else left ∷ rest)
        (remaining - traded) (fills ++ fill_of side price ts front traded ∷ []) in
    if ltb 0 remaining
    then again
    else record { queue = front ∷ rest; remaining = remaining; fills = fills }

-- Writing a level back: a level that has run empty is removed.
unfoldable pub put_level : Price → Queue → Levels → Levels
put_level price queue m = if is_empty queue then remove price m else insert price queue m

-- One side of the book, with what the order being matched still wants and the fills so far.
pub record Sweep : Type 0 where
  pub levels : Levels
  pub remaining : Qty
  pub fills : List Fill

-- `if let Some(queue) = book.get_mut(&level_price) { … }` and the removal after it. Each round of
-- the inner loop but the last takes an order off the queue.
unfoldable pub visit_level : Side → Price → ℕ → Sweep → Sweep
visit_level resting_side price ts s = elim (get s.levels price) [
  | none ↦ s
  | some queue ↦
      let m = level_loop (suc (length queue)) resting_side price ts queue s.remaining s.fills in
      record { levels = put_level price m.queue s.levels; remaining = m.remaining; fills = m.fills }
]

-- The best level that an order of side `side` meets: the lowest ask, or the highest bid.
unfoldable pub best_level : Side → Levels → Option Price
best_level bid m = first_key m
best_level ask m = last_key m

abbrev pub crosses : Side → Price → Price → Bool
crosses bid price level_price = leb_ℤ level_price price
crosses ask price level_price = leb_ℤ price level_price

-- The `loop` of `submit_limit_order`.
unfoldable pub submit_loop : ℕ → Side → Price → ℕ → Sweep → Sweep
submit_loop zero side price ts s = s
submit_loop (suc fuel) side price ts s =
    let next : Sweep = elim (best_level side s.levels) [
      | none ↦ s
      | some level_price ↦ elim (crosses side price level_price) [
        | true ↦ submit_loop fuel side price ts (visit_level (opposite side) level_price ts s)
        | false ↦ s
      ]
    ] in
    if s.remaining == 0 then s else next

-- Every round of the loop but the last removes a level, or leaves nothing to match.
unfoldable pub submit_limit_order :
    OrderBook → OrderId → Side → Price → Qty → ℕ → Bool → OrderBook × List Fill
submit_limit_order b id side price qty ts_nanos is_ours =
    let resting_side = opposite side in
    let levels = book_of resting_side b in
    let s =
      submit_loop (suc (length levels)) side price ts_nanos
        (record { levels = levels; remaining = qty; fills = [] }) in
    let b' = set_book resting_side s.levels b in
    (
      if ltb 0 s.remaining
          then insert_resting_order b' id side price s.remaining ts_nanos is_ours
          else b',
      s.fills,
    )

unfoldable pub position : OrderId → Queue → Option ℕ
position id [] = none
position id (o ∷ q) = if o.id == id then some 0 else Option.map suc (position id q)

-- `VecDeque::remove`
unfoldable pub remove_at : ℕ → Queue → Queue
remove_at i [] = []
remove_at zero (o ∷ q) = q
remove_at (suc i) (o ∷ q) = o ∷ remove_at i q

unfoldable pub cancel_order : OrderBook → Side → Price → OrderId → OrderBook × Bool
cancel_order b side price id = elim (get (book_of side b) price) [
  | none ↦ (b, false)
  | some queue ↦ elim (position id queue) [
    | none ↦ (b, false)
    | some pos ↦ (set_book side (put_level price (remove_at pos queue) (book_of side b)) b, true)
  ]
]

unfoldable pub market_loop : List Price → Side → ℕ → Sweep → Sweep
market_loop [] resting_side ts s = s
market_loop (price ∷ prices) resting_side ts s =
    let next = market_loop prices resting_side ts (visit_level resting_side price ts s) in
    if s.remaining == 0 then s else next

abbrev pub price_levels : Side → Levels → List Price
price_levels bid m = keys m
price_levels ask m = reverse (keys m)

unfoldable pub execute_market_order : OrderBook → Side → Qty → ℕ → OrderBook × List Fill
execute_market_order b aggressor_side qty ts_nanos =
    let resting_side = opposite aggressor_side in
    let levels = book_of resting_side b in
    let s =
      market_loop (price_levels aggressor_side levels) resting_side ts_nanos
        (record { levels = levels; remaining = qty; fills = [] }) in
    (set_book resting_side s.levels b, s.fills)
