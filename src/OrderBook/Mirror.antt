-- ===== src/OrderBook/Mirror.antt =====
-- engine/src/orderbook.rs: the trades that a mirrored book applies, and what it is shown or rebuilt from.
use high_frequency_market_ma.Prelude.{
  ℕ, zero, suc, ◌-◌, none, some, List, [], ◌∷◌, ◌++◌, map, reverse, take, leb, if◌then◌else◌,
}
use high_frequency_market_ma.Prelude.Word.{add_u64}
use high_frequency_market_ma.TreeMap.{get}
use high_frequency_market_ma.Types.{
  Price, Qty, OrderId, Side, bid, ask, Order, BookResync, ResyncEntry,
}
use high_frequency_market_ma.OrderBook.{
  OrderBook, Queue, Levels, book_of, set_book, position, put_level, insert_resting_order,
}

-- `if traded_qty >= queue[pos].qty { queue.remove(pos) } else { queue[pos].qty -= traded_qty }`
unfoldable pub trade_at : ℕ → Qty → Queue → Queue
trade_at i traded_qty [] = []
trade_at zero traded_qty (o ∷ q) =
    if leb o.qty traded_qty then q else record o { qty = o.qty - traded_qty } ∷ q
trade_at (suc i) traded_qty (o ∷ q) = o ∷ trade_at i traded_qty q

unfoldable pub trade_queue : OrderId → Qty → Queue → Queue
trade_queue id traded_qty queue = elim (position id queue) [
  | none ↦ queue
  | some pos ↦ trade_at pos traded_qty queue
]

unfoldable pub apply_trade : OrderBook → Side → Price → OrderId → Qty → OrderBook
apply_trade b side price id traded_qty = elim (get (book_of side b) price) [
  | none ↦ b
  | some queue ↦
      set_book side (put_level price (trade_queue id traded_qty queue) (book_of side b)) b
]

-- `q.iter().map(|o| o.qty).sum()`
unfoldable pub level_qty : Queue → Qty
level_qty [] = 0
level_qty (o ∷ q) = add_u64 o.qty (level_qty q)

abbrev pub level_total : Price × Queue → Price × Qty
level_total (p, q) = (p, level_qty q)

unfoldable pub depth_snapshot : OrderBook → ℕ → List (Price × Qty) × List (Price × Qty)
depth_snapshot b n_levels =
    (map level_total (take n_levels (reverse b.bids)), map level_total (take n_levels b.asks))

abbrev pub resync_entry : Order → ResyncEntry
resync_entry o = (o.id, o.price, o.qty, o.is_ours)

-- `values().flat_map(|q| q.iter())`: the orders level by level.
abbrev pub flat : Levels → List Order
flat [] = []
flat ((p, q) ∷ m) = q ++ flat m

unfoldable pub export_resync : OrderBook → BookResync
export_resync b = record {
  bids = map resync_entry (flat b.bids);
  asks = map resync_entry (flat b.asks);
  seq_at_snapshot = 0;
}

unfoldable pub insert_all : Side → ℕ → List ResyncEntry → OrderBook → OrderBook
insert_all side ts [] b = b
insert_all side ts ((id, price, qty, is_ours) ∷ es) b =
    insert_all side ts es (insert_resting_order b id side price qty ts is_ours)

-- The book before the call is cleared.
unfoldable pub rebuild_from_resync : OrderBook → BookResync → ℕ → OrderBook
rebuild_from_resync b resync ts_nanos =
    insert_all ask ts_nanos resync.asks
      (insert_all bid ts_nanos resync.bids (record b { bids = []; asks = [] }))
