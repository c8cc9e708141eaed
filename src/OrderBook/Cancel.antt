-- ===== src/OrderBook/Cancel.antt =====
-- `cancel_order` and `apply_trade` of engine/src/orderbook.rs: the invariants of the book they
-- amend.
use high_frequency_market_ma.Prelude.{
  ◌≡◌, inl, inr, some, is_empty, All, All-map, Bool-cases, Option-cases,
}
use high_frequency_market_ma.Prelude.Int.{◌<ℤ◌}
use high_frequency_market_ma.TreeMap.{get}
use high_frequency_market_ma.TreeMap.Order.{IsSorted, Above, All-insert, All-remove}
use high_frequency_market_ma.Types.{Price, Qty, OrderId, Side, bid, ask}
use high_frequency_market_ma.OrderBook.{
  OrderBook, Queue, Levels, book_of, set_book, put_level, position, cancel_order,
}
use high_frequency_market_ma.OrderBook.Mirror.{trade_queue, apply_trade}
use high_frequency_market_ma.OrderBook.Valid.{
  IsOrder, IsLevel, IsValid, IsUncrossed, IsValid-book_of, IsValid-set_book, All-get,
  put_level-IsSide,
}
use high_frequency_market_ma.OrderBook.Amend.{All-remove_at, trade_at-IsOrder}

-- Writing a level that is there back leaves a condition on the prices as it is.
All-put_level :
    (Q : Price → Type 0) (p : Price) (q' : Queue) (m : Levels) {q : Queue}
    → IsSorted m
    → get m p ≡ some q
    → All (λ e. Q e.0) m
    → All (λ e. Q e.0) (put_level p q' m)
unfolding put_level
All-put_level Q p q' m s g h = elim (Bool-cases (is_empty q')) [
  | inl e ↦ rw e (All-remove (λ e. Q e.0) p m h)
  | inr e ↦ rw e (All-insert (λ e. Q e.0) p q' m (All-get (λ e. Q e.0) p m s h g) h)
]

-- The book with one level written back.
module _ {b : OrderBook} (side : Side) (p : Price) (q' : Queue) {q : Queue}
    (g : get (book_of side b) p ≡ some q) (v : IsValid b) where
  amended-IsValid :
      All (IsOrder side p) q' → IsValid (set_book side (put_level p q' (book_of side b)) b)
  amended-IsValid h =
      IsValid-set_book side _ v (put_level-IsSide side p q' _ h (IsValid-book_of side v))

  amended-orders : All (IsOrder side p) q
  amended-orders =
      let s = IsValid-book_of side v in (All-get (IsLevel side) p _ s.sorted s.levels g).orders

amended-IsUncrossed :
    {b : OrderBook} (side : Side) (p : Price) (q' : Queue) {q : Queue}
    → get (book_of side b) p ≡ some q
    → IsValid b
    → IsUncrossed b
    → IsUncrossed (set_book side (put_level p q' (book_of side b)) b)
amended-IsUncrossed {b} bid p q' g v u =
    All-put_level (λ k. Above k b.asks) p q' b.bids v.bids.sorted g u
amended-IsUncrossed {b} ask p q' g v u =
    All-map _ _ b.bids (λ e a. All-put_level (λ k. e.0 <ℤ k) p q' b.asks v.asks.sorted g a) u

module _ {b : OrderBook} (side : Side) (price : Price) (id : OrderId) (v : IsValid b) where
  -- A cancellation leaves a well-formed book well formed.
  pub cancel_order-IsValid : IsValid (cancel_order b side price id).0
  unfolding cancel_order
  cancel_order-IsValid = elim (Option-cases (get (book_of side b) price)) [
    | inl n ↦ rw (cancel_order, n) v
    | inr (q, g) ↦
        rw (cancel_order, g)
          (elim (Option-cases (position id q)) [
            | inl n ↦ rw n v
            | inr (i, e) ↦ rw e (
                amended-IsValid side price _ g v
                  (All-remove_at _ i q (amended-orders side price q g v)))
          ])
  ]

  -- A cancellation leaves every bid below every ask in a well-formed book where this is so.
  pub cancel_order-IsUncrossed : IsUncrossed b → IsUncrossed (cancel_order b side price id).0
  unfolding cancel_order
  cancel_order-IsUncrossed u = elim (Option-cases (get (book_of side b) price)) [
    | inl n ↦ rw (cancel_order, n) u
    | inr (q, g) ↦
        rw (cancel_order, g)
          (elim (Option-cases (position id q)) [
            | inl n ↦ rw n u
            | inr (i, e) ↦ rw e (amended-IsUncrossed side price _ g v u)
          ])
  ]

  trade_queue-IsOrder :
      (n : Qty) (q : Queue)
      → All (IsOrder side price) q
      → All (IsOrder side price) (trade_queue id n q)
  unfolding trade_queue
  trade_queue-IsOrder n q h = elim (Option-cases (position id q)) [
    | inl e ↦ rw (trade_queue, e) h
    | inr (i, e) ↦ rw (trade_queue, e) (trade_at-IsOrder side price i n q h)
  ]

  -- A trade that is applied to a well-formed book in which every bid is below every ask leaves
  -- both so.
  pub apply_trade-IsValid :
      (n : Qty)
      → IsUncrossed b
      → IsValid (apply_trade b side price id n) × IsUncrossed (apply_trade b side price id n)
  unfolding apply_trade
  apply_trade-IsValid n u = elim (Option-cases (get (book_of side b) price)) [
    | inl e ↦ rw (apply_trade, e) (v, u)
    | inr (q, g) ↦
        rw (apply_trade, g)
          (
            amended-IsValid side price _ g v
                (trade_queue-IsOrder n q (amended-orders side price q g v)),
            amended-IsUncrossed side price _ g v u,
          )
  ]
