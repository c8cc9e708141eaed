-- ===== src/OrderBook/Priority.antt =====
-- The limit orders of engine/src/orderbook.rs against price-time priority.
use high_frequency_market_ma.Prelude.{
  ℕ, ◌≡◌, refl, Bool, List, [], ◌++◌, ltb, if◌then◌else◌, Bool-cases, inl, inr,
}
use high_frequency_market_ma.Types.{Price, Qty, OrderId, Side, bid, ask, opposite, Order}
use high_frequency_market_ma.OrderBook.{
  OrderBook, Levels, Sweep, book_of, set_book, crosses, submit_limit_order, insert_resting_order,
  push_order,
}
use high_frequency_market_ma.OrderBook.Mirror.{flat}
use high_frequency_market_ma.OrderBook.Ends.{priority}
use high_frequency_market_ma.OrderBook.Walk.{walk, Agrees}
use high_frequency_market_ma.OrderBook.Valid.{IsSide, IsValid}
use high_frequency_market_ma.OrderBook.Totals.{Falls}
use high_frequency_market_ma.OrderBook.Sides.{All-priority, Falls-priority}
use high_frequency_market_ma.OrderBook.Submit.{submitted, submitted-Agrees}
use high_frequency_market_ma.OrderBook.Orders.{
  IsPriority, walk-IsPriority, match_orders, within, beyond,
}

-- The orders that an order of side `side` meets, best price first, oldest first within a price.
abbrev pub resting_orders : Side → OrderBook → List Order
resting_orders side b = flat (priority side (book_of (opposite side) b))

pub Agrees-IsPriority :
    (side rs : Side) (ok : Price → Bool) (ts : ℕ) (m : Levels) (qty : Qty) (s : Sweep)
    → Agrees side [] (walk rs ok ts (priority side m) qty) s
    → IsSide rs m
    → Falls ok (priority side m)
    → IsPriority ok ts
        (flat (priority side m))
        qty
        s.fills
        (flat (priority side s.levels))
        s.remaining
Agrees-IsPriority side rs ok ts m qty s a v f =
    rw (a.fills, a.levels, a.remaining)
      (walk-IsPriority rs ok ts (priority side m) qty (All-priority _ side m v.levels) f)

pub book_of-set_book :
    (side : Side) (m : Levels) (b : OrderBook) → book_of side (set_book side m b) ≡ m
book_of-set_book bid m b = refl
book_of-set_book ask m b = refl

pub book_of-set_book-opposite :
    (side : Side) (m : Levels) (b : OrderBook)
    → book_of side (set_book (opposite side) m b) ≡ book_of side b
book_of-set_book-opposite bid m b = refl
book_of-set_book-opposite ask m b = refl

-- On a well-formed book, the fills of a limit order are those that price-time priority gives it
-- among the resting orders within its limit; what those orders are left with, and the orders
-- beyond the limit, stay in their places; and only the quantity that is left comes to rest on its
-- own side, as one new order.
pub submit_limit_order-priority :
    {b : OrderBook} (id : OrderId) (side : Side) (price : Price) (qty : Qty) (ts : ℕ) (ours : Bool)
    → IsValid b
    → let (b', fills) = submit_limit_order b id side price qty ts ours in
      let reach = crosses side price in
      let m = match_orders ts (within reach (resting_orders side b)) qty in
      (fills ≡ m.fills)
      × (resting_orders side b' ≡ m.queue ++ beyond reach (resting_orders side b))
      × (book_of side b' ≡ (
          if ltb 0 m.remaining
          then push_order
              (record {
                id = id;
                side = side;
                price = price;
                qty = m.remaining;
                ts_nanos = ts;
                is_ours = ours;
              })
              (book_of side b)
          else book_of side b))
unfolding submit_limit_order insert_resting_order
submit_limit_order-priority {b} id bid price qty ts ours v =
    let i =
      Agrees-IsPriority bid ask _ ts b.asks qty _ (submitted-Agrees bid price qty ts v) v.asks
        (Falls-priority bid price b.asks v.asks.sorted) in
    elim (Bool-cases (ltb 0 (submitted b bid price qty ts).remaining)) [
      | inl e ↦ rw e (i.fills_eq, i.left_eq, rw (← i.remaining_eq, e) refl)
      | inr e ↦ rw e (i.fills_eq, i.left_eq, rw (← i.remaining_eq, e) refl)
    ]
submit_limit_order-priority {b} id ask price qty ts ours v =
    let i =
      Agrees-IsPriority ask bid _ ts b.bids qty _ (submitted-Agrees ask price qty ts v) v.bids
        (Falls-priority ask price b.bids v.bids.sorted) in
    elim (Bool-cases (ltb 0 (submitted b ask price qty ts).remaining)) [
      | inl e ↦ rw e (i.fills_eq, i.left_eq, rw (← i.remaining_eq, e) refl)
      | inr e ↦ rw e (i.fills_eq, i.left_eq, rw (← i.remaining_eq, e) refl)
    ]
