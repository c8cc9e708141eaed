-- ===== src/OrderBook/Market.antt =====
-- `execute_market_order` of engine/src/orderbook.rs against the opposite side's orders.
use high_frequency_market_ma.Prelude.{
  ℕ, ◌≡◌, refl, ◌∙◌, ap, subst, true, List, [], ◌∷◌, length, All-map, append-nil, arith,
}
use high_frequency_market_ma.Prelude.Int.{◌<ℤ◌}
use high_frequency_market_ma.TreeMap.Order.{Above}
use high_frequency_market_ma.Types.{Qty, Side, bid, ask, opposite, Order}
use high_frequency_market_ma.OrderBook.{
  OrderBook, Sweep, book_of, price_levels, market_loop, execute_market_order,
}
use high_frequency_market_ma.OrderBook.Ends.{priority}
use high_frequency_market_ma.OrderBook.Walk.{walk, Agrees, market_loop_lem}
use high_frequency_market_ma.OrderBook.Valid.{
  IsValid, IsUncrossed, IsValid-book_of, IsValid-set_book,
}
use high_frequency_market_ma.OrderBook.Sides.{Falls-always}
use high_frequency_market_ma.OrderBook.Submit.{IsSwept, Agrees-IsSwept, Agrees-prices}
use high_frequency_market_ma.OrderBook.Orders.{match_orders, within, beyond}
use high_frequency_market_ma.OrderBook.Priority.{
  resting_orders, Agrees-IsPriority, book_of-set_book, book_of-set_book-opposite,
}

within_always : (os : List Order) → (within (λ _. true) os ≡ os) × (beyond (λ _. true) os ≡ [])
unfolding within beyond
within_always [] = (refl, refl)
within_always (o ∷ os) = (ap (◌∷◌ o) (within_always os).0, (within_always os).1)

abbrev pub executed : OrderBook → Side → Qty → ℕ → Sweep
executed b side qty ts =
    let m = book_of (opposite side) b in
    market_loop (price_levels side m) (opposite side) ts
      (record { levels = m; remaining = qty; fills = [] })

module _ {b : OrderBook} (side : Side) (qty : Qty) (ts : ℕ) (v : IsValid b) where
  pub executed-Agrees :
      Agrees side []
        (walk (opposite side) (λ _. true) ts (priority side (book_of (opposite side) b)) qty)
        (executed b side qty ts)
  executed-Agrees =
      market_loop_lem side ts (length (book_of (opposite side) b)) _ qty [] (omega arith)
        (IsValid-book_of (opposite side) v).sorted

  pub executed-IsSwept :
      IsSwept (opposite side) (λ _. true) (book_of (opposite side) b) qty (executed b side qty ts)
  executed-IsSwept =
      Agrees-IsSwept side _ _ ts _ qty _ executed-Agrees (IsValid-book_of (opposite side) v)
        (Falls-always _)

  -- On a well-formed book, a market order takes from the front of the opposite side's orders in
  -- their priority, whatever their price, leaves the rest of them in their order, and leaves
  -- its own side as it is.
  pub execute_market_order-priority :
      let (b', fills) = execute_market_order b side qty ts in
      let m = match_orders ts (resting_orders side b) qty in
      (fills ≡ m.fills) × (resting_orders side b' ≡ m.queue) × (book_of side b' ≡ book_of side b)
  unfolding execute_market_order
  execute_market_order-priority =
      let i =
        Agrees-IsPriority side (opposite side) _ ts _ qty _ executed-Agrees
          (IsValid-book_of (opposite side) v) (Falls-always _) in
      let (w, e) = within_always (resting_orders side b) in
      (
        subst (λ os. (executed b side qty ts).fills ≡ (match_orders ts os qty).fills) w i.fills_eq,
        rw (book_of-set_book (opposite side) (executed b side qty ts).levels b)
            ((rw (w, e) at i.left_eq) ∙ append-nil _),
        book_of-set_book-opposite side _ b,
      )

  -- A market order leaves a well-formed book well formed.
  pub execute_market_order-IsValid : IsValid (execute_market_order b side qty ts).0
  unfolding execute_market_order
  execute_market_order-IsValid =
      IsValid-set_book (opposite side) (executed b side qty ts).levels v executed-IsSwept.side

-- A market order leaves every bid below every ask in a well-formed book where this is so.
pub execute_market_order-IsUncrossed :
    {b : OrderBook} (side : Side) (qty : Qty) (ts : ℕ)
    → IsValid b
    → IsUncrossed b
    → IsUncrossed (execute_market_order b side qty ts).0
unfolding execute_market_order
execute_market_order-IsUncrossed {b} bid qty ts v u =
    All-map _ _ b.bids
      (λ e a. Agrees-prices bid _ _ ts _ qty _ (executed-Agrees bid qty ts v) (λ p. e.0 <ℤ p) a) u
execute_market_order-IsUncrossed {b} ask qty ts v u =
    Agrees-prices ask _ _ ts _ qty _ (executed-Agrees ask qty ts v) (λ p. Above p b.asks) u
