-- ===== src/OrderBook/Marks.antt =====
-- What the operations of engine/src/orderbook.rs do to a count of the resting orders that does not
-- depend on their quantities.
use high_frequency_market_ma.Prelude.{
  ℕ, ◌+◌, ◌-◌, ◌≤◌, ◌≡◌, refl, ap, ◌∙◌, Bool, true, false, List, [], ◌∷◌, ltb, if◌then◌else◌,
  Bool-cases, inl, inr, sum_by, sum_by-append, arith,
}
use high_frequency_market_ma.Types.{Price, Qty, OrderId, Side, opposite, Order}
use high_frequency_market_ma.OrderBook.{
  OrderBook, book_of, crosses, submit_limit_order, execute_market_order, cancel_order,
}
use high_frequency_market_ma.OrderBook.Mirror.{flat}
use high_frequency_market_ma.OrderBook.Queues.{filled}
use high_frequency_market_ma.OrderBook.Valid.{IsValid, IsValid-book_of}
use high_frequency_market_ma.OrderBook.Orders.{match_orders, within, beyond}
use high_frequency_market_ma.OrderBook.Sides.{sum_flat-priority, sum_flat-push_order}
use high_frequency_market_ma.OrderBook.Priority.{submit_limit_order-priority, resting_orders}
use high_frequency_market_ma.OrderBook.Market.{execute_market_order-priority}
use high_frequency_market_ma.OrderBook.Removed.{cancel_order-Removed}

-- A weight of an order that does not look at its quantity.
abbrev pub Blind : (Order → ℕ) → Type 0
Blind w = (o : Order) (qty : Qty) → w (record o { qty = qty }) ≡ w o

abbrev pub tally : (Order → ℕ) → Side → OrderBook → ℕ
tally w side b = sum_by w (flat (book_of side b))

-- A limit order as it comes in.
abbrev pub entering : OrderId → Side → Price → Qty → ℕ → Bool → Order
entering id side price qty ts ours = record {
  id = id;
  side = side;
  price = price;
  qty = qty;
  ts_nanos = ts;
  is_ours = ours;
}

match_orders-filled :
    (ts : ℕ) (os : List Order) (r : Qty)
    → let m = match_orders ts os r in filled m.fills + m.remaining ≡ r
unfolding match_orders
match_orders-filled ts [] r = omega arith
match_orders-filled ts (o ∷ os) r = ground (arith, match_orders-filled ts os (r - o.qty))

module _ (w : Order → ℕ) (blind : Blind w) where
  match_orders-tally :
      (ts : ℕ) (os : List Order) (r : Qty) → sum_by w (match_orders ts os r).queue ≤ sum_by w os
  unfolding match_orders
  match_orders-tally ts [] r = omega arith
  match_orders-tally ts (o ∷ os) r =
      ground (arith, match_orders-tally ts os (r - o.qty), blind o (o.qty - r))

  split-tally :
      (ok : Price → Bool) (os : List Order)
      → sum_by w (within ok os) + sum_by w (beyond ok os) ≡ sum_by w os
  unfolding within beyond
  split-tally ok [] = refl
  split-tally ok (o ∷ os) = elim (Bool-cases (ok o.price)) [
    | inl c ↦ rw c (omega (arith, split-tally ok os))
    | inr c ↦ rw c (omega (arith, split-tally ok os))
  ]

  module _ {b : OrderBook} (v : IsValid b) where
    -- A market order.
    pub execute_market_order-tally_own :
        (side : Side) (qty : Qty) (ts : ℕ)
        → tally w side (execute_market_order b side qty ts).0 ≡ tally w side b
    execute_market_order-tally_own side qty ts =
        ap (λ m. sum_by w (flat m)) (execute_market_order-priority side qty ts v).2

    pub execute_market_order-tally_met :
        (side : Side) (qty : Qty) (ts : ℕ)
        → tally w (opposite side) (execute_market_order b side qty ts).0 ≤ tally w (opposite side) b
    execute_market_order-tally_met side qty ts =
        let b' = (execute_market_order b side qty ts).0 in
        omega (
          arith,
          sum_flat-priority w side (book_of (opposite side) b),
          sum_flat-priority w side (book_of (opposite side) b'),
          ap (sum_by w) (execute_market_order-priority side qty ts v).1,
          match_orders-tally ts (resting_orders side b) qty,
        )

    -- A limit order. What of it comes to rest is one order more on its own side.
    pub submit_limit_order-tally_met :
        (id : OrderId) (side : Side) (price : Price) (qty : Qty) (ts : ℕ) (ours : Bool)
        → tally w (opposite side) (submit_limit_order b id side price qty ts ours).0
          ≤ tally w (opposite side) b
    submit_limit_order-tally_met id side price qty ts ours =
        let b' = (submit_limit_order b id side price qty ts ours).0 in
        let os = resting_orders side b in
        let ok = crosses side price in
        let left = (match_orders ts (within ok os) qty).queue in
        omega (
          arith,
          sum_flat-priority w side (book_of (opposite side) b),
          sum_flat-priority w side (book_of (opposite side) b'),
          ap (sum_by w) (submit_limit_order-priority id side price qty ts ours v).1,
          sum_by-append w left (beyond ok os),
          match_orders-tally ts (within ok os) qty,
          split-tally ok os,
        )

    pub submit_limit_order-tally_own :
        (id : OrderId) (side : Side) (price : Price) (qty : Qty) (ts : ℕ) (ours : Bool)
        → let (b', fills) = submit_limit_order b id side price qty ts ours in
          tally w side b'
          ≡ tally w side b
            + (if ltb (filled fills) qty then w (entering id side price qty ts ours) else 0)
    submit_limit_order-tally_own id side price qty ts ours =
        let m = match_orders ts (within (crosses side price) (resting_orders side b)) qty in
        let (same, _, own) = submit_limit_order-priority id side price qty ts ours v in
        let sum : filled m.fills + m.remaining ≡ qty = match_orders-filled ts _ qty in
        rw (same, own)
          (elim (Bool-cases (ltb 0 m.remaining)) [
            | inl c ↦
                let rests : ltb (filled m.fills) qty ≡ true = ground (arith, sum, c) in
                rw (c, rests)
                  (sum_flat-push_order w _ (book_of side b) (IsValid-book_of side v).sorted
                    ∙ ap (λ n. tally w side b + n)
                        (blind (entering id side price qty ts ours) m.remaining))
            | inr c ↦
                let gone : ltb (filled m.fills) qty ≡ false = ground (arith, sum, c) in
                rw (c, gone) (omega arith)
          ])

    -- A cancellation.
    pub cancel_order-tally_other :
        (side : Side) (price : Price) (id : OrderId)
        → tally w (opposite side) (cancel_order b side price id).0 ≡ tally w (opposite side) b
    cancel_order-tally_other side price id =
        ap (λ m. sum_by w (flat m)) (cancel_order-Removed side price id v).0

    pub cancel_order-tally_own :
        (side : Side) (price : Price) (id : OrderId)
        → tally w side (cancel_order b side price id).0 ≤ tally w side b
    cancel_order-tally_own side price id = elim ((cancel_order-Removed side price id v).1) [
      | inl (_, r) ↦ omega (
        arith,
        ap (sum_by w) r.split,
        ap (sum_by w) r.left,
        sum_by-append w r.before (r.order ∷ r.after),
        sum_by-append w r.before r.after,
      )
      | inr (_, kept, _) ↦ omega (arith, ap (tally w side) kept)
    ]
