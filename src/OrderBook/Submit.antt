-- ===== src/OrderBook/Submit.antt =====
-- `submit_limit_order` of engine/src/orderbook.rs: what it keeps, what it fills and what it rests.
use high_frequency_market_ma.Prelude.{
  ℕ, suc, ◌+◌, ◌≤◌, ◌≡◌, ◌≢◌, refl, ap, ◌∙◌, Bool, false, [], length, All, ltb, Bool-cases, ltb→lt,
  ltb_false→le, inl, inr, arith,
}
use high_frequency_market_ma.TreeMap.Order.{IsSorted}
use high_frequency_market_ma.Types.{Price, Qty, OrderId, Side, bid, ask, opposite}
use high_frequency_market_ma.OrderBook.{
  OrderBook, Levels, Sweep, book_of, crosses, submit_loop, submit_limit_order, insert_resting_order,
}
use high_frequency_market_ma.OrderBook.Queues.{filled}
use high_frequency_market_ma.OrderBook.Ends.{priority}
use high_frequency_market_ma.OrderBook.Walk.{walk, Agrees, submit_loop_lem}
use high_frequency_market_ma.OrderBook.Valid.{
  IsSide, IsValid, IsValid-book_of, IsValid-set_book, insert_resting_order-IsValid,
}
use high_frequency_market_ma.OrderBook.Totals.{
  resting, Falls, filled-walk, All-walk, walk-IsLevel, walk-left, walk-fills, Accepted,
}
use high_frequency_market_ma.OrderBook.Sides.{
  All-priority, All-of_priority, resting-priority, resting-push_order, Falls-priority,
}

-- What a loop over the side opposite to an order leaves, in the terms of that side itself.
pub record IsSwept (rs : Side) (ok : Price → Bool) (m : Levels) (qty : Qty) (s : Sweep)
    : Type 0 where
  pub side : IsSide rs s.levels
  pub taken : filled s.fills + s.remaining ≡ qty
  pub left : filled s.fills + resting s.levels ≡ resting m
  pub accepted : All (Accepted rs ok) s.fills
  pub refused : s.remaining ≢ 0 → All (λ e. ok e.0 ≡ false) s.levels

module _ (side rs : Side) (ok : Price → Bool) (ts : ℕ) (m : Levels) (qty : Qty) (s : Sweep)
    (a : Agrees side [] (walk rs ok ts (priority side m) qty) s) where
  pub Agrees-IsSwept : IsSide rs m → Falls ok (priority side m) → IsSwept rs ok m qty s
  Agrees-IsSwept v f = record {
    side = record {
      sorted = a.sorted;
      levels =
          All-of_priority _ side s.levels
            (rw a.levels (walk-IsLevel rs ok ts _ qty (All-priority _ side m v.levels)));
    };
    taken = rw (a.fills, a.remaining) counts.0;
    left = omega (
      arith,
      counts.1,
      ap filled a.fills,
      ap resting a.levels,
      resting-priority side m,
      resting-priority side s.levels,
    );
    accepted = rw a.fills (walk-fills rs ok ts _ qty (All-priority _ side m v.levels));
    refused = λ n.
        All-of_priority _ side s.levels
          (rw a.levels (walk-left rs ok ts _ qty f (λ e. n (a.remaining ∙ e))));
  }
    where
      counts :
          let w = walk rs ok ts (priority side m) qty in
          (filled w.fills + w.remaining ≡ qty)
          × (filled w.fills + resting w.levels ≡ resting (priority side m))
      counts = filled-walk rs ok ts (priority side m) qty

  -- The prices that are left were there before.
  pub Agrees-prices : (Q : Price → Type 0) → All (λ e. Q e.0) m → All (λ e. Q e.0) s.levels
  Agrees-prices Q h = All-of_priority _ side s.levels (
      rw a.levels (All-walk rs ok ts (λ e. Q e.0) (λ p q r x e. x) _ qty (All-priority _ side m h)))

abbrev pub submitted : OrderBook → Side → Price → Qty → ℕ → Sweep
submitted b side price qty ts =
    let m = book_of (opposite side) b in
    submit_loop (suc (length m)) side price ts (record { levels = m; remaining = qty; fills = [] })

module _ {b : OrderBook} (side : Side) (price : Price) (qty : Qty) (ts : ℕ) (v : IsValid b) where
  pub submitted-Agrees :
      Agrees side []
        (walk
          (opposite side)
          (crosses side price)
          ts
          (priority side (book_of (opposite side) b))
          qty)
        (submitted b side price qty ts)
  submitted-Agrees =
      submit_loop_lem side ts price _ _ qty [] (omega arith)
        (IsValid-book_of (opposite side) v).sorted

  pub submitted-IsSwept :
      IsSwept
        (opposite side)
        (crosses side price)
        (book_of (opposite side) b)
        qty
        (submitted b side price qty ts)
  submitted-IsSwept =
      let opp = IsValid-book_of (opposite side) v in
      Agrees-IsSwept side _ _ ts _ qty _ submitted-Agrees opp
        (Falls-priority side price _ opp.sorted)

  module _ (id : OrderId) (ours : Bool) where
    -- A limit order leaves a well-formed book well formed: sorted levels, none empty, and
    -- orders of a positive quantity that know their side and price.
    pub submit_limit_order-IsValid : IsValid (submit_limit_order b id side price qty ts ours).0
    unfolding submit_limit_order
    submit_limit_order-IsValid =
        let s = submitted b side price qty ts in
        let v' = IsValid-set_book (opposite side) s.levels v submitted-IsSwept.side in
        elim (Bool-cases (ltb 0 s.remaining)) [
          | inl e ↦ rw e (insert_resting_order-IsValid _ id side price _ ts ours (ltb→lt _ _ e) v')
          | inr e ↦ rw e v'
        ]

    pub submit_limit_order-filled : filled (submit_limit_order b id side price qty ts ours).1 ≤ qty
    unfolding submit_limit_order
    submit_limit_order-filled = omega (arith, submitted-IsSwept.taken)

    -- On a well-formed book, every fill of a limit order is at a price within its limit, of a
    -- positive quantity, and with an order of the opposite side.
    pub submit_limit_order-Accepted :
        All
          (Accepted (opposite side) (crosses side price))
          (submit_limit_order b id side price qty ts ours).1
    unfolding submit_limit_order
    submit_limit_order-Accepted = submitted-IsSwept.accepted

-- An order that comes to rest adds its quantity to its own side, and leaves the other.
pub insert_resting_order-resting :
    (b : OrderBook) (id : OrderId) (side : Side) (price : Price) (qty : Qty) (ts : ℕ) (ours : Bool)
    → IsSorted (book_of side b)
    → let b' = insert_resting_order b id side price qty ts ours in
      (resting (book_of side b') ≡ resting (book_of side b) + qty)
      × (book_of (opposite side) b' ≡ book_of (opposite side) b)
unfolding insert_resting_order
insert_resting_order-resting b id bid price qty ts ours s = (resting-push_order _ b.bids s, refl)
insert_resting_order-resting b id ask price qty ts ours s = (resting-push_order _ b.asks s, refl)

-- On a well-formed book, what a limit order fills is what the opposite side loses, and with what
-- its own side gains makes up the quantity of the order.
pub submit_limit_order-conserves :
    {b : OrderBook} (id : OrderId) (side : Side) (price : Price) (qty : Qty) (ts : ℕ) (ours : Bool)
    → IsValid b
    → let (b', fills) = submit_limit_order b id side price qty ts ours in
      (filled fills + resting (book_of (opposite side) b') ≡ resting (book_of (opposite side) b))
      × (filled fills + resting (book_of side b') ≡ resting (book_of side b) + qty)
unfolding submit_limit_order
submit_limit_order-conserves {b} id bid price qty ts ours v =
    let s = submitted b bid price qty ts in
    let w = submitted-IsSwept bid price qty ts v in
    let r =
      insert_resting_order-resting (record b { asks = s.levels }) id bid price s.remaining ts ours
        v.bids.sorted in
    elim (Bool-cases (ltb 0 s.remaining)) [
      | inl e ↦ rw e (omega (arith, w.left, ap resting r.1), omega (arith, w.taken, r.0))
      | inr e ↦ rw e (w.left, omega (arith, w.taken, ltb_false→le _ _ e))
    ]
submit_limit_order-conserves {b} id ask price qty ts ours v =
    let s = submitted b ask price qty ts in
    let w = submitted-IsSwept ask price qty ts v in
    let r =
      insert_resting_order-resting (record b { bids = s.levels }) id ask price s.remaining ts ours
        v.asks.sorted in
    elim (Bool-cases (ltb 0 s.remaining)) [
      | inl e ↦ rw e (omega (arith, w.left, ap resting r.1), omega (arith, w.taken, r.0))
      | inr e ↦ rw e (w.left, omega (arith, w.taken, ltb_false→le _ _ e))
    ]
