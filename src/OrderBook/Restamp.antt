-- ===== src/OrderBook/Restamp.antt =====
-- The book of engine/src/orderbook.rs but for the times of its orders, and its changes on two
-- books that differ in these alone.
use mathlib.Core.Option
use high_frequency_market_ma.Prelude.{
  ℕ, zero, suc, ◌≡◌, refl, sym, ap, ap₂, ◌∙◌, Bool, Option, none, some, [], ◌∷◌, ◌++◌, map,
  map-append, is_empty, leb, Bool-cases, Option-cases, inl, inr,
}
use high_frequency_market_ma.Prelude.Int.{ltb_ℤ, eqb_ℤ}
use high_frequency_market_ma.TreeMap.{get, insert, remove}
use high_frequency_market_ma.Types.{Price, Qty, OrderId, Side, bid, ask, Order}
use high_frequency_market_ma.OrderBook.{
  OrderBook, Queue, Levels, book_of, set_book, push_order, insert_resting_order, put_level,
  position, remove_at, cancel_order,
}
use high_frequency_market_ma.OrderBook.Mirror.{trade_at, trade_queue, apply_trade}
use high_frequency_market_ma.OrderBook.Resync.{restamp, restamp_levels, restamp_book}

-- The calls, once the level and the place in it are known.
trade_queue-none :
    (id : OrderId) (n : Qty) (q : Queue) → position id q ≡ none → trade_queue id n q ≡ q
unfolding trade_queue
trade_queue-none id n q e = rw (trade_queue, e)

trade_queue-some :
    (id : OrderId) (n : Qty) (q : Queue) {i : ℕ}
    → position id q ≡ some i
    → trade_queue id n q ≡ trade_at i n q
unfolding trade_queue
trade_queue-some id n q e = rw (trade_queue, e)

module _ (b : OrderBook) (side : Side) (p : Price) (id : OrderId) where
  amend-none :
      (n : Qty)
      → get (book_of side b) p ≡ none
      → ((cancel_order b side p id).0 ≡ b) × (apply_trade b side p id n ≡ b)
  unfolding cancel_order apply_trade
  amend-none n e = (rw (cancel_order, e), rw (apply_trade, e))

  apply_trade-some :
      (n : Qty) {q : Queue}
      → get (book_of side b) p ≡ some q
      → apply_trade b side p id n
        ≡ set_book side (put_level p (trade_queue id n q) (book_of side b)) b
  unfolding apply_trade
  apply_trade-some n e = rw (apply_trade, e)

  cancel_order-none :
      {q : Queue}
      → get (book_of side b) p ≡ some q
      → position id q ≡ none
      → (cancel_order b side p id).0 ≡ b
  unfolding cancel_order
  cancel_order-none e f = rw (cancel_order, e, f)

  cancel_order-some :
      {q : Queue} {i : ℕ}
      → get (book_of side b) p ≡ some q
      → position id q ≡ some i
      → (cancel_order b side p id).0
        ≡ set_book side (put_level p (remove_at i q) (book_of side b)) b
  unfolding cancel_order
  cancel_order-some e f = rw (cancel_order, e, f)

module _ (t : ℕ) where
  abbrev stamp : Queue → Queue
  stamp = map (restamp t)

  get-restamp : (p : Price) (m : Levels) → get (restamp_levels t m) p ≡ Option.map stamp (get m p)
  unfolding get
  get-restamp p [] = refl
  get-restamp p ((j, q) ∷ m) = elim (Bool-cases (eqb_ℤ j p)) [
    | inl e ↦ rw e
    | inr e ↦ rw e (get-restamp p m)
  ]

  insert-restamp :
      (p : Price) (q : Queue) (m : Levels)
      → restamp_levels t (insert p q m) ≡ insert p (stamp q) (restamp_levels t m)
  unfolding insert
  insert-restamp p q [] = refl
  insert-restamp p q ((j, w) ∷ m) = elim (Bool-cases (ltb_ℤ p j)) [
    | inl e ↦ rw e
    | inr e ↦ elim (Bool-cases (eqb_ℤ j p)) [
      | inl f ↦ rw (e, f)
      | inr f ↦ rw (e, f) (ap (◌∷◌ (j, stamp w)) (insert-restamp p q m))
    ]
  ]

  remove-restamp :
      (p : Price) (m : Levels) → restamp_levels t (remove p m) ≡ remove p (restamp_levels t m)
  unfolding remove
  remove-restamp p [] = refl
  remove-restamp p ((j, w) ∷ m) = elim (Bool-cases (eqb_ℤ j p)) [
    | inl f ↦ rw f
    | inr f ↦ rw f (ap (◌∷◌ (j, stamp w)) (remove-restamp p m))
  ]

  is_empty-stamp : (q : Queue) → is_empty (stamp q) ≡ is_empty q
  is_empty-stamp [] = refl
  is_empty-stamp (o ∷ q) = refl

  put_level-restamp :
      (p : Price) (q : Queue) (m : Levels)
      → restamp_levels t (put_level p q m) ≡ put_level p (stamp q) (restamp_levels t m)
  unfolding put_level
  put_level-restamp p q m =
      rw (put_level, is_empty-stamp q)
        (elim (Bool-cases (is_empty q)) [
          | inl e ↦ rw e (remove-restamp p m)
          | inr e ↦ rw e (insert-restamp p q m)
        ])

  position-stamp : (id : OrderId) (q : Queue) → position id (stamp q) ≡ position id q
  unfolding position
  position-stamp id [] = refl
  position-stamp id (o ∷ q) = rw (position-stamp id q)

  remove_at-stamp : (i : ℕ) (q : Queue) → stamp (remove_at i q) ≡ remove_at i (stamp q)
  unfolding remove_at
  remove_at-stamp i [] = refl
  remove_at-stamp zero (o ∷ q) = refl
  remove_at-stamp (suc i) (o ∷ q) = ap (◌∷◌ (restamp t o)) (remove_at-stamp i q)

  trade_at-stamp : (i : ℕ) (n : Qty) (q : Queue) → stamp (trade_at i n q) ≡ trade_at i n (stamp q)
  unfolding trade_at
  trade_at-stamp i n [] = refl
  trade_at-stamp zero n (o ∷ q) = elim (Bool-cases (leb o.qty n)) [ inl e ↦ rw e | inr e ↦ rw e ]
  trade_at-stamp (suc i) n (o ∷ q) = ap (◌∷◌ (restamp t o)) (trade_at-stamp i n q)

  trade_queue-stamp :
      (id : OrderId) (n : Qty) (q : Queue) → stamp (trade_queue id n q) ≡ trade_queue id n (stamp q)
  trade_queue-stamp id n q = elim (Option-cases (position id q)) [
    | inl e ↦
        rw (trade_queue-none id n q e, trade_queue-none id n (stamp q) (position-stamp id q ∙ e))
    | inr (i, e) ↦
        rw (trade_queue-some id n q e, trade_queue-some id n (stamp q) (position-stamp id q ∙ e))
          (trade_at-stamp i n q)
  ]

  push_order-restamp :
      (o : Order) (m : Levels)
      → restamp_levels t (push_order o m) ≡ push_order (restamp t o) (restamp_levels t m)
  unfolding push_order
  push_order-restamp o m = elim (Option-cases (get m o.price)) [
    | inl e ↦ rw (get-restamp o.price m, e) (insert-restamp o.price (o ∷ []) m)
    | inr (q, e) ↦
        rw (get-restamp o.price m, e)
          (insert-restamp o.price (q ++ o ∷ []) m
            ∙ ap (λ z. insert o.price z (restamp_levels t m)) (map-append (restamp t) q (o ∷ [])))
  ]

  book_of-restamp :
      (side : Side) (b : OrderBook)
      → book_of side (restamp_book t b) ≡ restamp_levels t (book_of side b)
  book_of-restamp bid b = refl
  book_of-restamp ask b = refl

  set_book-restamp :
      (side : Side) (m : Levels) (b : OrderBook)
      → restamp_book t (set_book side m b) ≡ set_book side (restamp_levels t m) (restamp_book t b)
  set_book-restamp bid m b = refl
  set_book-restamp ask m b = refl

  pub insert_resting_order-restamp :
      (b : OrderBook) (id : OrderId) (side : Side) (p : Price) (q : Qty) (ts : ℕ) (ours : Bool)
      → restamp_book t (insert_resting_order b id side p q ts ours)
        ≡ insert_resting_order (restamp_book t b) id side p q t ours
  unfolding insert_resting_order
  insert_resting_order-restamp b id bid p q ts ours =
      ap (λ m. record { bids = m; asks = restamp_levels t b.asks }) (push_order-restamp _ b.bids)
  insert_resting_order-restamp b id ask p q ts ours =
      ap (λ m. record { bids = restamp_levels t b.bids; asks = m }) (push_order-restamp _ b.asks)

  -- The level that is written back.
  written :
      (side : Side) (p : Price) (q q' : Queue) (b : OrderBook)
      → stamp q ≡ q'
      → restamp_book t (set_book side (put_level p q (book_of side b)) b)
        ≡ set_book side (put_level p q' (book_of side (restamp_book t b))) (restamp_book t b)
  written side p q q' b e =
      set_book-restamp side _ b
      ∙ ap (λ m. set_book side m (restamp_book t b))
          (put_level-restamp p q (book_of side b)
            ∙ ap₂ (put_level p) e (sym (book_of-restamp side b)))

  module _ (b : OrderBook) (side : Side) (p : Price) (id : OrderId) where
    level :
        {o : Option Queue}
        → get (book_of side b) p ≡ o
        → get (book_of side (restamp_book t b)) p ≡ Option.map stamp o
    level e =
        ap (λ m. get m p) (book_of-restamp side b)
        ∙ get-restamp p (book_of side b)
        ∙ ap (Option.map stamp) e

    pub cancel_order-restamp :
        restamp_book t (cancel_order b side p id).0 ≡ (cancel_order (restamp_book t b) side p id).0
    cancel_order-restamp = elim (Option-cases (get (book_of side b) p)) [
      | inl n ↦
          ap (restamp_book t) (amend-none b side p id 0 n).0
          ∙ sym (amend-none (restamp_book t b) side p id 0 (level n)).0
      | inr (q, g) ↦ elim (Option-cases (position id q)) [
        | inl n ↦
            ap (restamp_book t) (cancel_order-none b side p id g n)
            ∙ sym
                (cancel_order-none (restamp_book t b) side p id (level g) (position-stamp id q ∙ n))
        | inr (i, e) ↦
            ap (restamp_book t) (cancel_order-some b side p id g e)
            ∙ written side p (remove_at i q) _ b (remove_at-stamp i q)
            ∙ sym
                (cancel_order-some (restamp_book t b) side p id (level g) (position-stamp id q ∙ e))
      ]
    ]

    pub apply_trade-restamp :
        (n : Qty)
        → restamp_book t (apply_trade b side p id n) ≡ apply_trade (restamp_book t b) side p id n
    apply_trade-restamp n = elim (Option-cases (get (book_of side b) p)) [
      | inl e ↦
          ap (restamp_book t) (amend-none b side p id n e).1
          ∙ sym (amend-none (restamp_book t b) side p id n (level e)).1
      | inr (q, g) ↦
          ap (restamp_book t) (apply_trade-some b side p id n g)
          ∙ written side p (trade_queue id n q) _ b (trade_queue-stamp id n q)
          ∙ sym (apply_trade-some (restamp_book t b) side p id n (level g))
    ]
