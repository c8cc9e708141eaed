-- ===== src/OrderBook/Valid.antt =====
-- The invariant of the book: sorted levels, no empty level, and orders that know where they rest.
use high_frequency_market_ma.Prelude.{
  ℕ, ◌<◌, ◌≡◌, refl, inl, inr, false, some, Bool, [], ◌∷◌, ◌++◌, is_empty, All, All-append,
  All-append_right, Bool-cases, unwrap_or, Option-cases, subst,
}
use high_frequency_market_ma.TreeMap.{get}
use high_frequency_market_ma.TreeMap.Order.{
  IsSorted, Above, get-split, insert-IsSorted, remove-IsSorted, All-insert, All-remove,
}
use high_frequency_market_ma.Types.{Price, Qty, OrderId, Side, bid, ask, Order}
use high_frequency_market_ma.OrderBook.{
  OrderBook, Queue, Levels, book_of, set_book, push_order, insert_resting_order, put_level,
}
use high_frequency_market_ma.OrderBook.Ends.{Level}

pub record IsOrder (side : Side) (price : Price) (o : Order) : Type 0 where
  pub side_eq : o.side ≡ side
  pub price_eq : o.price ≡ price
  pub qty_pos : 0 < o.qty

pub record IsLevel (side : Side) (e : Level) : Type 0 where
  pub filled : is_empty e.1 ≡ false
  pub orders : All (IsOrder side e.0) e.1

pub record IsSide (side : Side) (m : Levels) : Type 0 where
  pub sorted : IsSorted m
  pub levels : All (IsLevel side) m

pub record IsValid (b : OrderBook) : Type 0 where
  pub bids : IsSide bid b.bids
  pub asks : IsSide ask b.asks

-- No bid is at or above an ask.
abbrev pub IsUncrossed : OrderBook → Type 0
IsUncrossed b = All (λ e. Above e.0 b.asks) b.bids

pub IsValid-book_of : (side : Side) {b : OrderBook} → IsValid b → IsSide side (book_of side b)
IsValid-book_of bid v = v.bids
IsValid-book_of ask v = v.asks

pub IsValid-set_book :
    (side : Side) (m : Levels) {b : OrderBook}
    → IsValid b
    → IsSide side m
    → IsValid (set_book side m b)
IsValid-set_book bid m v s = record { bids = s; asks = v.asks }
IsValid-set_book ask m v s = record { bids = v.bids; asks = s }

-- What holds of every level holds of a level that is found.
pub All-get {κ} :
    (P : Level → Type κ) (p : Price) (m : Levels) {q : Queue}
    → IsSorted m
    → All P m
    → get m p ≡ some q
    → P (p, q)
All-get P p m s h e =
    let (xs, ys, split, _) = get-split p m s e in
    (All-append_right P xs ((p, _) ∷ ys) (subst (All P) split h)).0

is_empty-snoc : (q : Queue) (o : Order) → is_empty (q ++ o ∷ []) ≡ false
is_empty-snoc [] o = refl
is_empty-snoc (x ∷ q) o = refl

pub push_order-IsSide :
    (side : Side) (o : Order) (m : Levels)
    → IsOrder side o.price o
    → IsSide side m
    → IsSide side (push_order o m)
unfolding push_order
push_order-IsSide side o m ok s = record {
  sorted = insert-IsSorted o.price _ m s.sorted;
  levels = All-insert (IsLevel side) o.price _ m level s.levels;
}
  where
    old : All (IsOrder side o.price) (unwrap_or (get m o.price) [])
    old = elim (Option-cases (get m o.price)) [
      | inl e ↦ rw e tt
      | inr (q, e) ↦ rw e (All-get (IsLevel side) o.price m s.sorted s.levels e).orders
    ]

    level : IsLevel side (o.price, unwrap_or (get m o.price) [] ++ o ∷ [])
    level = record {
      filled = is_empty-snoc _ o;
      orders = All-append _ (unwrap_or (get m o.price) []) (o ∷ []) old (ok, tt);
    }

-- An order of a positive quantity may rest anywhere.
pub insert_resting_order-IsValid :
    (b : OrderBook) (id : OrderId) (side : Side) (price : Price) (qty : Qty) (ts : ℕ) (ours : Bool)
    → 0 < qty
    → IsValid b
    → IsValid (insert_resting_order b id side price qty ts ours)
unfolding insert_resting_order
insert_resting_order-IsValid b id side price qty ts ours pos v = IsValid-set_book side _ v (
    push_order-IsSide side _ _ (record { side_eq = refl; price_eq = refl; qty_pos = pos })
      (IsValid-book_of side v))

-- Writing a level back keeps a side well formed, whether the level has run empty or not.
pub put_level-IsSide :
    (side : Side) (p : Price) (q : Queue) (m : Levels)
    → All (IsOrder side p) q
    → IsSide side m
    → IsSide side (put_level p q m)
unfolding put_level
put_level-IsSide side p q m ok s = elim (Bool-cases (is_empty q)) [
  | inl e ↦ rw e (record {
    sorted = remove-IsSorted p m s.sorted;
    levels = All-remove (IsLevel side) p m s.levels;
  })
  | inr e ↦ rw e (record {
    sorted = insert-IsSorted p q m s.sorted;
    levels = All-insert (IsLevel side) p q m (record { filled = e; orders = ok }) s.levels;
  })
]
