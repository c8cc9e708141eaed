-- ===== src/OrderBook/Removed.antt =====
-- `cancel_order` of engine/src/orderbook.rs: which order it takes out, and when it returns true.
use high_frequency_market_ma.Prelude.{
  ℕ, ◌≡◌, ◌≢◌, ◌⊎◌, refl, sym, ap, ap₂, ◌∙◌, subst, inl, inr, true, false, some, none, List, [],
  ◌∷◌, ◌++◌, append_assoc, is_empty, is_empty→nil, All, All-map, All-append, All-append_left,
  All-append_right, Bool-cases, Option-cases, arith,
}
use high_frequency_market_ma.Prelude.Int.{pos_part, neg_part, eqb_ℤ, eqb_ℤ_self}
use high_frequency_market_ma.TreeMap.{get}
use high_frequency_market_ma.TreeMap.Order.{
  IsSorted, IsSorted-right, Above, Below, get-split, insert-at, remove-at,
}
use high_frequency_market_ma.Types.{Price, OrderId, Side, bid, ask, opposite, Order}
use high_frequency_market_ma.OrderBook.{
  OrderBook, Queue, Levels, book_of, set_book, put_level, position, remove_at, cancel_order,
}
use high_frequency_market_ma.OrderBook.Mirror.{flat}
use high_frequency_market_ma.OrderBook.Valid.{
  IsOrder, IsLevel, IsSide, IsValid, IsValid-book_of, All-get,
}
use high_frequency_market_ma.OrderBook.Sides.{flat-append}
use high_frequency_market_ma.OrderBook.Priority.{book_of-set_book}
use high_frequency_market_ma.OrderBook.Amend.{position-Found, position-none, remove_at-append}

-- Writing back a level that is there changes its queue and no other order.
flat-put_level :
    (p : Price) (q q' : Queue) (xs ys : Levels)
    → Below p xs
    → flat (put_level p q' (xs ++ (p, q) ∷ ys)) ≡ flat xs ++ (q' ++ flat ys)
unfolding put_level
flat-put_level p q q' xs ys h = elim (Bool-cases (is_empty q')) [
  | inl e ↦ rw (put_level, e, is_empty→nil q' e, remove-at p q ys xs h) (flat-append xs ys)
  | inr e ↦ rw (put_level, e, insert-at p q ys q' xs h) (flat-append xs ((p, q') ∷ ys))
]

-- Of the orders in their sequence by price and by time, the one that has the price and the identifier
-- is taken out, and is the first that has them.
pub record Removed (price : Price) (id : OrderId) (was now : List Order) : Type 0 where
  pub before : List Order
  pub order : Order
  pub after : List Order
  pub split : was ≡ before ++ order ∷ after
  pub left : now ≡ before ++ after
  pub at : order.price ≡ price
  pub hit : order.id ≡ id
  pub first : All (λ o. o.price ≡ price → o.id ≢ id) before

-- Orders that rest at other prices.
elsewhere :
    (side : Side) (price : Price) (id : OrderId) (m : Levels)
    → All (IsLevel side) m
    → All (λ e. e.0 ≢ price) m
    → All (λ o. o.price ≡ price → o.id ≢ id) (flat m)
elsewhere side price id [] l h = tt
elsewhere side price id ((p, q) ∷ m) l h =
    All-append _ q (flat m) (All-map _ _ q (λ o k e. absurd (h.0 (sym k.price_eq ∙ e))) l.0.orders)
      (elsewhere side price id m l.1 h.1)

get-none : (k : Price) (m : Levels) → get m k ≡ none → All (λ e. e.0 ≢ k) m
unfolding get
get-none k [] h = tt
get-none k ((j, w) ∷ m) h = elim (Bool-cases (eqb_ℤ j k)) [
  | inl e ↦ cc (rw e at h)
  | inr e ↦
      ((λ same. cc (sym e ∙ ap (λ i. eqb_ℤ i k) same ∙ eqb_ℤ_self k)), get-none k m (rw e at h))
]

-- The levels below a price, whose orders no cancellation at that price means.
elsewhere-Below :
    (side : Side) (price : Price) (id : OrderId) (xs ys : Levels)
    → All (IsLevel side) (xs ++ ys)
    → Below price xs
    → All (λ o. o.price ≡ price → o.id ≢ id) (flat xs)
elsewhere-Below side price id xs ys l b =
    elsewhere side price id xs (All-append_left _ xs ys l)
      (All-map _ _ xs (λ e lt same. absurd (omega (arith, ap pos_part same, ap neg_part same))) b)

elsewhere-Above :
    (side : Side) (price : Price) (id : OrderId) (ys : Levels)
    → All (IsLevel side) ys
    → Above price ys
    → All (λ o. o.price ≡ price → o.id ≢ id) (flat ys)
elsewhere-Above side price id ys l a =
    elsewhere side price id ys l
      (All-map _ _ ys (λ e lt same. absurd (omega (arith, ap pos_part same, ap neg_part same))) a)

module _ (side : Side) (price : Price) (id : OrderId) (m : Levels) (v : IsSide side m) where
  level-Removed :
      (q : Queue) (i : ℕ)
      → get m price ≡ some q
      → position id q ≡ some i
      → Removed price id (flat m) (flat (put_level price (remove_at i q) m))
  level-Removed q i g e =
      let (xs, ys, split, below) = get-split price m v.sorted g in
      let f = position-Found id q i e in
      let orders = (All-get (IsLevel side) price m v.sorted v.levels g).orders in
      let found =
        All-append_right _ f.before (f.order ∷ f.after)
          (subst (All (IsOrder side price)) f.split orders) in
      let removed : remove_at i q ≡ f.before ++ f.after =
        ap₂ remove_at f.at f.split ∙ remove_at-append f.before f.order f.after in
      record {
        before = flat xs ++ f.before;
        order = f.order;
        after = f.after ++ flat ys;
        split =
            ap flat split
            ∙ flat-append xs ((price, q) ∷ ys)
            ∙ ap (λ z. flat xs ++ (z ++ flat ys)) f.split
            ∙ ap (flat xs ++◌) (append_assoc f.before (f.order ∷ f.after) (flat ys))
            ∙ sym (append_assoc (flat xs) f.before (f.order ∷ (f.after ++ flat ys)));
        left =
            ap (λ z. flat (put_level price (remove_at i q) z)) split
            ∙ flat-put_level price q (remove_at i q) xs ys below
            ∙ ap (λ z. flat xs ++ (z ++ flat ys)) removed
            ∙ ap (flat xs ++◌) (append_assoc f.before f.after (flat ys))
            ∙ sym (append_assoc (flat xs) f.before (f.after ++ flat ys));
        at = found.0.price_eq;
        hit = f.hit;
        first =
            All-append _ (flat xs) f.before
              (elsewhere-Below side price id xs _ (subst (All (IsLevel side)) split v.levels) below)
              (All-map _ _ f.before (λ o n e. n) f.first);
      }

  level-absent :
      (q : Queue)
      → get m price ≡ some q
      → position id q ≡ none
      → All (λ o. o.price ≡ price → o.id ≢ id) (flat m)
  level-absent q g e =
      let (xs, ys, split, below) = get-split price m v.sorted g in
      let levels = subst (All (IsLevel side)) split v.levels in
      let rest = All-append_right _ xs ((price, q) ∷ ys) levels in
      let above = (IsSorted-right xs ((price, q) ∷ ys) (subst IsSorted split v.sorted)).0 in
      subst (λ z. All (λ o. o.price ≡ price → o.id ≢ id) (flat z)) (sym split)
        (rw (flat-append xs ((price, q) ∷ ys)) (
          All-append _ (flat xs) (q ++ flat ys) (elsewhere-Below side price id xs _ levels below) (
            All-append _ q (flat ys) (All-map _ _ q (λ o n at. n) (position-none id q e))
              (elsewhere-Above side price id ys rest.1 above))))

other_side :
    (side : Side) (m : Levels) (b : OrderBook)
    → book_of (opposite side) (set_book side m b) ≡ book_of (opposite side) b
other_side bid m b = refl
other_side ask m b = refl

-- On a well-formed book, a cancellation leaves the opposite side as it is; it returns true where
-- it took out the first order of the side with that price and identifier and no other, and false
-- where no order has them and the book is as it was.
pub cancel_order-Removed :
    {b : OrderBook} (side : Side) (price : Price) (id : OrderId)
    → IsValid b
    → let (b', found) = cancel_order b side price id in
      (book_of (opposite side) b' ≡ book_of (opposite side) b)
      × (((found ≡ true) × Removed price id (flat (book_of side b)) (flat (book_of side b')))
          ⊎ ((found ≡ false)
              × (b' ≡ b)
              × All (λ o. o.price ≡ price → o.id ≢ id) (flat (book_of side b))))
unfolding cancel_order
cancel_order-Removed {b} side price id v =
    let w = IsValid-book_of side v in
    let m = book_of side b in
    elim (Option-cases (get m price)) [
      | inl n ↦
          rw (cancel_order, n)
            (refl, inr (refl, refl, elsewhere side price id m w.levels (get-none price m n)))
      | inr (q, g) ↦
          rw (cancel_order, g)
            (elim (Option-cases (position id q)) [
              | inl n ↦
                  rw (cancel_order, n)
                    (refl, inr (refl, refl, level-absent side price id m w q g n))
              | inr (i, e) ↦
                  let m' = put_level price (remove_at i q) m in
                  rw (cancel_order, e)
                    (
                      other_side side m' b,
                      inl (
                        refl,
                        rw (book_of-set_book side m' b) (level-Removed side price id m w q i g e),
                      ),
                    )
            ])
    ]
