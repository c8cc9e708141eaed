-- ===== src/OrderBook/Amend.antt =====
-- Where `cancel_order` and `apply_trade` of engine/src/orderbook.rs find an order in a queue.
use high_frequency_market_ma.Prelude.{
  ℕ, zero, suc, ◌<◌, ◌≡◌, ◌≢◌, refl, sym, ap, ◌∙◌, inl, inr, true, false, some, none, [], ◌∷◌, ◌++◌,
  length, All, leb, ◌==◌, Bool-cases, Option-cases, ==→eq, leb_false→lt, arith,
}
use mathlib.Core.Option
use mathlib.Core.Option.{some-injective}
use high_frequency_market_ma.Types.{Price, Qty, OrderId, Side, Order}
use high_frequency_market_ma.OrderBook.{Queue, position, remove_at}
use high_frequency_market_ma.OrderBook.Mirror.{trade_at}
use high_frequency_market_ma.OrderBook.Valid.{IsOrder}

-- Where the order with an identifier stands: behind `before`, in which no order has it.
pub record Found (id : OrderId) (q : Queue) (i : ℕ) : Type 0 where
  pub before : Queue
  pub order : Order
  pub after : Queue
  pub split : q ≡ before ++ order ∷ after
  pub at : i ≡ length before
  pub hit : order.id ≡ id
  pub first : All (λ o. o.id ≢ id) before

position-hit :
    (id : OrderId) (o : Order) (q : Queue) → (o.id == id) ≡ true → position id (o ∷ q) ≡ some 0
unfolding position
position-hit id o q h = rw h

position-miss :
    (id : OrderId) (o : Order) (q : Queue)
    → (o.id == id) ≡ false
    → position id (o ∷ q) ≡ Option.map suc (position id q)
unfolding position
position-miss id o q h = rw h

pub position-Found : (id : OrderId) (q : Queue) (i : ℕ) → position id q ≡ some i → Found id q i
position-Found id [] i e = unfold position in cc
position-Found id (o ∷ q) i e = elim (Bool-cases (o.id == id)) [
  | inl h ↦ record {
    before = [];
    order = o;
    after = q;
    split = refl;
    at = some-injective _ _ (sym e ∙ position-hit id o q h);
    hit = ==→eq _ _ h;
    first = tt;
  }
  | inr h ↦ elim (Option-cases (position id q)) [
    | inl n ↦ absurd (cc (sym e ∙ position-miss id o q h ∙ ap (Option.map suc) n))
    | inr (j, m) ↦
        let f = position-Found id q j m in
        record {
          before = o ∷ f.before;
          order = f.order;
          after = f.after;
          split = ap (◌∷◌ o) f.split;
          at =
              some-injective _ _ (sym e ∙ position-miss id o q h ∙ ap (Option.map suc) m)
              ∙ ap suc f.at;
          hit = f.hit;
          first = ((λ same. ground (arith, same, h)), f.first);
        }
  ]
]

pub position-none : (id : OrderId) (q : Queue) → position id q ≡ none → All (λ o. o.id ≢ id) q
position-none id [] e = tt
position-none id (o ∷ q) e = elim (Bool-cases (o.id == id)) [
  | inl h ↦ absurd (cc (sym e ∙ position-hit id o q h))
  | inr h ↦ elim (Option-cases (position id q)) [
    | inl n ↦ ((λ same. ground (arith, same, h)), position-none id q n)
    | inr (j, m) ↦ absurd (cc (sym e ∙ position-miss id o q h ∙ ap (Option.map suc) m))
  ]
]

pub remove_at-append :
    (xs : Queue) (o : Order) (ys : Queue) → remove_at (length xs) (xs ++ o ∷ ys) ≡ xs ++ ys
unfolding remove_at
remove_at-append [] o ys = refl
remove_at-append (x ∷ xs) o ys = ap (◌∷◌ x) (remove_at-append xs o ys)

pub All-remove_at : (P : Order → Type 0) (i : ℕ) (q : Queue) → All P q → All P (remove_at i q)
unfolding remove_at
All-remove_at P i [] h = tt
All-remove_at P zero (o ∷ q) h = h.1
All-remove_at P (suc i) (o ∷ q) h = (h.0, All-remove_at P i q h.1)

pub trade_at-IsOrder :
    (side : Side) (p : Price) (i : ℕ) (n : Qty) (q : Queue)
    → All (IsOrder side p) q
    → All (IsOrder side p) (trade_at i n q)
unfolding trade_at
trade_at-IsOrder side p i n [] h = tt
trade_at-IsOrder side p zero n (o ∷ q) h = elim (Bool-cases (leb o.qty n)) [
  | inl e ↦ rw e h.1
  | inr e ↦
      let more : n < o.qty = leb_false→lt _ _ e in
      rw e (record { side_eq = h.0.side_eq; price_eq = h.0.price_eq; qty_pos = omega arith }, h.1)
]
trade_at-IsOrder side p (suc i) n (o ∷ q) h = (h.0, trade_at-IsOrder side p i n q h.1)
