-- ===== src/OrderBook/Orders.antt =====
-- Price-time priority without levels: one side of the book as one list of orders, best price first
-- and oldest first within a price, and what an order takes from such a list.
use high_frequency_market_ma.Prelude.{
  ℕ, ◌-◌, ◌≡◌, refl, sym, ap, ap₂, ◌∙◌, Bool, true, false, List, [], ◌∷◌, ◌++◌, append-nil,
  append_assoc, is_empty, All, leb, ◌==◌, if◌then◌else◌, Bool-cases, is_empty→nil, ==→eq, inl, inr,
  arith,
}
use high_frequency_market_ma.Types.{Price, Qty, Side, Order, Fill}
use high_frequency_market_ma.OrderBook.{Queue, Levels, Matched, fill_of}
use high_frequency_market_ma.OrderBook.Mirror.{flat}
use high_frequency_market_ma.OrderBook.Queues.{sweep, sweep-left}
use high_frequency_market_ma.OrderBook.Walk.{walk}
use high_frequency_market_ma.OrderBook.Valid.{IsOrder, IsLevel}
use high_frequency_market_ma.OrderBook.Totals.{Falls}

-- Orders are taken whole, from the front of the list, while the quantity lasts; the first that is
-- larger than what is left is cut down. Each fill is at the price of the order that rests.
unfoldable pub match_orders : ℕ → List Order → Qty → Matched
match_orders ts [] r = record { queue = []; remaining = r; fills = [] }
match_orders ts (o ∷ os) r =
    let m = match_orders ts os (r - o.qty) in
    if r == 0
    then record { queue = o ∷ os; remaining = 0; fills = [] }
    else (if leb o.qty r
        then record m { fills = fill_of o.side o.price ts o o.qty ∷ m.fills }
        else record {
          queue = record o { qty = o.qty - r } ∷ os;
          remaining = 0;
          fills = fill_of o.side o.price ts o r ∷ [];
        })

-- The orders at a price that is accepted, and those at a price that is not.
unfoldable pub within : (Price → Bool) → List Order → List Order
within ok [] = []
within ok (o ∷ os) = if ok o.price then o ∷ within ok os else within ok os

unfoldable pub beyond : (Price → Bool) → List Order → List Order
beyond ok [] = []
beyond ok (o ∷ os) = if ok o.price then beyond ok os else o ∷ beyond ok os

match_orders_none :
    (ts : ℕ) (os : List Order)
    → match_orders ts os 0 ≡ record { queue = os; remaining = 0; fills = [] }
unfolding match_orders
match_orders_none ts [] = refl
match_orders_none ts (o ∷ os) = refl

match_orders-append :
    (ts : ℕ) (xs ys : List Order) (r : ℕ)
    → let a = match_orders ts xs r in
      let b = match_orders ts ys a.remaining in
      match_orders ts (xs ++ ys) r
      ≡ record { queue = a.queue ++ b.queue; remaining = b.remaining; fills = a.fills ++ b.fills }
unfolding match_orders
match_orders-append ts [] ys r = refl
match_orders-append ts (o ∷ xs) ys r =
    ground (arith, match_orders-append ts xs ys (r - o.qty), match_orders_none ts ys)

-- Within a level the two descriptions agree.
sweep-match_orders :
    (rs : Side) (p : Price) (ts : ℕ) (q : Queue) (r : ℕ)
    → All (IsOrder rs p) q
    → sweep rs p ts q r ≡ match_orders ts q r
unfolding sweep match_orders
sweep-match_orders rs p ts [] r h = refl
sweep-match_orders rs p ts (o ∷ q) r h =
    rw (sweep-match_orders rs p ts q (r - o.qty) h.1, h.0.side_eq, h.0.price_eq)

module _ (ok : Price → Bool) where
  within-append : (xs ys : List Order) → within ok (xs ++ ys) ≡ within ok xs ++ within ok ys
  unfolding within
  within-append [] ys = refl
  within-append (o ∷ xs) ys = ground (arith, within-append xs ys)

  beyond-append : (xs ys : List Order) → beyond ok (xs ++ ys) ≡ beyond ok xs ++ beyond ok ys
  unfolding beyond
  beyond-append [] ys = refl
  beyond-append (o ∷ xs) ys = ground (arith, beyond-append xs ys)

  module _ (rs : Side) (p : Price) where
    within_accepted :
        (q : Queue) → ok p ≡ true → All (IsOrder rs p) q → (within ok q ≡ q) × (beyond ok q ≡ [])
    unfolding within beyond
    within_accepted [] c h = (refl, refl)
    within_accepted (o ∷ q) c h =
        let (w, b) = within_accepted q c h.1 in rw (ap ok h.0.price_eq ∙ c) (ap (◌∷◌ o) w, b)

    within_refused :
        (q : Queue) → ok p ≡ false → All (IsOrder rs p) q → (within ok q ≡ []) × (beyond ok q ≡ q)
    unfolding within beyond
    within_refused [] c h = (refl, refl)
    within_refused (o ∷ q) c h =
        let (w, b) = within_refused q c h.1 in rw (ap ok h.0.price_eq ∙ c) (w, ap (◌∷◌ o) b)

  flat_refused :
      (rs : Side) (ls : Levels)
      → All (IsLevel rs) ls
      → All (λ e. ok e.0 ≡ false) ls
      → (within ok (flat ls) ≡ []) × (beyond ok (flat ls) ≡ flat ls)
  unfolding within beyond
  flat_refused rs [] h c = (refl, refl)
  flat_refused rs ((p, q) ∷ ls) h c =
      let (w, b) = within_refused rs p q c.0 h.0.orders in
      let (w', b') = flat_refused rs ls h.1 c.1 in
      (within-append q (flat ls) ∙ ap₂ ◌++◌ w w', beyond-append q (flat ls) ∙ ap₂ ◌++◌ b b')

  -- The accepted orders stand before the others.
  flat-split :
      (rs : Side) (ls : Levels)
      → All (IsLevel rs) ls
      → Falls ok ls
      → flat ls ≡ within ok (flat ls) ++ beyond ok (flat ls)
  unfolding within beyond
  flat-split rs [] h f = refl
  flat-split rs ((p, q) ∷ ls) h f = elim (Bool-cases (ok p)) [
    | inl c ↦
        let (w, b) = within_accepted rs p q c h.0.orders in
        rw (within-append q (flat ls), beyond-append q (flat ls), w, b)
          (ap (◌++◌ q) (flat-split rs ls h.1 f.1) ∙ sym (append_assoc q _ _))
    | inr c ↦ let (w, b) = flat_refused rs ((p, q) ∷ ls) h (c, f.0 c) in rw (w, b)
  ]

-- The walk over the levels takes from the list of orders what price-time priority says.
pub record IsPriority (ok : Price → Bool) (ts : ℕ) (os : List Order) (r : Qty) (fills : List Fill)
    (left : List Order) (remaining : Qty) : Type 0 where
  pub fills_eq : fills ≡ (match_orders ts (within ok os) r).fills
  pub left_eq : left ≡ (match_orders ts (within ok os) r).queue ++ beyond ok os
  pub remaining_eq : remaining ≡ (match_orders ts (within ok os) r).remaining

module _ (rs : Side) (ok : Price → Bool) (ts : ℕ) (p : Price) (q : Queue) (ls : Levels) (r : ℕ)
    (h : IsLevel rs (p, q)) (c : ok p ≡ true) where
  -- An accepted level stands at the front of what the order takes from.
  match_orders-level :
      let a = sweep rs p ts q r in
      let b = match_orders ts (within ok (flat ls)) a.remaining in
      match_orders ts (within ok (q ++ flat ls)) r
      ≡ record { queue = a.queue ++ b.queue; remaining = b.remaining; fills = a.fills ++ b.fills }
  match_orders-level =
      rw
        (
          within-append ok q (flat ls),
          (within_accepted ok rs p q c h.orders).0,
          sweep-match_orders rs p ts q r h.orders,
        )
        (match_orders-append ts q (within ok (flat ls)) r)

  beyond_level : beyond ok (q ++ flat ls) ≡ beyond ok (flat ls)
  beyond_level =
      beyond-append ok q (flat ls)
      ∙ ap (λ (os : List Order). os ++ beyond ok (flat ls)) (within_accepted ok rs p q c h.orders).1

pub walk-IsPriority :
    (rs : Side) (ok : Price → Bool) (ts : ℕ) (ls : Levels) (r : ℕ)
    → All (IsLevel rs) ls
    → Falls ok ls
    → let w = walk rs ok ts ls r in IsPriority ok ts (flat ls) r w.fills (flat w.levels) w.remaining
unfolding walk match_orders within beyond
walk-IsPriority rs ok ts [] r h f = nothing
  where
    nothing : IsPriority ok ts [] r [] [] r
    nothing = record { fills_eq = refl; left_eq = refl; remaining_eq = refl }
walk-IsPriority rs ok ts ((p, q) ∷ ls) r h f = elim (Bool-cases (r == 0)) [
  | inl e ↦
      let none_left = match_orders_none ts (within ok (q ++ flat ls)) in
      rw (e, ==→eq r 0 e)
        (record {
          fills_eq = rw none_left;
          left_eq = rw none_left (flat-split ok rs ((p, q) ∷ ls) h f);
          remaining_eq = rw none_left;
        })
  | inr e ↦ rw e (elim (Bool-cases (ok p)) [
    | inl c ↦
        let a = sweep rs p ts q r in
        let at = match_orders-level rs ok ts p q ls r h.0 c in
        let after = beyond_level rs ok ts p q ls r h.0 c in
        let i = walk-IsPriority rs ok ts ls a.remaining h.1 f.1 in
        rw c (elim (Bool-cases (is_empty a.queue)) [
          | inl t ↦ rw t (record {
            fills_eq = rw at (ap (◌++◌ a.fills) i.fills_eq);
            left_eq = rw (at, after, is_empty→nil a.queue t) i.left_eq;
            remaining_eq = rw at i.remaining_eq;
          })
          | inr n ↦
              let none_left =
                ap (match_orders ts (within ok (flat ls))) (sweep-left rs p ts q r n)
                ∙ match_orders_none ts (within ok (flat ls)) in
              rw n (record {
                fills_eq = rw (at, none_left) (sym (append-nil a.fills));
                left_eq =
                    rw (at, none_left, after, append_assoc)
                      (ap (◌++◌ a.queue) (flat-split ok rs ls h.1 f.1));
                remaining_eq = rw (at, none_left);
              })
        ])
    | inr c ↦ let (w, b) = flat_refused ok rs ((p, q) ∷ ls) h (c, f.0 c) in rw c (refused w b)
  ])
]
  where
    refused :
        within ok (q ++ flat ls) ≡ []
        → beyond ok (q ++ flat ls) ≡ q ++ flat ls
        → IsPriority ok ts (q ++ flat ls) r [] (q ++ flat ls) r
    refused w b = record {
      fills_eq = rw (w, match_orders);
      left_eq = rw (w, b, match_orders);
      remaining_eq = rw (w, match_orders);
    }
