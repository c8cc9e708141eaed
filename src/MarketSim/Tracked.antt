-- ===== src/MarketSim/Tracked.antt =====
-- Which of the orders that rest in the book of engine/src/market_sim.rs are the strategy's own, and
-- what the exchange has on record of them: an identifier and a price, or nothing.
use high_frequency_market_ma.Prelude.{
  ℕ, suc, ◌+◌, ◌≤◌, ◌≡◌, ◌≢◌, refl, ap, Bool, true, false, Option, none, some, List, [], ◌∷◌, All,
  All-map, ltb, ◌==◌, if◌then◌else◌, Bool-cases, inl, inr, sum_by, sum_by-append, arith,
}
use high_frequency_market_ma.Prelude.Int.{eqb_ℤ, eqb_ℤ_self, eqb_ℤ→eq}
use high_frequency_market_ma.Types.{Price, OrderId, Side, Order}
use high_frequency_market_ma.OrderBook.{OrderBook, book_of, cancel_order}
use high_frequency_market_ma.OrderBook.Mirror.{flat}
use high_frequency_market_ma.OrderBook.Valid.{IsValid}
use high_frequency_market_ma.OrderBook.Removed.{cancel_order-Removed}
use high_frequency_market_ma.OrderBook.Marks.{Blind, tally, cancel_order-tally_own}

-- An order of the strategy, one that is not the one on record, and one that has its identifier.
abbrev pub own : Order → ℕ
own o = if o.is_ours then 1 else 0

abbrev pub stray : Option (OrderId × Price) → Order → ℕ
stray none o = own o
stray (some (id, price)) o =
    if o.is_ours then (if o.id == id then (if eqb_ℤ o.price price then 0 else 1) else 1) else 0

abbrev pub named : Option (OrderId × Price) → Order → ℕ
named none o = 0
named (some (id, price)) o = if o.id == id then 1 else 0

-- An order whose identifier is yet to be given out.
abbrev pub newer : OrderId → Order → ℕ
newer last o = if ltb last o.id then 1 else 0

abbrev pub IsIssued : Option (OrderId × Price) → OrderId → Type 0
IsIssued none last = Unit
IsIssued (some (id, price)) last = id ≤ last

-- On a side of the book, no order of the strategy but the one on record, and no other order with
-- its identifier.
pub record Tracked (r : Option (OrderId × Price)) (last : OrderId) (side : Side) (b : OrderBook)
    : Type 0 where
  pub strays : tally (stray r) side b ≡ 0
  pub once : tally (named r) side b ≤ 1
  pub known : tally (newer last) side b ≡ 0
  pub issued : IsIssued r last

stray-Blind : (r : Option (OrderId × Price)) → Blind (stray r)
stray-Blind none o qty = refl
stray-Blind (some (id, price)) o qty = refl

named-Blind : (r : Option (OrderId × Price)) → Blind (named r)
named-Blind none o qty = refl
named-Blind (some (id, price)) o qty = refl

sum_by-All :
    (f g : Order → ℕ) (os : List Order) → All (λ o. f o ≤ g o) os → sum_by f os ≤ sum_by g os
sum_by-All f g [] h = omega arith
sum_by-All f g (o ∷ os) h = omega (arith, h.0, sum_by-All f g os h.1)

below : (f g : Order → ℕ) (os : List Order) → ((o : Order) → f o ≤ g o) → sum_by f os ≤ sum_by g os
below f g [] h = omega arith
below f g (o ∷ os) h = omega (arith, h o, below f g os h)

IsIssued-later :
    (r : Option (OrderId × Price)) (last : OrderId) → IsIssued r last → IsIssued r (suc last)
IsIssued-later none last h = tt
IsIssued-later (some (id, price)) last h = omega (arith, h)

-- An order of another is not on record, as long as its identifier is new.
named_new :
    (r : Option (OrderId × Price)) (last : OrderId) (o : Order)
    → IsIssued r last
    → o.id ≡ suc last
    → named r o ≡ 0
named_new none last o h e = refl
named_new (some (id, price)) last o h e = ground (arith, h, e)

stray_foreign : (r : Option (OrderId × Price)) (o : Order) → o.is_ours ≡ false → stray r o ≡ 0
stray_foreign none o e = rw e
stray_foreign (some (id, price)) o e = rw e

pub Tracked-later :
    {r : Option (OrderId × Price)} {last : OrderId} {side : Side} {b : OrderBook}
    → Tracked r last side b
    → Tracked r (suc last) side b
Tracked-later {r} {last} {side} {b} t =
    let less : tally (newer (suc last)) side b ≤ tally (newer last) side b =
      below _ _ (flat (book_of side b)) (λ o. ground arith) in
    record {
      strays = t.strays;
      once = t.once;
      known = omega (arith, t.known, less);
      issued = IsIssued-later r last t.issued;
    }

module _ {r : Option (OrderId × Price)} {last : OrderId} {side : Side} {b b' : OrderBook}
    (t : Tracked r last side b) where
  pub Tracked-fewer :
      ((w : Order → ℕ) → Blind w → tally w side b' ≤ tally w side b) → Tracked r last side b'
  Tracked-fewer less = record {
    strays = omega (arith, t.strays, less (stray r) (stray-Blind r));
    once = omega (arith, t.once, less (named r) (named-Blind r));
    known = omega (arith, t.known, less (newer last) (λ o qty. refl));
    issued = t.issued;
  }

  -- A new order of another that may come to rest.
  pub Tracked-foreign :
      (rests : Bool) (o : Order)
      → o.id ≡ suc last
      → o.is_ours ≡ false
      → ((w : Order → ℕ) → Blind w → tally w side b' ≡ tally w side b + (if rests then w o else 0))
      → Tracked r (suc last) side b'
  Tracked-foreign rests o new theirs sum =
      let l = Tracked-later t in
      let not_newer : newer (suc last) o ≡ 0 = ground (arith, new) in
      record {
        strays = ground (arith, t.strays, sum (stray r) (stray-Blind r), stray_foreign r o theirs);
        once =
            ground (arith, t.once, sum (named r) (named-Blind r), named_new r last o t.issued new);
        known = ground (arith, l.known, sum (newer (suc last)) (λ o qty. refl), not_newer);
        issued = l.issued;
      }

own_new :
    (last : OrderId) (price : Price) (o : Order)
    → o.id ≡ suc last
    → o.price ≡ price
    → stray (some (suc last, price)) o ≡ 0
own_new last price o new at = ground (arith, new, ap (λ p. eqb_ℤ p price) at, eqb_ℤ_self price)

-- A new order of the strategy, where it has no other on this side.
pub Tracked-own :
    {last : OrderId} {side : Side} {b b' : OrderBook} (rests : Bool) (price : Price) (o : Order)
    → Tracked none last side b
    → o.id ≡ suc last
    → o.price ≡ price
    → ((w : Order → ℕ) → Blind w → tally w side b' ≡ tally w side b + (if rests then w o else 0))
    → Tracked (if rests then some (suc last, price) else none) (suc last) side b'
Tracked-own {last} {side} {b} {b'} true price o t new at sum =
    let r : Option (OrderId × Price) = some (suc last, price) in
    let os = flat (book_of side b) in
    let l = Tracked-later t in
    record {
      strays = ground (
        arith,
        t.strays,
        sum (stray r) (stray-Blind r),
        own_new last price o new at,
        below (stray r) (stray none) os (λ o. ground arith),
      );
      once = ground (
        arith,
        t.known,
        sum (named r) (named-Blind r),
        below (named r) (newer last) os (λ o. ground arith),
      );
      known = ground (arith, l.known, sum (newer (suc last)) (λ o qty. refl), new);
      issued = omega arith;
    }
Tracked-own {last} {side} {b} {b'} false price o t new at sum =
    Tracked-later (Tracked-fewer t (λ w blind. omega (arith, sum w blind)))

nothing_named : (os : List Order) → sum_by (named none) os ≡ 0
nothing_named [] = refl
nothing_named (o ∷ os) = omega (arith, nothing_named os)

split_own :
    (id : OrderId) (price : Price) (os : List Order)
    → sum_by own os ≤ sum_by (stray (some (id, price))) os + sum_by (named (some (id, price))) os
split_own id price [] = omega arith
split_own id price (o ∷ os) = ground (arith, split_own id price os)

stray_absent :
    (id : OrderId) (price : Price) (o : Order)
    → (o.price ≡ price → o.id ≢ id)
    → own o ≤ stray (some (id, price)) o
stray_absent id price o absent = elim (Bool-cases (eqb_ℤ o.price price)) [
  | inl e ↦ ground (arith, e, absent (eqb_ℤ→eq o.price price e))
  | inr e ↦ ground (arith, e)
]

-- The cancellation of the order on record leaves none of the strategy.
pub Tracked-cancelled :
    (r : OrderId × Price) {last : OrderId} {side : Side} {b : OrderBook}
    → IsValid b
    → Tracked (some r) last side b
    → Tracked none last side (cancel_order b side r.1 r.0).0
Tracked-cancelled (id, price) {last} {side} {b} v t =
    let r : Option (OrderId × Price) = some (id, price) in
    let os = flat (book_of side b) in
    let b' = (cancel_order b side price id).0 in
    record {
      strays = elim ((cancel_order-Removed side price id v).1) [
        | inl (_, m) ↦
            let one : named r m.order ≡ 1 = ground (arith, m.hit) in
            omega (
              arith,
              t.strays,
              t.once,
              one,
              ap (sum_by (named r)) m.split,
              sum_by-append (named r) m.before (m.order ∷ m.after),
              ap (sum_by (named r)) m.left,
              sum_by-append (named r) m.before m.after,
              cancel_order-tally_own (stray r) (stray-Blind r) v side price id,
              split_own id price (flat (book_of side b')),
            )
        | inr (_, kept, absent) ↦ omega (
          arith,
          t.strays,
          ap (tally own side) kept,
          sum_by-All own (stray r) os (All-map _ _ os (stray_absent id price) absent),
        )
      ];
      once = omega (arith, nothing_named (flat (book_of side b')));
      known =
          omega
            (arith, t.known, cancel_order-tally_own (newer last) (λ o qty. refl) v side price id);
      issued = tt;
    }

-- At most one order of the strategy rests on the side.
pub Tracked-once :
    (r : Option (OrderId × Price)) {last : OrderId} {side : Side} {b : OrderBook}
    → Tracked r last side b
    → tally own side b ≤ 1
Tracked-once none t = omega (arith, t.strays)
Tracked-once (some (id, price)) {side = side} {b} t =
    omega (arith, t.strays, t.once, split_own id price (flat (book_of side b)))
