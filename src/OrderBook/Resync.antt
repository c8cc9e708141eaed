-- ===== src/OrderBook/Resync.antt =====
-- The snapshot of engine/src/orderbook.rs: `export_resync`, and `rebuild_from_resync` from it.
use high_frequency_market_ma.Prelude.{
  ℕ, ◌≡◌, refl, sym, ap, ap₂, ◌∙◌, subst, none, false, List, [], ◌∷◌, ◌++◌, map, append_assoc,
  append-nil, is_empty, All, arith, unwrap_or, map-append,
}
use high_frequency_market_ma.Prelude.Int.{◌<ℤ◌, lt→eqb_ℤ, ge→ltb_ℤ}
use high_frequency_market_ma.TreeMap.{get, insert}
use high_frequency_market_ma.TreeMap.Order.{IsSorted, Below, get-at, insert-at, IsSorted-Below}
use high_frequency_market_ma.Types.{Price, Side, bid, ask, Order, ResyncEntry}
use high_frequency_market_ma.OrderBook.{OrderBook, Queue, Levels, push_order, insert_resting_order}
use high_frequency_market_ma.OrderBook.Mirror.{
  flat, resync_entry, export_resync, insert_all, rebuild_from_resync,
}
use high_frequency_market_ma.OrderBook.Valid.{IsOrder, IsLevel, IsSide, IsValid}

-- The same orders with the time of the snapshot.
abbrev pub restamp : ℕ → Order → Order
restamp ts o = record o { ts_nanos = ts }

abbrev pub restamp_levels : ℕ → Levels → Levels
restamp_levels ts [] = []
restamp_levels ts ((p, q) ∷ m) = (p, map (restamp ts) q) ∷ restamp_levels ts m

abbrev pub restamp_book : ℕ → OrderBook → OrderBook
restamp_book ts b = record { bids = restamp_levels ts b.bids; asks = restamp_levels ts b.asks }

push_all : List Order → Levels → Levels
push_all [] m = m
push_all (o ∷ os) m = push_all os (push_order o m)

push_all-append :
    (xs ys : List Order) (m : Levels) → push_all (xs ++ ys) m ≡ push_all ys (push_all xs m)
unfolding push_all
push_all-append [] ys m = refl
push_all-append (o ∷ xs) ys m = push_all-append xs ys _

get-Below : (p : Price) (m : Levels) → Below p m → get m p ≡ none
unfolding get
get-Below p [] b = refl
get-Below p ((j, w) ∷ m) b = rw (lt→eqb_ℤ j p b.0) (get-Below p m b.1)

insert-Below : (p : Price) (q : Queue) (m : Levels) → Below p m → insert p q m ≡ m ++ (p, q) ∷ []
unfolding insert
insert-Below p q [] b = refl
insert-Below p q ((j, w) ∷ m) b =
    rw (ge→ltb_ℤ p j (omega arith), lt→eqb_ℤ j p b.0) (ap (◌∷◌ (j, w)) (insert-Below p q m b.1))

module _ (acc : Levels) (p : Price) (below : Below p acc) where
  push_order-new : (o : Order) → o.price ≡ p → push_order o acc ≡ acc ++ (p, o ∷ []) ∷ []
  unfolding push_order
  push_order-new o e =
      let b = subst (λ k. Below k acc) (sym e) below in
      rw (get-Below o.price acc b) (insert-Below o.price (o ∷ []) acc b)
      ∙ ap (λ k. acc ++ (k, o ∷ []) ∷ []) e

  push_order-more :
      (q : Queue) (o : Order)
      → o.price ≡ p
      → push_order o (acc ++ (p, q) ∷ []) ≡ acc ++ (p, q ++ o ∷ []) ∷ []
  unfolding push_order
  push_order-more q o e =
      ap (λ k. insert k (unwrap_or (get (acc ++ (p, q) ∷ []) k) [] ++ o ∷ []) (acc ++ (p, q) ∷ []))
        e
      ∙ rw (get-at p q [] acc below) (insert-at p q [] (q ++ o ∷ []) acc below)

  push_all-more :
      (os q : Queue)
      → All (λ o. o.price ≡ p) os
      → push_all os (acc ++ (p, q) ∷ []) ≡ acc ++ (p, q ++ os) ∷ []
  unfolding push_all
  push_all-more [] q h = ap (λ x. acc ++ (p, x) ∷ []) (sym (append-nil q))
  push_all-more (o ∷ os) q h =
      ap (push_all os) (push_order-more q o h.0)
      ∙ push_all-more os (q ++ o ∷ []) h.1
      ∙ ap (λ x. acc ++ (p, x) ∷ []) (append_assoc q (o ∷ []) os)

  push_all-level :
      (os : Queue)
      → is_empty os ≡ false
      → All (λ o. o.price ≡ p) os
      → push_all os acc ≡ acc ++ (p, os) ∷ []
  unfolding push_all
  push_all-level [] n h = cc
  push_all-level (o ∷ os) n h =
      ap (push_all os) (push_order-new o h.0) ∙ push_all-more os (o ∷ []) h.1

-- Pushing the orders of some levels, in their order, behind the levels before them.
push_all-flat :
    (ls acc : Levels)
    → IsSorted (acc ++ ls)
    → All (λ e. (is_empty e.1 ≡ false) × All (λ o. o.price ≡ e.0) e.1) ls
    → push_all (flat ls) acc ≡ acc ++ ls
unfolding push_all
push_all-flat [] acc s h = sym (append-nil acc)
push_all-flat ((p, q) ∷ ls) acc s h =
    let next = append_assoc acc ((p, q) ∷ []) ls in
    push_all-append q (flat ls) acc
    ∙ ap (push_all (flat ls)) (push_all-level acc p (IsSorted-Below p q ls acc s) q h.0.0 h.0.1)
    ∙ push_all-flat ls (acc ++ (p, q) ∷ []) (subst IsSorted (sym next) s) h.1
    ∙ next

restamp-keys :
    (P : Price → Type 0) (ts : ℕ) (m : Levels)
    → All (λ e. P e.0) m
    → All (λ e. P e.0) (restamp_levels ts m)
restamp-keys P ts [] h = tt
restamp-keys P ts ((p, q) ∷ m) h = (h.0, restamp-keys P ts m h.1)

restamp-IsSorted : (ts : ℕ) (m : Levels) → IsSorted m → IsSorted (restamp_levels ts m)
restamp-IsSorted ts [] s = tt
restamp-IsSorted ts ((p, q) ∷ m) s =
    (restamp-keys (λ k. p <ℤ k) ts m s.0, restamp-IsSorted ts m s.1)

restamp-prices :
    (side : Side) (ts : ℕ) (p : Price) (q : Queue)
    → All (IsOrder side p) q
    → All (λ o. o.price ≡ p) (map (restamp ts) q)
restamp-prices side ts p [] h = tt
restamp-prices side ts p (o ∷ q) h = (h.0.price_eq, restamp-prices side ts p q h.1)

is_empty-map : (ts : ℕ) (q : Queue) → is_empty (map (restamp ts) q) ≡ is_empty q
is_empty-map ts [] = refl
is_empty-map ts (o ∷ q) = refl

restamp-levels :
    (side : Side) (ts : ℕ) (m : Levels)
    → All (IsLevel side) m
    → All (λ e. (is_empty e.1 ≡ false) × All (λ o. o.price ≡ e.0) e.1) (restamp_levels ts m)
restamp-levels side ts [] h = tt
restamp-levels side ts ((p, q) ∷ m) h = (
  (is_empty-map ts q ∙ h.0.filled, restamp-prices side ts p q h.0.orders),
  restamp-levels side ts m h.1,
)

-- The order that a rebuild makes of a snapshot's entry.
abbrev entry_order : Side → ℕ → ResyncEntry → Order
entry_order side ts e = record {
  id = e.0;
  side = side;
  price = e.1;
  qty = e.2;
  ts_nanos = ts;
  is_ours = e.3;
}

entries-queue :
    (side : Side) (ts : ℕ) (p : Price) (q : Queue)
    → All (IsOrder side p) q
    → map (entry_order side ts) (map resync_entry q) ≡ map (restamp ts) q
entries-queue side ts p [] h = refl
entries-queue side ts p (o ∷ q) h =
    ap₂ ◌∷◌ (ap (λ s. record o { side = s; ts_nanos = ts }) (sym h.0.side_eq))
      (entries-queue side ts p q h.1)

entries-flat :
    (side : Side) (ts : ℕ) (m : Levels)
    → All (IsLevel side) m
    → map (entry_order side ts) (map resync_entry (flat m)) ≡ flat (restamp_levels ts m)
entries-flat side ts [] h = refl
entries-flat side ts ((p, q) ∷ m) h =
    ap (map (entry_order side ts)) (map-append resync_entry q (flat m))
    ∙ map-append (entry_order side ts) (map resync_entry q) (map resync_entry (flat m))
    ∙ ap₂ ◌++◌ (entries-queue side ts p q h.0.orders) (entries-flat side ts m h.1)

insert_all-bids :
    (ts : ℕ) (es : List ResyncEntry) (b : OrderBook)
    → insert_all bid ts es b ≡ record b { bids = push_all (map (entry_order bid ts) es) b.bids }
unfolding insert_all insert_resting_order push_all
insert_all-bids ts [] b = refl
insert_all-bids ts ((id, price, qty, ours) ∷ es) b = insert_all-bids ts es _

insert_all-asks :
    (ts : ℕ) (es : List ResyncEntry) (b : OrderBook)
    → insert_all ask ts es b ≡ record b { asks = push_all (map (entry_order ask ts) es) b.asks }
unfolding insert_all insert_resting_order push_all
insert_all-asks ts [] b = refl
insert_all-asks ts ((id, price, qty, ours) ∷ es) b = insert_all-asks ts es _

rebuilt :
    (side : Side) (ts : ℕ) (m : Levels)
    → IsSide side m
    → push_all (map (entry_order side ts) (map resync_entry (flat m))) [] ≡ restamp_levels ts m
rebuilt side ts m v =
    ap (λ os. push_all os []) (entries-flat side ts m v.levels)
    ∙ push_all-flat (restamp_levels ts m) [] (restamp-IsSorted ts m v.sorted)
        (restamp-levels side ts m v.levels)

-- A book rebuilt from the snapshot of a well-formed book is that book, whatever it was before,
-- with the time of the rebuild on every order.
pub rebuild_from_resync-export_resync :
    {b : OrderBook} (old : OrderBook) (ts : ℕ)
    → IsValid b
    → rebuild_from_resync old (export_resync b) ts ≡ restamp_book ts b
unfolding rebuild_from_resync export_resync
rebuild_from_resync-export_resync {b} old ts v = rw (
  insert_all-bids ts (map resync_entry (flat b.bids)),
  rebuilt bid ts b.bids v.bids,
  insert_all-asks ts (map resync_entry (flat b.asks)),
  rebuilt ask ts b.asks v.asks,
)
