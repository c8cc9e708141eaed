-- ===== src/OrderBook/Depth.antt =====
-- `depth_snapshot` of engine/src/orderbook.rs: the best levels of either side with what rests there.
use high_frequency_market_ma.Prelude.{
  ℕ, zero, suc, ◌%◌, ◌^◌, min, ◌≡◌, refl, ap, ◌∙◌, some, if◌then◌else◌, List, [], ◌∷◌, ◌++◌, map,
  reverse, reverse-cons, length, length-append, take, sum_by, All, All-append, All-reverse, All-zip,
  arith,
}
use high_frequency_market_ma.Prelude.Int.{◌<ℤ◌, eqb_ℤ, eqb_ℤ_self, lt→eqb_ℤ}
use high_frequency_market_ma.TreeMap.{get}
use high_frequency_market_ma.TreeMap.Order.{IsSorted}
use high_frequency_market_ma.Types.{Price, Qty, Side, bid, ask}
use high_frequency_market_ma.OrderBook.{OrderBook, Queue, Levels, book_of}
use high_frequency_market_ma.OrderBook.Mirror.{level_qty, level_total, depth_snapshot}
use high_frequency_market_ma.OrderBook.Queues.{qty_of}
use high_frequency_market_ma.OrderBook.Ends.{Level}
use high_frequency_market_ma.OrderBook.Valid.{IsValid, IsValid-book_of}

abbrev pub depth_of : Side → List (Price × Qty) × List (Price × Qty) → List (Price × Qty)
depth_of bid d = d.0
depth_of ask d = d.1

-- The levels of a side, best first.
abbrev pub best_first : Side → Levels → Levels
best_first bid m = reverse m
best_first ask m = m

abbrev pub Better : Side → Price → Price → Type 0
Better bid p q = q <ℤ p
Better ask p q = p <ℤ q

-- Each price is better than all behind it.
abbrev pub IsRanked {ℓ} : {V : Type ℓ} → Side → List (Price × V) → Type ℓ
IsRanked side [] = Unit
IsRanked side (l ∷ ls) = All (λ k. Better side l.0 k.0) ls × IsRanked side ls

abbrev pub price_of {ℓ} : {V : Type ℓ} → Price × V → Price
price_of (p, v) = p

-- What a snapshot shows of a side: as many levels as there are and as were asked for, best first,
-- each with all that rests there, and those that are left out are worse than all that it shows.
pub record Shows (side : Side) (n : ℕ) (m : Levels) (ls : List (Price × Qty)) : Type 0 where
  pub count : length ls ≡ min n (length m)
  pub ranked : IsRanked side ls
  pub totals : All (λ l. (q : Queue) × (get m l.0 ≡ some q) × (l.1 ≡ sum_by qty_of q % 2 ^ 64)) ls
  pub hidden : List Price
  pub split : map price_of (best_first side m) ≡ map price_of ls ++ hidden
  pub worse : All (λ p. All (λ l. Better side l.0 p) ls) hidden

level_qty_lem : (q : Queue) → level_qty q ≡ sum_by qty_of q % 2 ^ 64
unfolding level_qty
level_qty_lem [] = refl
level_qty_lem (o ∷ q) = omega (arith, level_qty_lem q)

All-get : (m : Levels) → IsSorted m → All (λ e. get m e.0 ≡ some e.1) m
unfolding get
All-get [] s = tt
All-get ((p, q) ∷ m) s = (
  rw (eqb_ℤ_self p) refl,
  All-zip (λ e. p <ℤ e.0) (λ e. get m e.0 ≡ some e.1)
      (λ e. (if eqb_ℤ p e.0 then some q else get m e.0) ≡ some e.1) m
      (λ e lt found. rw (lt→eqb_ℤ p e.0 lt) found) s.0 (All-get m s.1),
)

IsRanked-snoc :
    (side : Side) (m : Levels) (e : Level)
    → IsRanked side m
    → All (λ k. Better side k.0 e.0) m
    → IsRanked side (m ++ e ∷ [])
IsRanked-snoc side [] e r h = (tt, tt)
IsRanked-snoc side (l ∷ m) e r h =
    (All-append (λ k. Better side l.0 k.0) m (e ∷ []) r.0 (h.0, tt), IsRanked-snoc side m e r.1 h.1)

best_first-IsRanked : (side : Side) (m : Levels) → IsSorted m → IsRanked side (best_first side m)
best_first-IsRanked ask [] s = tt
best_first-IsRanked ask (e ∷ m) s = (s.0, best_first-IsRanked ask m s.1)
best_first-IsRanked bid [] s = tt
best_first-IsRanked bid (e ∷ m) s = rw (reverse-cons e m) (
    IsRanked-snoc bid (reverse m) e (best_first-IsRanked bid m s.1)
      (All-reverse (λ k. e.0 <ℤ k.0) m s.0))

module _ (side : Side) where
  All-take {κ} :
      (P : Level → Type κ) (Q : Price × Qty → Type κ)
      → ((e : Level) → P e → Q (level_total e))
      → (n : ℕ) (ls : Levels) → All P ls
      → All Q (map level_total (take n ls))
  All-take P Q f zero ls h = tt
  All-take P Q f (suc n) [] h = tt
  All-take P Q f (suc n) (l ∷ ls) (h, hs) = (f l h, All-take P Q f n ls hs)

  length-take : (n : ℕ) (ls : Levels) → length (map level_total (take n ls)) ≡ min n (length ls)
  length-take zero ls = omega arith
  length-take (suc n) [] = omega arith
  length-take (suc n) (l ∷ ls) = omega (arith, length-take n ls)

  take-IsRanked :
      (n : ℕ) (ls : Levels) → IsRanked side ls → IsRanked side (map level_total (take n ls))
  take-IsRanked zero ls r = tt
  take-IsRanked (suc n) [] r = tt
  take-IsRanked (suc n) (l ∷ ls) r = (
    All-take (λ k. Better side l.0 k.0) (λ k. Better side l.0 k.0) (λ e b. b) n ls r.0,
    take-IsRanked n ls r.1,
  )

  behind : (n : ℕ) (ls : Levels) → List Price
  behind zero ls = map price_of ls
  behind (suc n) [] = []
  behind (suc n) (l ∷ ls) = behind n ls

  take-split :
      (n : ℕ) (ls : Levels)
      → map price_of ls ≡ map price_of (map level_total (take n ls)) ++ behind n ls
  unfolding behind
  take-split zero ls = refl
  take-split (suc n) [] = refl
  take-split (suc n) ((p, q) ∷ ls) = ap (λ l. p ∷ l) (take-split n ls)

  All-behind :
      (P : Price → Type 0) (n : ℕ) (ls : Levels) → All (λ l. P l.0) ls → All P (behind n ls)
  unfolding behind
  All-behind P zero [] h = tt
  All-behind P zero (l ∷ ls) (h, hs) = (h, All-behind P zero ls hs)
  All-behind P (suc n) [] h = tt
  All-behind P (suc n) (l ∷ ls) (h, hs) = All-behind P n ls hs

  behind-worse :
      (n : ℕ) (ls : Levels)
      → IsRanked side ls
      → All (λ p. All (λ l. Better side l.0 p) (map level_total (take n ls))) (behind n ls)
  unfolding behind
  behind-worse zero [] r = tt
  behind-worse zero (l ∷ ls) r = (tt, behind-worse zero ls r.1)
  behind-worse (suc n) [] r = tt
  behind-worse (suc n) (l ∷ ls) r =
      All-zip (λ p. Better side l.0 p)
        (λ p. All (λ k. Better side k.0 p) (map level_total (take n ls)))
        (λ p. Better side l.0 p × All (λ k. Better side k.0 p) (map level_total (take n ls)))
        (behind n ls) (λ p b rest. (b, rest)) (All-behind (Better side l.0) n ls r.0)
        (behind-worse n ls r.1)

length-best_first : (side : Side) (m : Levels) → length (best_first side m) ≡ length m
length-best_first bid [] = refl
length-best_first bid (e ∷ m) =
    ap length (reverse-cons e m)
    ∙ omega (arith, length-append (reverse m) (e ∷ []), length-best_first bid m)
length-best_first ask m = refl

All-best_first {κ} :
    (P : Level → Type κ) (side : Side) (m : Levels) → All P m → All P (best_first side m)
All-best_first P bid m h = All-reverse P m h
All-best_first P ask m h = h

depth_of-snapshot :
    (side : Side) (b : OrderBook) (n : ℕ)
    → depth_of side (depth_snapshot b n)
      ≡ map level_total (take n (best_first side (book_of side b)))
unfolding depth_snapshot
depth_of-snapshot bid b n = refl
depth_of-snapshot ask b n = refl

-- On a well-formed book, the depth snapshot of n levels shows on either side as many levels as
-- there are, n at most, each better than those behind it and with the sum, modulo 2 ^ 64, of all
-- that rests there, and every level that it leaves out is worse than all that it shows.
pub depth_snapshot-Shows :
    (side : Side) {b : OrderBook} (n : ℕ)
    → IsValid b
    → Shows side n (book_of side b) (depth_of side (depth_snapshot b n))
depth_snapshot-Shows side {b} n v =
    let m = book_of side b in
    let sorted = (IsValid-book_of side v).sorted in
    let ranked = best_first-IsRanked side m sorted in
    rw (depth_of-snapshot side b n) (record {
      count = length-take side n (best_first side m) ∙ ap (min n) (length-best_first side m);
      ranked = take-IsRanked side n (best_first side m) ranked;
      totals =
          All-take side (λ e. get m e.0 ≡ some e.1) _ (λ e found. (e.1, found, level_qty_lem e.1)) n
            (best_first side m) (All-best_first _ side m (All-get m sorted));
      hidden = behind side n (best_first side m);
      split = take-split side n (best_first side m);
      worse = behind-worse side n (best_first side m) ranked;
    })
