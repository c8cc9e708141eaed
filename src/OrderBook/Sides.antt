-- ===== src/OrderBook/Sides.antt =====
-- A side of the book read in its order of priority: what carries over from one reading to the other.
use mathlib.Core.List.{reverse-reverse}
use high_frequency_market_ma.Prelude.{
  ℕ, Bool, ◌+◌, ◌≡◌, refl, subst, ap, ◌∙◌, true, false, [], ◌∷◌, ◌++◌, reverse, reverse-cons,
  append_assoc, sum_by, sum_by-append, All, All-map, All-reverse, All-append, arith, inl, inr,
  unwrap_or,
}
use high_frequency_market_ma.Prelude.Int.{
  ℤ-trichotomy, lt→ltb_ℤ, gt→eqb_ℤ, ge→ltb_ℤ, lt→eqb_ℤ, eqb_ℤ_self,
}
use high_frequency_market_ma.TreeMap.{get, insert}
use high_frequency_market_ma.TreeMap.Order.{IsSorted, Above-trans, get-Above}
use high_frequency_market_ma.Types.{Price, Side, bid, ask, Order}
use high_frequency_market_ma.OrderBook.{Queue, Levels, crosses, push_order}
use high_frequency_market_ma.OrderBook.Mirror.{flat}
use high_frequency_market_ma.OrderBook.Queues.{qty_of}
use high_frequency_market_ma.OrderBook.Ends.{Level, priority}
use high_frequency_market_ma.OrderBook.Totals.{resting, Falls}

module _ {κ} (P : Level → Type κ) where
  pub All-priority : (side : Side) (m : Levels) → All P m → All P (priority side m)
  All-priority bid m h = h
  All-priority ask m h = All-reverse P m h

  pub All-of_priority : (side : Side) (m : Levels) → All P (priority side m) → All P m
  All-of_priority bid m h = h
  All-of_priority ask m h = subst (All P) (reverse-reverse m) (All-reverse P (reverse m) h)

pub flat-append : (xs ys : Levels) → flat (xs ++ ys) ≡ flat xs ++ flat ys
flat-append [] ys = refl
flat-append ((p, q) ∷ xs) ys = rw (flat-append xs ys, append_assoc)

-- A sum over the orders of a side, in any weight of an order.
module _ (w : Order → ℕ) where
  sum_flat-append :
      (xs ys : Levels) → sum_by w (flat (xs ++ ys)) ≡ sum_by w (flat xs) + sum_by w (flat ys)
  sum_flat-append xs ys = ap (sum_by w) (flat-append xs ys) ∙ sum_by-append w (flat xs) (flat ys)

  pub sum_flat-priority :
      (side : Side) (m : Levels) → sum_by w (flat (priority side m)) ≡ sum_by w (flat m)
  sum_flat-priority bid m = refl
  sum_flat-priority ask [] = refl
  sum_flat-priority ask ((p, q) ∷ m) = omega (
    arith,
    ap (λ l. sum_by w (flat l)) (reverse-cons (p, q) m),
    sum_flat-append (reverse m) ((p, q) ∷ []),
    sum_flat-priority ask m,
    sum_by-append w q [],
    sum_by-append w q (flat m),
  )

  sum_flat-insert :
      (p : Price) (q : Queue) (m : Levels)
      → IsSorted m
      → sum_by w (flat (insert p q m)) + sum_by w (unwrap_or (get m p) [])
        ≡ sum_by w (flat m) + sum_by w q
  unfolding insert get
  sum_flat-insert p q [] s = omega (arith, sum_by-append w q [])
  sum_flat-insert p q ((j, v) ∷ m) s = elim (ℤ-trichotomy p j) [
    | inl lt ↦
        rw (lt→ltb_ℤ p j lt, gt→eqb_ℤ j p lt, get-Above p m (Above-trans p j m lt s.0))
          (omega (arith, sum_by-append w q (v ++ flat m)))
    | inr (inl e) ↦
        rw (e, ge→ltb_ℤ j j (omega arith), eqb_ℤ_self j)
          (omega (arith, sum_by-append w q (flat m), sum_by-append w v (flat m)))
    | inr (inr gt) ↦
        rw (ge→ltb_ℤ p j (omega arith), lt→eqb_ℤ j p gt)
          (omega (
            arith,
            sum_flat-insert p q m s.1,
            sum_by-append w v (flat m),
            sum_by-append w v (flat (insert p q m)),
          ))
  ]

  pub sum_flat-push_order :
      (o : Order) (m : Levels)
      → IsSorted m
      → sum_by w (flat (push_order o m)) ≡ sum_by w (flat m) + w o
  unfolding push_order
  sum_flat-push_order o m s =
      let old = unwrap_or (get m o.price) [] in
      omega (arith, sum_flat-insert o.price (old ++ o ∷ []) m s, sum_by-append w old (o ∷ []))

pub resting-priority : (side : Side) (m : Levels) → resting (priority side m) ≡ resting m
resting-priority = sum_flat-priority qty_of

-- An order that comes to rest adds its quantity to the side.
pub resting-push_order :
    (o : Order) (m : Levels) → IsSorted m → resting (push_order o m) ≡ resting m + o.qty
resting-push_order = sum_flat-push_order qty_of

Falls-snoc :
    (ok : Price → Bool) (p : Price) (q : Queue) (ls : Levels)
    → All (λ e. ok e.0 ≡ false → ok p ≡ false) ls
    → Falls ok ls
    → Falls ok (ls ++ (p, q) ∷ [])
Falls-snoc ok p q [] a f = (λ _. tt, tt)
Falls-snoc ok p q (e ∷ ls) a f =
    (λ h. All-append _ ls _ (f.0 h) (a.0 h, tt), Falls-snoc ok p q ls a.1 f.1)

-- Behind a price that a limit order does not reach, it reaches none.
pub Falls-priority :
    (side : Side) (price : Price) (m : Levels)
    → IsSorted m
    → Falls (crosses side price) (priority side m)
Falls-priority bid price [] s = tt
Falls-priority bid price ((p, q) ∷ m) s =
    (λ h. All-map _ _ m (λ e lt. ground arith) s.0, Falls-priority bid price m s.1)
Falls-priority ask price [] s = tt
Falls-priority ask price ((p, q) ∷ m) s = rw (reverse-cons (p, q) m) (
    Falls-snoc _ p q (reverse m) (All-reverse _ m (All-map _ _ m (λ e lt h. ground arith) s.0))
      (Falls-priority ask price m s.1))

pub Falls-always : (ls : Levels) → Falls (λ _. true) ls
Falls-always [] = tt
Falls-always (e ∷ ls) = (λ h. cc, Falls-always ls)
