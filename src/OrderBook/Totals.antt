-- ===== src/OrderBook/Totals.antt =====
-- What a walk over one side of the book leaves behind: quantities, prices and well-formed levels.
use high_frequency_market_ma.Prelude.{
  ℕ, ◌+◌, ◌<◌, ◌≡◌, ◌≢◌, refl, Bool, true, false, [], ◌∷◌, is_empty, sum_by, sum_by-append, All,
  All-append, ◌==◌, Bool-cases, inl, inr, arith,
}
use high_frequency_market_ma.Types.{Price, Side, Fill}
use high_frequency_market_ma.OrderBook.{Queue, Levels}
use high_frequency_market_ma.OrderBook.Mirror.{flat}
use high_frequency_market_ma.OrderBook.Queues.{
  sweep, sweep-left, qty_of, filled, filled-sweep, All-sweep, All-sweep_fills,
}
use high_frequency_market_ma.OrderBook.Ends.{Level}
use high_frequency_market_ma.OrderBook.Walk.{walk}
use high_frequency_market_ma.OrderBook.Valid.{IsOrder, IsLevel}

abbrev pub resting : Levels → ℕ
resting m = sum_by qty_of (flat m)

-- Once a price is refused, so are all behind it.
abbrev pub Falls : (Price → Bool) → Levels → Type 0
Falls ok [] = Unit
Falls ok ((p, q) ∷ ls) = (ok p ≡ false → All (λ e. ok e.0 ≡ false) ls) × Falls ok ls

-- A fill at an accepted price, of a positive quantity, against the resting side.
abbrev pub Accepted : Side → (Price → Bool) → Fill → Type 0
Accepted rs ok f = (ok f.price ≡ true) × (0 < f.qty) × (f.side_of_resting_order ≡ rs)

module _ (rs : Side) (ok : Price → Bool) (ts : ℕ) where
  -- What is filled comes out of the order that is matched, and out of the side of the book.
  pub filled-walk :
      (ls : Levels) (r : ℕ)
      → let w = walk rs ok ts ls r in
        (filled w.fills + w.remaining ≡ r) × (filled w.fills + resting w.levels ≡ resting ls)
  unfolding walk
  filled-walk [] r = omega arith
  filled-walk ((p, q) ∷ ls) r =
      let m = sweep rs p ts q r in
      ground (
        arith,
        filled-sweep rs p ts q r,
        sweep-left rs p ts q r,
        filled-walk ls m.remaining,
        sum_by-append (λ (f : Fill). f.qty) m.fills (walk rs ok ts ls m.remaining).fills,
        sum_by-append qty_of q (flat ls),
        sum_by-append qty_of m.queue (flat ls),
      )

  -- A level that is left is a level that was there, with some of its queue.
  pub All-walk :
      (P : Level → Type 0)
      → ((p : Price) (q : Queue) (r : ℕ)
          → P (p, q)
          → is_empty (sweep rs p ts q r).queue ≡ false
          → P (p, (sweep rs p ts q r).queue))
      → (ls : Levels) (r : ℕ) → All P ls
      → All P (walk rs ok ts ls r).levels
  unfolding walk
  All-walk P keep [] r h = tt
  All-walk P keep ((p, q) ∷ ls) r h =
      let m = sweep rs p ts q r in
      ground (arith, keep p q r h.0, All-walk P keep ls m.remaining h.1)

  pub walk-IsLevel :
      (ls : Levels) (r : ℕ) → All (IsLevel rs) ls → All (IsLevel rs) (walk rs ok ts ls r).levels
  walk-IsLevel = All-walk (IsLevel rs) λ p q r l e. record {
    filled = e;
    orders =
        All-sweep rs p ts (IsOrder rs p) q r
          (λ o n lt i. record { side_eq = i.side_eq; price_eq = i.price_eq; qty_pos = omega arith })
          l.orders;
  }

  -- If some quantity is left, no level that is left would be accepted.
  pub walk-left :
      (ls : Levels) (r : ℕ)
      → Falls ok ls
      → (walk rs ok ts ls r).remaining ≢ 0
      → All (λ e. ok e.0 ≡ false) (walk rs ok ts ls r).levels
  unfolding walk
  walk-left [] r h n = tt
  walk-left ((p, q) ∷ ls) r h n =
      let m = sweep rs p ts q r in
      ground (arith, h.0, walk-left ls m.remaining h.1, sweep-left rs p ts q r)

  -- Every fill is accepted.
  pub walk-fills :
      (ls : Levels) (r : ℕ) → All (IsLevel rs) ls → All (Accepted rs ok) (walk rs ok ts ls r).fills
  unfolding walk
  walk-fills [] r h = tt
  walk-fills ((p, q) ∷ ls) r h =
      let m = sweep rs p ts q r in
      elim (Bool-cases (r == 0)) [
        | inl e ↦ rw e tt
        | inr e ↦ rw e (elim (Bool-cases (ok p)) [
          | inl c ↦ rw c (elim (Bool-cases (is_empty m.queue)) [
            | inl t ↦ rw t (All-append _ m.fills _ (here c) (walk-fills ls m.remaining h.1))
            | inr f ↦ rw f (here c)
          ])
          | inr c ↦ rw c tt
        ])
      ]
    where
      here : ok p ≡ true → All (Accepted rs ok) (sweep rs p ts q r).fills
      here c =
          All-sweep_fills rs p ts (IsOrder rs p) (Accepted rs ok) q r
            (λ o n le pos i. (c, pos i.qty_pos, refl)) h.0.orders
