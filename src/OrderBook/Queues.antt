-- ===== src/OrderBook/Queues.antt =====
-- What matching promises of one queue of orders, `sweep`, and that the inner `while` loop of
-- engine/src/orderbook.rs does it with the fuel that it is given.
use high_frequency_market_ma.Prelude.{
  ℕ, zero, suc, ◌+◌, ◌-◌, ◌≤◌, ◌<◌, ◌≡◌, refl, sym, ap, false, List, [], ◌∷◌, ◌++◌, append-nil,
  append_assoc, length, is_empty, sum_by, All, leb, ◌==◌, if◌then◌else◌, arith,
}
use high_frequency_market_ma.Types.{Price, Qty, Side, Order, Fill}
use high_frequency_market_ma.OrderBook.{Queue, Matched, fill_of, level_loop}

-- First come, first served: orders are taken whole while the quantity lasts, and the first that is
-- larger than what is left is cut down.
unfoldable pub sweep : Side → Price → ℕ → Queue → Qty → Matched
sweep side price ts [] r = record { queue = []; remaining = r; fills = [] }
sweep side price ts (o ∷ q) r =
    let m = sweep side price ts q (r - o.qty) in
    if r == 0
    then record { queue = o ∷ q; remaining = 0; fills = [] }
    else (if leb o.qty r
        then record m { fills = fill_of side price ts o o.qty ∷ m.fills }
        else record {
          queue = record o { qty = o.qty - r } ∷ q;
          remaining = 0;
          fills = fill_of side price ts o r ∷ [];
        })

abbrev pub qty_of : Order → ℕ
qty_of o = o.qty

abbrev pub filled : List Fill → ℕ
filled = sum_by (λ f. f.qty)

module _ (side : Side) (price : Price) (ts : ℕ) where
  level_loop-done :
      (fuel : ℕ) (q : Queue) (fs : List Fill)
      → level_loop fuel side price ts q 0 fs ≡ record { queue = q; remaining = 0; fills = fs }
  unfolding level_loop
  level_loop-done zero q fs = refl
  level_loop-done (suc fuel) [] fs = refl
  level_loop-done (suc fuel) (o ∷ q) fs = refl

  -- One round more of fuel than there are orders is enough for the loop to do what `sweep` does.
  pub level_loop_lem :
      (fuel : ℕ) (q : Queue) (r : ℕ) (fs : List Fill)
      → length q ≤ fuel
      → level_loop (suc fuel) side price ts q r fs
        ≡ (let m = sweep side price ts q r in record m { fills = fs ++ m.fills })
  unfolding level_loop sweep
  level_loop_lem fuel [] r fs h =
      ap (λ (g : List Fill). record { queue = []; remaining = r; fills = g }) (sym (append-nil fs))
  level_loop_lem zero (o ∷ q) r fs h = absurd (omega arith)
  level_loop_lem (suc fuel) (o ∷ q) r fs h = ground (
    arith,
    append-nil fs,
    append_assoc fs (fill_of side price ts o o.qty ∷ []) (sweep side price ts q (r - o.qty)).fills,
    level_loop_lem fuel q (r - o.qty) (fs ++ fill_of side price ts o o.qty ∷ []) (omega arith),
    level_loop-done (suc fuel) (record o { qty = o.qty - r } ∷ q)
        (fs ++ fill_of side price ts o r ∷ []),
  )

  pub sweep_none :
      (q : Queue) → sweep side price ts q 0 ≡ record { queue = q; remaining = 0; fills = [] }
  unfolding sweep
  sweep_none [] = refl
  sweep_none (o ∷ q) = refl

  -- A queue that is not emptied has taken all the quantity.
  pub sweep-left :
      (q : Queue) (r : ℕ)
      → is_empty (sweep side price ts q r).queue ≡ false
      → (sweep side price ts q r).remaining ≡ 0
  unfolding sweep
  sweep-left [] r h = cc
  sweep-left (o ∷ q) r h = ground (arith, sweep-left q (r - o.qty))

  -- What is filled comes out of the order that is matched, and out of the queue.
  pub filled-sweep :
      (q : Queue) (r : ℕ)
      → let m = sweep side price ts q r in
        (filled m.fills + m.remaining ≡ r)
        × (filled m.fills + sum_by qty_of m.queue ≡ sum_by qty_of q)
  unfolding sweep
  filled-sweep [] r = omega arith
  filled-sweep (o ∷ q) r = ground (arith, filled-sweep q (r - o.qty))

  pub All-sweep :
      (P : Order → Type 0) (q : Queue) (r : ℕ)
      → ((o : Order) (n : ℕ) → n < o.qty → P o → P (record o { qty = o.qty - n }))
      → All P q
      → All P (sweep side price ts q r).queue
  unfolding sweep
  All-sweep P [] r keep h = tt
  All-sweep P (o ∷ q) r keep h = ground (arith, All-sweep P q (r - o.qty) keep h.1, keep o r)

  pub All-sweep_fills :
      (P : Order → Type 0) (Q : Fill → Type 0) (q : Queue) (r : ℕ)
      → ((o : Order) (n : ℕ)
          → n ≤ o.qty
          → (0 < o.qty → 0 < n)
          → P o
          → Q (fill_of side price ts o n))
      → All P q
      → All Q (sweep side price ts q r).fills
  unfolding sweep
  All-sweep_fills P Q [] r made h = tt
  All-sweep_fills P Q (o ∷ q) r made h = ground (
    arith,
    All-sweep_fills P Q q (r - o.qty) made h.1,
    made o o.qty (omega arith) (λ lt. lt) h.0,
    λ (le : r ≤ o.qty) (gt : 0 < r). made o r le (λ _. gt) h.0,
  )
