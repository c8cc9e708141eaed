-- ===== src/OrderBook/Walk.antt =====
-- What matching promises of one side of the book, `walk`, and that the two outer loops of
-- engine/src/orderbook.rs do it.
use high_frequency_market_ma.Prelude.{
  ℕ, zero, suc, ◌≤◌, ◌≡◌, refl, sym, ap, ◌∙◌, Bool, true, false, List, [], ◌∷◌, ◌++◌, append-nil,
  append_assoc, length, is_empty, ◌==◌, if◌then◌else◌, Bool-cases, inl, inr, subst, ==→eq, arith,
}
use high_frequency_market_ma.TreeMap.{first_key, last_key}
use high_frequency_market_ma.TreeMap.Order.{IsSorted}
use high_frequency_market_ma.Types.{Price, Qty, Side, bid, ask, opposite, Fill}
use high_frequency_market_ma.OrderBook.{
  Queue, Levels, Sweep, visit_level, best_level, crosses, submit_loop, market_loop, price_levels,
}
use high_frequency_market_ma.OrderBook.Queues.{sweep, sweep-left, level_loop_lem}
use high_frequency_market_ma.OrderBook.Ends.{
  priority, top, top-cases, priority-top, priority-nil, length-top, best_level-top, IsSorted-top,
  get-top, put_level-top, IsSorted-top_set, price_levels-top, price_levels-nil,
}

-- Level by level from the best, as far as the price is accepted and the quantity lasts.
unfoldable pub walk : Side → (Price → Bool) → ℕ → Levels → Qty → Sweep
walk rs ok ts [] r = record { levels = []; remaining = r; fills = [] }
walk rs ok ts ((p, q) ∷ ls) r =
    let m = sweep rs p ts q r in
    let w = walk rs ok ts ls m.remaining in
    if r == 0
    then record { levels = (p, q) ∷ ls; remaining = 0; fills = [] }
    else (if ok p
        then (if is_empty m.queue
            then record w { fills = m.fills ++ w.fills }
            else record { levels = (p, m.queue) ∷ ls; remaining = 0; fills = m.fills })
        else record { levels = (p, q) ∷ ls; remaining = r; fills = [] })

-- A loop that began with the fills `fs` has done what `w` says.
pub record Agrees (side : Side) (fs : List Fill) (w : Sweep) (s : Sweep) : Type 0 where
  pub levels : priority side s.levels ≡ w.levels
  pub remaining : s.remaining ≡ w.remaining
  pub fills : s.fills ≡ fs ++ w.fills
  pub sorted : IsSorted s.levels

visit_level-top :
    (rs side : Side) (p : Price) (q : Queue) (m : Levels) (ts r : ℕ) (fs : List Fill)
    → IsSorted (top side (p, q) m)
    → let a = sweep rs p ts q r in
      visit_level rs p ts (record { levels = top side (p, q) m; remaining = r; fills = fs })
      ≡ record {
        levels = if is_empty a.queue then m else top side (p, a.queue) m;
        remaining = a.remaining;
        fills = fs ++ a.fills;
      }
unfolding visit_level
visit_level-top rs side p q m ts r fs s = rw (
  visit_level,
  get-top p q m side s,
  level_loop_lem rs p ts (length q) q r fs (omega arith),
  put_level-top p q m (sweep rs p ts q r).queue side s,
)

submit_loop-nil :
    (side : Side) (price : Price) (ts fuel r : ℕ) (fs : List Fill)
    → submit_loop fuel side price ts (record { levels = []; remaining = r; fills = fs })
      ≡ record { levels = []; remaining = r; fills = fs }
unfolding submit_loop best_level first_key last_key
submit_loop-nil side price ts zero r fs = refl
submit_loop-nil bid price ts (suc fuel) r fs = ground arith
submit_loop-nil ask price ts (suc fuel) r fs = ground arith

module _ (side : Side) (ts : ℕ) where
  walk_nil-Agrees :
      (rs : Side) (ok : Price → Bool) (r : ℕ) (fs : List Fill)
      → Agrees side fs
          (walk rs ok ts (priority side []) r)
          (record { levels = []; remaining = r; fills = fs })
  unfolding walk
  walk_nil-Agrees rs ok r fs = rw (priority-nil side) (record {
    levels = priority-nil side;
    remaining = refl;
    fills = sym (append-nil fs);
    sorted = tt;
  })

  submit_loop-done :
      (price : Price) (fuel : ℕ) (m : Levels) (fs : List Fill)
      → submit_loop fuel side price ts (record { levels = m; remaining = 0; fills = fs })
        ≡ record { levels = m; remaining = 0; fills = fs }
  unfolding submit_loop
  submit_loop-done price zero m fs = refl
  submit_loop-done price (suc fuel) m fs = refl

  submit_loop-top :
      (price : Price) (fuel : ℕ) (p : Price) (q : Queue) (m : Levels) (r : ℕ) (fs : List Fill)
      → IsSorted (top side (p, q) m)
      → let a = sweep (opposite side) p ts q r in
        let here : Sweep = record { levels = top side (p, q) m; remaining = r; fills = fs } in
        submit_loop (suc fuel) side price ts here ≡ (
          if r == 0
          then here
          else (if crosses side price p
              then submit_loop fuel side price ts (record {
                levels = if is_empty a.queue then m else top side (p, a.queue) m;
                remaining = a.remaining;
                fills = fs ++ a.fills;
              })
              else here))
  unfolding submit_loop
  submit_loop-top price fuel p q m r fs s = elim (Bool-cases (r == 0)) [
    | inl e ↦ rw e
    | inr e ↦
        rw (e, best_level-top p q m side)
          (elim (Bool-cases (crosses side price p)) [
            | inl c ↦ rw (c, visit_level-top (opposite side) side p q m ts r fs s)
            | inr c ↦ rw c
          ])
  ]

  -- What `walk` says of a side with a best level, once the loop has visited that level.
  walk-top-Agrees :
      (rs : Side) (ok : Price → Bool) (p : Price) (q : Queue) (m : Levels) (r : ℕ) (fs : List Fill)
      (after : Sweep)
      → IsSorted (top side (p, q) m)
      → let a = sweep rs p ts q r in
        let here : Sweep = record { levels = top side (p, q) m; remaining = r; fills = fs } in
        (is_empty a.queue ≡ true
          → Agrees side (fs ++ a.fills) (walk rs ok ts (priority side m) a.remaining) after)
        → (is_empty a.queue ≡ false
            → after ≡ record {
              levels = top side (p, a.queue) m;
              remaining = a.remaining;
              fills = fs ++ a.fills;
            })
        → Agrees side fs
            (walk rs ok ts (priority side (top side (p, q) m)) r)
            (if r == 0 then here else (if ok p then after else here))
  unfolding walk
  walk-top-Agrees rs ok p q m r fs after s emptied left =
      rw (priority-top side (p, q) m) (elim (Bool-cases (r == 0)) [
        | inl e ↦ rw e (record {
          levels = priority-top side (p, q) m;
          remaining = ==→eq r 0 e;
          fills = sym (append-nil fs);
          sorted = s;
        })
        | inr e ↦ rw e (elim (Bool-cases (ok p)) [
          | inl c ↦ rw c (elim (Bool-cases (is_empty (sweep rs p ts q r).queue)) [
            | inl t ↦ rw t (record {
              levels = (emptied t).levels;
              remaining = (emptied t).remaining;
              fills = (emptied t).fills ∙ append_assoc fs _ _;
              sorted = (emptied t).sorted;
            })
            | inr f ↦
                rw (f, left f)
                  (record {
                    levels = priority-top side (p, (sweep rs p ts q r).queue) m;
                    remaining = sweep-left rs p ts q r f;
                    fills = refl;
                    sorted = IsSorted-top_set p q m (sweep rs p ts q r).queue side s;
                  })
          ])
          | inr c ↦ rw c (record {
            levels = priority-top side (p, q) m;
            remaining = refl;
            fills = sym (append-nil fs);
            sorted = s;
          })
        ])
      ])

  -- With a round of fuel for each level and one more, the loop of `submit_limit_order` does what
  -- `walk` says.
  pub submit_loop_lem :
      (price : Price) (fuel : ℕ) (m : Levels) (r : ℕ) (fs : List Fill)
      → length m ≤ fuel
      → IsSorted m
      → Agrees side fs
          (walk (opposite side) (crosses side price) ts (priority side m) r)
          (submit_loop (suc fuel) side price ts (record { levels = m; remaining = r; fills = fs }))
  submit_loop_lem price zero m r fs h s = elim (top-cases side m) [
    | inl e ↦ rw (e, submit_loop-nil side price ts 1 r fs) (walk_nil-Agrees _ _ r fs)
    | inr (p, q, rest, e) ↦ absurd (omega (arith, length-top side (p, q) rest, ap length e))
  ]
  submit_loop_lem price (suc fuel) m r fs h s = elim (top-cases side m) [
    | inl e ↦ rw (e, submit_loop-nil side price ts (suc (suc fuel)) r fs) (walk_nil-Agrees _ _ r fs)
    | inr (p, q, rest, e) ↦
        let s' = subst IsSorted e s in
        let a = sweep (opposite side) p ts q r in
        rw (e, submit_loop-top price (suc fuel) p q rest r fs s')
          (walk-top-Agrees _ _ p q rest r fs _ s'
            (λ t. rw t (
              submit_loop_lem price fuel rest a.remaining (fs ++ a.fills)
                (omega (arith, length-top side (p, q) rest, ap length e))
                (IsSorted-top p q rest side s')))
            (λ f.
              rw (f, sweep-left (opposite side) p ts q r f)
                (submit_loop-done price (suc fuel) _ _)))
  ]

  market_loop-done :
      (ps : List Price) (m : Levels) (fs : List Fill)
      → market_loop ps (opposite side) ts (record { levels = m; remaining = 0; fills = fs })
        ≡ record { levels = m; remaining = 0; fills = fs }
  unfolding market_loop
  market_loop-done [] m fs = refl
  market_loop-done (p ∷ ps) m fs = refl

  market_loop-nil :
      (r : ℕ) (fs : List Fill)
      → market_loop
          (price_levels side [])
          (opposite side)
          ts
          (record { levels = []; remaining = r; fills = fs })
        ≡ record { levels = []; remaining = r; fills = fs }
  unfolding market_loop
  market_loop-nil r fs = rw (price_levels-nil side)

  market_loop-top :
      (p : Price) (q : Queue) (m : Levels) (r : ℕ) (fs : List Fill)
      → IsSorted (top side (p, q) m)
      → let a = sweep (opposite side) p ts q r in
        let here : Sweep = record { levels = top side (p, q) m; remaining = r; fills = fs } in
        market_loop (price_levels side (top side (p, q) m)) (opposite side) ts here ≡ (
          if r == 0
          then here
          else market_loop (price_levels side m) (opposite side) ts (record {
            levels = if is_empty a.queue then m else top side (p, a.queue) m;
            remaining = a.remaining;
            fills = fs ++ a.fills;
          }))
  unfolding market_loop
  market_loop-top p q m r fs s = rw (
    price_levels-top side p q m,
    market_loop,
    visit_level-top (opposite side) side p q m ts r fs s,
  )

  -- Visiting the levels that were listed before the walk does what `walk` says, with no limit.
  pub market_loop_lem :
      (n : ℕ) (m : Levels) (r : ℕ) (fs : List Fill)
      → length m ≤ n
      → IsSorted m
      → Agrees side fs (walk (opposite side) (λ _. true) ts (priority side m) r) (
          market_loop
            (price_levels side m)
            (opposite side)
            ts
            (record { levels = m; remaining = r; fills = fs }))
  market_loop_lem zero m r fs h s = elim (top-cases side m) [
    | inl e ↦ rw (e, market_loop-nil r fs) (walk_nil-Agrees _ _ r fs)
    | inr (p, q, rest, e) ↦ absurd (omega (arith, length-top side (p, q) rest, ap length e))
  ]
  market_loop_lem (suc n) m r fs h s = elim (top-cases side m) [
    | inl e ↦ rw (e, market_loop-nil r fs) (walk_nil-Agrees _ _ r fs)
    | inr (p, q, rest, e) ↦
        let s' = subst IsSorted e s in
        let a = sweep (opposite side) p ts q r in
        rw (e, market_loop-top p q rest r fs s')
          (walk-top-Agrees _ (λ _. true) p q rest r fs _ s'
            (λ t. rw t (
              market_loop_lem n rest a.remaining (fs ++ a.fills)
                (omega (arith, length-top side (p, q) rest, ap length e))
                (IsSorted-top p q rest side s')))
            (λ f. rw (f, sweep-left (opposite side) p ts q r f) (market_loop-done _ _ _)))
  ]
