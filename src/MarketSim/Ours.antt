-- ===== src/MarketSim/Ours.antt =====
-- The strategy's own orders in the book of engine/src/market_sim.rs: what the exchange has on record
-- of them, and that a cancellation of all quotes leaves none.
use high_frequency_market_ma.Prelude.{
  ℕ, suc, ◌^◌, ◌<◌, ◌≤◌, ◌≡◌, refl, sym, ap, ◌∙◌, Bool, true, false, Option, none, some, ltb,
  if◌then◌else◌, Bool-cases, Option-cases, inl, inr, arith,
}
use mathlib.Core.Option
use high_frequency_market_ma.Prelude.Word.{add_u64}
use high_frequency_market_ma.Types.{Price, Qty, OrderId, Side, bid, ask, opposite}
use high_frequency_market_ma.OrderBook.{
  OrderBook, submit_limit_order, cancel_order, execute_market_order,
}
use high_frequency_market_ma.OrderBook.Queues.{filled}
use high_frequency_market_ma.OrderBook.Valid.{IsValid}
use high_frequency_market_ma.OrderBook.Cancel.{cancel_order-IsValid}
use high_frequency_market_ma.OrderBook.Submit.{
  submit_limit_order-IsValid, submit_limit_order-filled,
}
use high_frequency_market_ma.OrderBook.Market.{execute_market_order-IsValid}
use high_frequency_market_ma.OrderBook.Marks.{
  entering, submit_limit_order-tally_met, submit_limit_order-tally_own, cancel_order-tally_other,
  cancel_order-tally_own, execute_market_order-tally_own, execute_market_order-tally_met,
}
use high_frequency_market_ma.MarketSim.{
  Exchange, sum_qty, cancel_and_emit, submit_and_emit, cancel_existing, noise_order,
}
use high_frequency_market_ma.MarketSim.Keeps.{Keeps}
use high_frequency_market_ma.MarketSim.Log.{sum_qty_lem}
use high_frequency_market_ma.MarketSim.Tracked.{
  Tracked, Tracked-fewer, Tracked-later, Tracked-foreign, Tracked-own, Tracked-cancelled,
}

-- What is on record for either side.
abbrev pub Records : Type 0
Records = Side → Option (OrderId × Price)

-- As long as fewer than 2 ^ 64 orders have been given an identifier, which `reads` bounds.
pub record Known (r : Records) (x : Exchange) : Type 0 where
  pub valid : IsValid x.book
  pub counted : x.id_gen ≤ x.reads
  pub tracked : (side : Side) → Tracked (r side) x.id_gen side x.book

abbrev pub Ours : Records → Exchange → Type 0
Ours r x = x.reads < 2 ^ 64 → Known r x

both_sides : (P : Side → Type 0) (side : Side) → P side → P (opposite side) → (t : Side) → P t
both_sides P bid p q bid = p
both_sides P bid p q ask = q
both_sides P ask p q bid = q
both_sides P ask p q ask = p

abbrev pub on_record : Option OrderId → Price → Option (OrderId × Price)
on_record id price = Option.map {B = OrderId × Price} (λ i. (i, price)) id

on_record-if :
    (c : Bool) (id : OrderId) (price : Price)
    → on_record (if c then some id else none) price ≡ (if c then some (id, price) else none)
on_record-if true id price = refl
on_record-if false id price = refl

module _ (now : ℕ → ℕ) (lost : ℕ → Bool) where
  -- The exchange after a cancellation, whether it was found or not.
  cancelled :
      (x : Exchange) (side : Side) (price : Price) (id : OrderId)
      → let x' = cancel_and_emit now lost x side price id in
        (x'.book ≡ (cancel_order x.book side price id).0)
        × (x'.id_gen ≡ x.id_gen)
        × (x.reads ≤ x'.reads)
  unfolding cancel_and_emit
  cancelled x side price id = elim (Bool-cases (cancel_order x.book side price id).1) [
    | inl e ↦ rw e (refl, refl, omega arith)
    | inr e ↦ rw e (refl, refl, omega arith)
  ]

  cancel_and_emit-Ours :
      (r : Records) (x : Exchange) (side : Side) (price : Price) (id : OrderId)
      → Ours r x
      → Ours r (cancel_and_emit now lost x side price id)
  cancel_and_emit-Ours r x side price id h in_time =
      let (book, same, later) = cancelled x side price id in
      let k = h (omega (arith, in_time, later)) in
      record {
        valid = rw book (cancel_order-IsValid side price id k.valid);
        counted = omega (arith, k.counted, same, later);
        tracked =
            rw (book, same)
              (both_sides (λ t. Tracked (r t) x.id_gen t (cancel_order x.book side price id).0) side
                (Tracked-fewer (k.tracked side)
                  (λ w blind. cancel_order-tally_own w blind k.valid side price id))
                (Tracked-fewer (k.tracked (opposite side)) (λ w blind.
                  omega (arith, cancel_order-tally_other w blind k.valid side price id))));
      }

  -- The cancellation of the order on record for a side.
  pub cancel_existing-Ours :
      (r r' : Records) (x : Exchange) (side : Side)
      → Ours r x
      → r' side ≡ none
      → r' (opposite side) ≡ r (opposite side)
      → Ours r' (cancel_existing now lost x side (r side))
  unfolding cancel_existing
  cancel_existing-Ours r r' x side h gone kept = elim (Option-cases (r side)) [
    | inl e ↦ rw e (λ in_time.
        let k = h in_time in
        record {
          valid = k.valid;
          counted = k.counted;
          tracked =
              both_sides (λ t. Tracked (r' t) x.id_gen t x.book) side
                (rw (gone, sym e) (k.tracked side)) (rw kept (k.tracked (opposite side)));
        })
    | inr ((id, price), e) ↦ rw e (λ in_time.
        let (book, same, later) = cancelled x side price id in
        let k = h (omega (arith, in_time, later)) in
        let o = cancel_and_emit-Ours r x side price id h in_time in
        record {
          valid = o.valid;
          counted = o.counted;
          tracked =
              both_sides (λ t. Tracked (r' t) _ t _) side
                (rw (gone, book, same)
                  (Tracked-cancelled (id, price) k.valid (rw e at (k.tracked side))))
                (rw kept (o.tracked (opposite side)));
        })
  ]

  -- The exchange after a limit order, and the identifier of what has come to rest of it.
  submitted :
      (x : Exchange) (id : OrderId) (side : Side) (price : Price) (qty : Qty) (ours : Bool)
      → add_u64 x.id_gen 1 ≡ id
      → qty < 2 ^ 64
      → IsValid x.book
      → let (b, fills) = submit_limit_order x.book id side price qty (now x.reads) ours in
        let (x', rested) = submit_and_emit now lost x side price qty ours in
        (x'.book ≡ b)
        × (x'.id_gen ≡ id)
        × (rested ≡ (if ltb (filled fills) qty then some id else none))
  unfolding submit_and_emit
  submitted x id side price qty ours next fits v =
      let fills = (submit_limit_order x.book id side price qty (now x.reads) ours).1 in
      let small = submit_limit_order-filled side price qty (now x.reads) v id ours in
      let sum : sum_qty fills ≡ filled fills = omega (arith, sum_qty_lem fills, small, fits) in
      elim (Bool-cases (ltb (filled fills) qty)) [
        | inl e ↦ rw (next, sum, e) (refl, refl, refl)
        | inr e ↦ rw (next, sum, e) (refl, refl, refl)
      ]

  submit_and_emit-reads :
      (x : Exchange) (side : Side) (price : Price) (qty : Qty) (ours : Bool)
      → suc x.reads ≤ (submit_and_emit now lost x side price qty ours).0.reads
  unfolding submit_and_emit
  submit_and_emit-reads x side price qty ours =
      let id = add_u64 x.id_gen 1 in
      let fills = (submit_limit_order x.book id side price qty (now x.reads) ours).1 in
      elim (Bool-cases (ltb (sum_qty fills) qty)) [
        | inl e ↦ rw e (omega arith)
        | inr e ↦ rw e (omega arith)
      ]

  -- The opposite side after a limit order.
  met-Tracked :
      {r : Option (OrderId × Price)} {last : OrderId} {b : OrderBook} (id : OrderId) (side : Side)
      (price : Price) (qty : Qty) (ts : ℕ) (ours : Bool)
      → IsValid b
      → Tracked r last (opposite side) b
      → Tracked r (suc last) (opposite side) (submit_limit_order b id side price qty ts ours).0
  met-Tracked id side price qty ts ours v t = Tracked-later (
      Tracked-fewer t (λ w blind. submit_limit_order-tally_met w blind v id side price qty ts ours))

  submit_background-Ours :
      (r : Records) (x : Exchange) (side : Side) (price : Price) (qty : Qty) (ours : Bool)
      → (ours ≡ false) × (qty < 2 ^ 64)
      → Ours r x
      → Ours r (submit_and_emit now lost x side price qty ours).0
  submit_background-Ours r x side price qty ours (theirs, fits) h in_time =
      let later = submit_and_emit-reads x side price qty ours in
      let k = h (omega (arith, in_time, later)) in
      let ts = now x.reads in
      let next : add_u64 x.id_gen 1 ≡ suc x.id_gen = omega (arith, in_time, later, k.counted) in
      let id = suc x.id_gen in
      let (book, id_gen, _) = submitted x id side price qty ours next fits k.valid in
      let fills = (submit_limit_order x.book id side price qty ts ours).1 in
      record {
        valid = rw book (submit_limit_order-IsValid side price qty ts k.valid id ours);
        counted = omega (arith, k.counted, id_gen, later);
        tracked =
            rw (book, id_gen)
              (both_sides
                (λ t. Tracked (r t) id t (submit_limit_order x.book id side price qty ts ours).0)
                side
                (Tracked-foreign (k.tracked side) (ltb (filled fills) qty)
                  (entering id side price qty ts ours) refl theirs
                  (λ w blind.
                    submit_limit_order-tally_own w blind k.valid id side price qty ts ours))
                (met-Tracked id side price qty ts ours k.valid (k.tracked (opposite side))));
      }

  -- An order of the strategy on a side where it has none.
  pub submit_own-Ours :
      (r r' : Records) (x : Exchange) (side : Side) (price : Price) (qty : Qty)
      → qty < 2 ^ 64
      → Ours r x
      → r side ≡ none
      → r' side ≡ on_record (submit_and_emit now lost x side price qty true).1 price
      → r' (opposite side) ≡ r (opposite side)
      → Ours r' (submit_and_emit now lost x side price qty true).0
  submit_own-Ours r r' x side price qty fits h free taken kept in_time =
      let later = submit_and_emit-reads x side price qty true in
      let k = h (omega (arith, in_time, later)) in
      let ts = now x.reads in
      let next : add_u64 x.id_gen 1 ≡ suc x.id_gen = omega (arith, in_time, later, k.counted) in
      let id = suc x.id_gen in
      let (book, id_gen, rested) = submitted x id side price qty true next fits k.valid in
      let fills = (submit_limit_order x.book id side price qty ts true).1 in
      let rests = ltb (filled fills) qty in
      let recorded : r' side ≡ (if rests then some (id, price) else none) =
        taken ∙ ap (λ i. on_record i price) rested ∙ on_record-if rests id price in
      record {
        valid = rw book (submit_limit_order-IsValid side price qty ts k.valid id true);
        counted = omega (arith, k.counted, id_gen, later);
        tracked =
            rw (book, id_gen)
              (both_sides
                (λ t. Tracked (r' t) id t (submit_limit_order x.book id side price qty ts true).0)
                side
                (rw recorded (
                  Tracked-own rests price (entering id side price qty ts true)
                    (rw free at (k.tracked side)) refl refl
                    (λ w blind.
                      submit_limit_order-tally_own w blind k.valid id side price qty ts true)))
                (rw kept
                  (met-Tracked id side price qty ts true k.valid (k.tracked (opposite side)))));
      }

  noise_order-Ours :
      (r : Records) (x : Exchange) (side : Side) (qty : Qty)
      → Ours r x
      → Ours r (noise_order now lost x side qty)
  unfolding noise_order
  noise_order-Ours r x side qty h in_time =
      let ts = now x.reads in
      let k = h (omega (arith, in_time)) in
      record {
        valid = execute_market_order-IsValid side qty ts k.valid;
        counted = omega (arith, k.counted);
        tracked =
            both_sides (λ t. Tracked (r t) _ t (execute_market_order x.book side qty ts).0) side
              (Tracked-fewer (k.tracked side) (λ w blind.
                omega (arith, execute_market_order-tally_own w blind k.valid side qty ts)))
              (Tracked-fewer (k.tracked (opposite side))
                (λ w blind. execute_market_order-tally_met w blind k.valid side qty ts));
      }

  -- What the exchange does but for the commands: background orders and noise.
  pub ours_kept :
      (r : Records) → Keeps now lost (λ ours qty. (ours ≡ false) × (qty < 2 ^ 64)) (Ours r)
  ours_kept r = record {
    cancels = cancel_and_emit-Ours r;
    submits = submit_background-Ours r;
    trades = noise_order-Ours r;
  }
