-- ===== src/Strategy/Inventory.antt =====
-- The inventory that `run_strategy` of engine/src/main.rs keeps, against the trades of its
-- orders.
use high_frequency_market_ma.Prelude.{ℕ, ◌+◌, ◌^◌, ◌<◌, ◌≡◌, max, true, false, List, [], ◌∷◌, arith}
use high_frequency_market_ma.Prelude.Int.{
  ℤ, pos, ◌+ℤ◌, ◌-ℤ◌, pos_part, neg_part, one_part, +ℤ_parts, -ℤ_parts,
}
use high_frequency_market_ma.Prelude.Word.{wrap_i64, wrap_i64_of_IsI64}
use high_frequency_market_ma.Float.{Float}
use high_frequency_market_ma.Types.{
  Price, Qty, Side, bid, ask, MarketEvent, add, cancel, trade, SeqEvent,
}
use high_frequency_market_ma.Strategy.{
  Shadow, apply_to_book, our_part, our_trade, apply_event, drain,
}

-- How much our orders on one side traded in some events.
abbrev pub our_volume : Side → MarketEvent → ℕ
our_volume bid (trade id true bid price qty ts) = qty
our_volume ask (trade id true ask price qty ts) = qty
our_volume side e = 0

abbrev pub our_volumes : Side → List SeqEvent → ℕ
our_volumes side [] = 0
our_volumes side (e ∷ es) = our_volume side e.event + our_volumes side es

-- An inventory that is `bought` above and `sold` below another one.
abbrev pub IsMoved : ℤ → ℕ → ℕ → ℤ → Type 0
IsMoved a bought sold b = pos_part b + neg_part a + sold ≡ neg_part b + pos_part a + bought

module _ {ℓ} {F : Type ℓ} ⦃f : Float F⦄ where
  bought_lem :
      (s : Shadow F) (price : Price) (qty : Qty)
      → pos_part s.inventory + neg_part s.inventory + qty < 2 ^ 63
      → IsMoved s.inventory qty 0 (our_trade s bid price qty).inventory
  unfolding our_trade
  bought_lem s price qty h =
      let q : wrap_i64 (pos qty) ≡ pos qty = wrap_i64_of_IsI64 (pos qty) (omega arith) in
      let sum = +ℤ_parts s.inventory (pos qty) in
      let exact : wrap_i64 (s.inventory +ℤ pos qty) ≡ s.inventory +ℤ pos qty =
        wrap_i64_of_IsI64 _ (omega (arith, sum)) in
      rw (q, exact) (omega (arith, sum))

  sold_lem :
      (s : Shadow F) (price : Price) (qty : Qty)
      → pos_part s.inventory + neg_part s.inventory + qty < 2 ^ 63
      → IsMoved s.inventory 0 qty (our_trade s ask price qty).inventory
  unfolding our_trade
  sold_lem s price qty h =
      let q : wrap_i64 (pos qty) ≡ pos qty = wrap_i64_of_IsI64 (pos qty) (omega arith) in
      let sum = -ℤ_parts s.inventory (pos qty) in
      let exact : wrap_i64 (s.inventory -ℤ pos qty) ≡ s.inventory -ℤ pos qty =
        wrap_i64_of_IsI64 _ (omega (arith, sum)) in
      rw (q, exact) (omega (arith, sum))

  our_part-IsMoved :
      (s : Shadow F) (e : MarketEvent)
      → pos_part s.inventory + neg_part s.inventory + our_volume bid e + our_volume ask e < 2 ^ 63
      → IsMoved s.inventory (our_volume bid e) (our_volume ask e) (our_part s e).inventory
  our_part-IsMoved s (add id bid price qty ts true) h = omega arith
  our_part-IsMoved s (add id ask price qty ts true) h = omega arith
  our_part-IsMoved s (add id side price qty ts false) h = omega arith
  our_part-IsMoved s (cancel id side price ts) h = omega arith
  our_part-IsMoved s (trade id true bid price qty ts) h = bought_lem s price qty (omega arith)
  our_part-IsMoved s (trade id true ask price qty ts) h = sold_lem s price qty (omega arith)
  our_part-IsMoved s (trade id false bid price qty ts) h = omega arith
  our_part-IsMoved s (trade id false ask price qty ts) h = omega arith

  -- Where the size of the inventory and the quantities of our trades among some events come to
  -- less than 2 ^ 63, draining the events moves the inventory by what our bids bought less what
  -- our asks sold, whatever other events come between.
  pub drain-IsMoved :
      (es : List SeqEvent) (s : Shadow F)
      → pos_part s.inventory + neg_part s.inventory + our_volumes bid es + our_volumes ask es
        < 2 ^ 63
      → IsMoved s.inventory (our_volumes bid es) (our_volumes ask es) (drain s es).inventory
  unfolding drain apply_event
  drain-IsMoved [] s h = omega arith
  drain-IsMoved (e ∷ es) s h =
      let seen = record s {
        highest_seq_applied = max s.highest_seq_applied e.seq;
        shadow_book = apply_to_book s.shadow_book e.event;
      } in
      let one = our_part-IsMoved seen e.event (omega arith) in
      let rest =
        drain-IsMoved es (apply_event s e)
          (omega (arith, one, one_part (apply_event s e).inventory)) in
      omega (arith, one, rest)
