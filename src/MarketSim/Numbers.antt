-- ===== src/MarketSim/Numbers.antt =====
-- The sequence numbers that the exchange of engine/src/market_sim.rs gives to its packets.
use high_frequency_market_ma.Prelude.{
  ℕ, suc, ◌+◌, ◌^◌, ◌%◌, ◌≡◌, refl, Bool, List, [], ◌∷◌, ◌++◌, map, length, length-append, ltb,
  Bool-cases, inl, inr, arith,
}
use high_frequency_market_ma.Prelude.Word.{add_u64, sub_u64}
use high_frequency_market_ma.Types.{Price, Qty, OrderId, Side, MarketEvent, add, cancel, FeedPacket}
use high_frequency_market_ma.OrderBook.{submit_limit_order, cancel_order, execute_market_order}
use high_frequency_market_ma.MarketSim.{
  FeedSender, Exchange, Round, fill_to_trade_event, sum_qty, emit, emit_each, cancel_and_emit,
  submit_and_emit, noise_order, run_sim,
}
use high_frequency_market_ma.MarketSim.Keeps.{Keeps, any_round, run_sim-Keeps}
use high_frequency_market_ma.MarketSim.Log.{no_loss}

-- The numbers are those from `n` on, as a u64 counts.
abbrev pub IsNumbered : ℕ → List FeedPacket → Type 0
IsNumbered n [] = Unit
IsNumbered n (p ∷ ps) = (p.seq ≡ n % 2 ^ 64) × IsNumbered (suc n) ps

-- A feed that has numbered all of its packets from 0, and the next one by their count.
abbrev pub Numbered : FeedSender → Type 0
Numbered feed = (feed.seq ≡ length feed.sent % 2 ^ 64) × IsNumbered 0 feed.sent

IsNumbered-snoc :
    (n : ℕ) (ps : List FeedPacket) (p : FeedPacket)
    → IsNumbered n ps
    → p.seq ≡ (n + length ps) % 2 ^ 64
    → IsNumbered n (ps ++ p ∷ [])
IsNumbered-snoc n [] p h e = (omega (arith, e), tt)
IsNumbered-snoc n (q ∷ ps) p h e = (h.0, IsNumbered-snoc (suc n) ps p h.1 (omega (arith, e)))

module _ (now : ℕ → ℕ) where
  emit-Numbered :
      (feed : FeedSender) (e : MarketEvent) → Numbered feed → Numbered (emit now no_loss feed e)
  unfolding emit
  emit-Numbered feed e (next, numbers) =
      let p : FeedPacket = record { seq = feed.seq; event = e } in
      (
        omega (arith, next, length-append feed.sent (p ∷ [])),
        IsNumbered-snoc 0 feed.sent p numbers (omega (arith, next)),
      )

  emit_each-Numbered :
      (es : List MarketEvent) (feed : FeedSender)
      → Numbered feed
      → Numbered (emit_each now no_loss feed es)
  unfolding emit_each
  emit_each-Numbered [] feed h = h
  emit_each-Numbered (e ∷ es) feed h = emit_each-Numbered es _ (emit-Numbered feed e h)

  cancel_and_emit-Numbered :
      (x : Exchange) (side : Side) (price : Price) (id : OrderId)
      → Numbered x.feed
      → Numbered (cancel_and_emit now no_loss x side price id).feed
  unfolding cancel_and_emit
  cancel_and_emit-Numbered x side price id h =
      elim (Bool-cases (cancel_order x.book side price id).1) [
        | inl e ↦ rw e (emit-Numbered x.feed (cancel id side price (now x.reads)) h)
        | inr e ↦ rw e h
      ]

  submit_and_emit-Numbered :
      (x : Exchange) (side : Side) (price : Price) (qty : Qty) (ours : Bool)
      → Numbered x.feed
      → Numbered (submit_and_emit now no_loss x side price qty ours).0.feed
  unfolding submit_and_emit
  submit_and_emit-Numbered x side price qty ours h =
      let id = add_u64 x.id_gen 1 in
      let fills = (submit_limit_order x.book id side price qty (now x.reads) ours).1 in
      let trades = emit_each-Numbered (map fill_to_trade_event fills) x.feed h in
      let left = sub_u64 qty (sum_qty fills) in
      elim (Bool-cases (ltb (sum_qty fills) qty)) [
        | inl e ↦ rw e (emit-Numbered _ (add id side price left (now (suc x.reads)) ours) trades)
        | inr e ↦ rw e trades
      ]

  numbered : Keeps now no_loss (λ _ _. Unit) (λ x. Numbered x.feed)
  unfolding noise_order
  numbered = record {
    cancels = cancel_and_emit-Numbered;
    submits = λ x side price qty ours _ h. submit_and_emit-Numbered x side price qty ours h;
    trades = λ x side qty h.
        emit_each-Numbered
          (map fill_to_trade_event (execute_market_order x.book side qty (now x.reads)).1) x.feed h;
  }

  pub run_sim-Numbered :
      (background_qty noise_qty : Qty) (levels : ℕ) (start : Price) (rs : List Round)
      → Numbered (run_sim now no_loss background_qty noise_qty levels start rs).exchange.feed
  run_sim-Numbered background_qty noise_qty levels start rs =
      run_sim-Keeps now no_loss numbered background_qty noise_qty tt levels start rs (any_round rs)
        (refl, tt)
