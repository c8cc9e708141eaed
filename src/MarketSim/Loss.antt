-- ===== src/MarketSim/Loss.antt =====
-- What the loss of packets does to a run of engine/src/market_sim.rs: a run with losses against the
-- same run without.
use high_frequency_market_ma.Prelude.{
  ℕ, suc, ◌≡◌, refl, ap, Bool, true, false, Option, none, some, List, [], ◌∷◌, ◌++◌, append-nil,
  map, replicate, ltb, if◌then◌else◌, Bool-cases, inl, inr,
}
use high_frequency_market_ma.Prelude.Word.{add_u64}
use high_frequency_market_ma.Types.{
  Price, Qty, OrderId, Side, bid, ask, MarketEvent, cancel, FeedPacket, StrategyCommand, quote,
  cancel_all,
}
use high_frequency_market_ma.OrderBook.{submit_limit_order, cancel_order, execute_market_order}
use high_frequency_market_ma.MarketSim.{
  FeedSender, Exchange, Sim, Round, fill_to_trade_event, sum_qty, emit, emit_each, cancel_and_emit,
  submit_and_emit, cancel_existing, place_background, refresh, cancel_quotes, handle_command,
  handle_commands, noise_order, noise_round, publish_resync, empty_sim, step, steps, run_sim,
  safe_ask_price,
}
use high_frequency_market_ma.MarketSim.Log.{no_loss}

module _ (lost : ℕ → Bool) where
  -- The packets that are not lost.
  abbrev pub kept : List FeedPacket → List FeedPacket
  kept [] = []
  kept (p ∷ ps) = if lost p.seq then kept ps else p ∷ kept ps

  kept-append : (ps qs : List FeedPacket) → kept (ps ++ qs) ≡ kept ps ++ kept qs
  kept-append [] qs = refl
  kept-append (p ∷ ps) qs = elim (Bool-cases (lost p.seq)) [
    | inl e ↦ rw e (kept-append ps qs)
    | inr e ↦ rw e (ap (◌∷◌ p) (kept-append ps qs))
  ]

  abbrev thin_feed : FeedSender → FeedSender
  thin_feed feed = record feed { sent = kept feed.sent }

  abbrev thin : Exchange → Exchange
  thin x = record x { feed = thin_feed x.feed }

  abbrev pub thin_sim : Sim → Sim
  thin_sim s = record s { exchange = thin s.exchange }

  module _ (now : ℕ → ℕ) where
    emit-thin :
        (feed : FeedSender) (e : MarketEvent)
        → emit now lost (thin_feed feed) e ≡ thin_feed (emit now no_loss feed e)
    unfolding emit
    emit-thin feed e =
        let p : FeedPacket = record { seq = feed.seq; event = e } in
        let all = kept-append feed.sent (p ∷ []) in
        elim (Bool-cases (lost feed.seq)) [
          | inl l ↦ rw (all, l, append-nil (kept feed.sent))
          | inr l ↦ rw (all, l)
        ]

    emit_each-thin :
        (es : List MarketEvent) (feed : FeedSender)
        → emit_each now lost (thin_feed feed) es ≡ thin_feed (emit_each now no_loss feed es)
    unfolding emit_each
    emit_each-thin [] feed = refl
    emit_each-thin (e ∷ es) feed = rw (emit-thin feed e) (emit_each-thin es _)

    cancel_and_emit-thin :
        (x : Exchange) (side : Side) (price : Price) (id : OrderId)
        → cancel_and_emit now lost (thin x) side price id
          ≡ thin (cancel_and_emit now no_loss x side price id)
    unfolding cancel_and_emit
    cancel_and_emit-thin x side price id = elim (Bool-cases (cancel_order x.book side price id).1) [
      | inl e ↦ rw (e, emit-thin x.feed (cancel id side price (now x.reads)))
      | inr e ↦ rw e
    ]

    submit_and_emit-thin :
        (x : Exchange) (side : Side) (price : Price) (qty : Qty) (ours : Bool)
        → let (x', id) = submit_and_emit now no_loss x side price qty ours in
          submit_and_emit now lost (thin x) side price qty ours ≡ (thin x', id)
    unfolding submit_and_emit
    submit_and_emit-thin x side price qty ours =
        let id = add_u64 x.id_gen 1 in
        let fills = (submit_limit_order x.book id side price qty (now x.reads) ours).1 in
        let trades = emit_each-thin (map fill_to_trade_event fills) x.feed in
        elim (Bool-cases (ltb (sum_qty fills) qty)) [
          | inl e ↦ rw (e, trades, emit-thin)
          | inr e ↦ rw (e, trades)
        ]

    cancel_existing-thin :
        (x : Exchange) (side : Side) (o : Option (OrderId × Price))
        → cancel_existing now lost (thin x) side o ≡ thin (cancel_existing now no_loss x side o)
    unfolding cancel_existing
    cancel_existing-thin x side none = refl
    cancel_existing-thin x side (some (id, price)) = cancel_and_emit-thin x side price id

    noise_order-thin :
        (x : Exchange) (side : Side) (qty : Qty)
        → noise_order now lost (thin x) side qty ≡ thin (noise_order now no_loss x side qty)
    unfolding noise_order
    noise_order-thin x side qty =
        let fills = (execute_market_order x.book side qty (now x.reads)).1 in
        rw (emit_each-thin (map fill_to_trade_event fills) x.feed)

    cancel_quotes-thin :
        (s : Sim) → cancel_quotes now lost (thin_sim s) ≡ thin_sim (cancel_quotes now no_loss s)
    unfolding cancel_quotes
    cancel_quotes-thin s = rw (cancel_existing-thin s.exchange, cancel_existing-thin)

    handle_command-thin :
        (s : Sim) (c : StrategyCommand)
        → handle_command now lost (thin_sim s) c ≡ thin_sim (handle_command now no_loss s c)
    unfolding handle_command
    handle_command-thin s cancel_all = cancel_quotes-thin s
    handle_command-thin s (quote bid_price bid_qty ask_price ask_qty) =
        let c = (cancel_quotes now no_loss s).exchange in
        let x = (submit_and_emit now no_loss c bid bid_price bid_qty true).0 in
        rw (
          cancel_quotes-thin s,
          submit_and_emit-thin c bid bid_price bid_qty true,
          submit_and_emit-thin x ask (safe_ask_price bid_price ask_price) ask_qty true,
        )

    handle_commands-thin :
        (cs : List StrategyCommand) (s : Sim)
        → handle_commands now lost (thin_sim s) cs ≡ thin_sim (handle_commands now no_loss s cs)
    unfolding handle_commands
    handle_commands-thin [] s = refl
    handle_commands-thin (c ∷ cs) s = rw (handle_command-thin s c) (handle_commands-thin cs _)

    module _ (background_qty noise_qty : Qty) where
      place_background-thin :
          (s : Sim) (side : Side) (lvl : ℕ) (mid : Price)
          → place_background now lost background_qty (thin_sim s) side lvl mid
            ≡ thin_sim (place_background now no_loss background_qty s side lvl mid)
      unfolding place_background
      place_background-thin s bid lvl mid =
          rw (cancel_existing-thin s.exchange, submit_and_emit-thin)
      place_background-thin s ask lvl mid =
          rw (cancel_existing-thin s.exchange, submit_and_emit-thin)

      placed-thin :
          (c : Bool) (s : Sim) (side : Side) (lvl : ℕ) (mid : Price)
          → (if c
              then place_background now lost background_qty (thin_sim s) side lvl mid
              else thin_sim s)
            ≡ thin_sim (if c then place_background now no_loss background_qty s side lvl mid else s)
      placed-thin true s side lvl mid = place_background-thin s side lvl mid
      placed-thin false s side lvl mid = refl

      refresh-thin :
          (draws : List (Bool × Bool)) (s : Sim) (lvl : ℕ) (mid : Price)
          → refresh now lost background_qty (thin_sim s) lvl mid draws
            ≡ thin_sim (refresh now no_loss background_qty s lvl mid draws)
      unfolding refresh
      refresh-thin [] s lvl mid = refl
      refresh-thin ((bids, asks) ∷ ds) s lvl mid =
          let s₁ = if bids then place_background now no_loss background_qty s bid lvl mid else s in
          rw (placed-thin bids s bid lvl mid, placed-thin asks s₁ ask lvl mid)
            (refresh-thin ds _ (suc lvl) mid)

      noise_round-thin :
          (s : Sim) (side : Option Side)
          → noise_round now lost background_qty noise_qty (thin_sim s) side
            ≡ thin_sim (noise_round now no_loss background_qty noise_qty s side)
      noise_round-thin s none = refl
      noise_round-thin s (some side) = rw (noise_order-thin s.exchange side noise_qty)

      published-thin :
          (c : Bool) (s : Sim)
          → (if c then publish_resync (thin_sim s) else thin_sim s)
            ≡ thin_sim (if c then publish_resync s else s)
      unfolding publish_resync
      published-thin true s = refl
      published-thin false s = refl

      step-thin :
          (s : Sim) (r : Round)
          → step now lost background_qty noise_qty (thin_sim s) r
            ≡ thin_sim (step now no_loss background_qty noise_qty s r)
      unfolding step
      step-thin s r =
          rw
            (
              refresh-thin r.refreshed s 0 r.mid_ticks,
              handle_commands-thin r.commands,
              noise_round-thin,
            )
            (published-thin r.publishes _)

      steps-thin :
          (rs : List Round) (s : Sim)
          → steps now lost background_qty noise_qty (thin_sim s) rs
            ≡ thin_sim (steps now no_loss background_qty noise_qty s rs)
      unfolding steps
      steps-thin [] s = refl
      steps-thin (r ∷ rs) s = rw (step-thin s r) (steps-thin rs _)

      -- The loss of packets takes them out of what is sent and changes nothing else of a run: not
      -- the sequence numbers, the book, the records of the quotes or the snapshot.
      pub run_sim-loses :
          (levels : ℕ) (start : Price) (rs : List Round)
          → run_sim now lost background_qty noise_qty levels start rs
            ≡ thin_sim (run_sim now no_loss background_qty noise_qty levels start rs)
      unfolding run_sim publish_resync
      run_sim-loses levels start rs =
          rw (refresh-thin (replicate levels (true, true)) (empty_sim levels) 0 start)
            (steps-thin rs _)
