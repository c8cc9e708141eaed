-- ===== src/Strategy/Drain.antt =====
-- The loop of the strategy of engine/src/main.rs that takes the events out of its ring, and the way
-- that they have come: the exchange of engine/src/market_sim.rs, the socket, and the feed handler of
-- engine/src/udp_feed.rs.
use high_frequency_market_ma.Prelude.{
  ℕ, zero, suc, ◌^◌, ◌<◌, ◌≤◌, ◌≡◌, refl, ap, subst, ◌∙◌, Option, none, some, List, [], ◌∷◌, map,
  length, length-map, take, All, arith,
}
use high_frequency_market_ma.Float.{Float}
use high_frequency_market_ma.Types.{Price, Qty, FeedPacket, SeqEvent}
use high_frequency_market_ma.OrderBook.{new}
use high_frequency_market_ma.RingBuffer.{RingInner, make_inner, try_pop}
use high_frequency_market_ma.RingBuffer.Queue.{Holds, try_pop-empty, try_pop-cons}
use high_frequency_market_ma.RingBuffer.Fifo.{make_inner-Refines}
use high_frequency_market_ma.UdpFeed.{datagram, run_feed, start}
use high_frequency_market_ma.UdpFeed.Packets.{decoded-datagrams}
use high_frequency_market_ma.UdpFeed.Forward.{seq_event, run_feed-Holds}
use high_frequency_market_ma.MarketSim.{Round, run_sim}
use high_frequency_market_ma.MarketSim.Keeps.{CommandFits}
use high_frequency_market_ma.MarketSim.Log.{timeless, no_loss}
use high_frequency_market_ma.Strategy.{Shadow, apply_event, drain, after_pop, drain_ring}
use high_frequency_market_ma.Strategy.Follow.{drain-run_sim}

-- The first elements of a short list are all of it.
take-all : (n : ℕ) (l : List SeqEvent) → length l ≤ n → take n l ≡ l
take-all zero [] h = refl
take-all zero (e ∷ l) h = absurd (omega arith)
take-all (suc n) [] h = refl
take-all (suc n) (e ∷ l) h = ap (λ z. e ∷ z) (take-all n l (omega arith))

-- Up to 16384 packets come to stand in a new ring of that capacity, all of them.
delivered :
    (encode : FeedPacket → List ℕ) (decode : List ℕ → Option FeedPacket) (ps : List FeedPacket)
    → ((p : FeedPacket) → decode (take 2048 (encode p)) ≡ some p)
    → length ps ≤ 16384
    → let h = run_feed decode (start (make_inner 16384)) (map (λ p. datagram (encode p)) ps) in
      (k : ℕ) × Holds k h.out (map seq_event ps)
      × (h.health.packets_received ≡ length ps)
      × (h.out.dropped ≡ 0)
delivered encode decode ps inverse few =
    let rounds = map (λ p. datagram (encode p)) ps in
    let (k, room, least, m) = make_inner-Refines SeqEvent 16384 (omega arith) in
    let same = decoded-datagrams encode decode ps inverse in
    let size = ap length same in
    let (holds, dropped, received) =
      run_feed-Holds decode rounds (start (make_inner 16384)) (2 ^ k) m.holds (omega arith)
        (omega (arith, m.dropped)) (omega arith) in
    let all =
      ap (λ l. take (2 ^ k) (map seq_event l)) same
      ∙ take-all (2 ^ k) (map seq_event ps) (omega (arith, length-map seq_event ps)) in
    (
      k,
      subst (Holds k (run_feed decode (start (make_inner 16384)) rounds).out) all holds,
      omega (arith, received, size),
      omega (arith, dropped, size, m.dropped),
    )

module _ {ℓ} {F : Type ℓ} ⦃f : Float F⦄ where
  after_pop-some :
      (p : RingInner SeqEvent × Option (Option SeqEvent)) (s : Shadow F)
      (next : RingInner SeqEvent → Shadow F → Option (RingInner SeqEvent × Shadow F)) {e : SeqEvent}
      → p.1 ≡ some (some e)
      → after_pop p s next ≡ next p.0 (apply_event s e)
  after_pop-some (ring, some (some x)) s next h = ap (λ y. next ring (apply_event s y)) cc
  after_pop-some (ring, some none) s next h = cc
  after_pop-some (ring, none) s next h = cc

  -- Where the strategy's ring holds some events, its loop over the ring, with fuel for one turn
  -- more than there are events, ends with an empty ring and with every event applied once, the
  -- oldest first.
  pub drain_ring-drain :
      (fuel : ℕ) (q : List SeqEvent) (s : Shadow F) {k : ℕ} {ring : RingInner SeqEvent}
      → Holds k ring q
      → length q < fuel
      → (ring' : RingInner SeqEvent) × (drain_ring fuel ring s ≡ some (ring', drain s q))
        × Holds k ring' []
  unfolding drain_ring drain
  drain_ring-drain zero q s h lt = absurd (omega arith)
  drain_ring-drain (suc fuel) [] s {ring = ring} h lt = (ring, rw (try_pop-empty h) refl, h)
  drain_ring-drain (suc fuel) (e ∷ q) s {ring = ring} h lt =
      let (oldest, h') = try_pop-cons h in
      let (ring', same, empty) = drain_ring-drain fuel q (apply_event s e) h' (omega arith) in
      (ring', after_pop-some (try_pop ring) s (drain_ring fuel) oldest ∙ same, empty)

  -- Where the packets' decoder undoes their encoder within 2048 bytes, the exchange has lost no
  -- packet and has sent 16384 at most, and the quantities of background orders and commands are
  -- below 2 ^ 64, the feed handler on a new ring of the requested capacity 16384, which
  -- receives the datagrams in their order, counts all of them and drops none; and a strategy
  -- with an empty shadow book whose loop over that ring has fuel for one turn more than there
  -- are packets takes them all out and comes to the exchange's book, but for the times of the
  -- orders.
  pub drain_ring-run_sim :
      (encode : FeedPacket → List ℕ) (decode : List ℕ → Option FeedPacket) (now : ℕ → ℕ)
      (background_qty noise_qty : Qty) (levels : ℕ) (start_ticks : Price) (rs : List Round)
      (s : Shadow F)
      → ((p : FeedPacket) → decode (take 2048 (encode p)) ≡ some p)
      → background_qty < 2 ^ 64
      → All (λ r. All (CommandFits (λ _ qty. qty < 2 ^ 64)) r.commands) rs
      → s.shadow_book ≡ new
      → let x = (run_sim now no_loss background_qty noise_qty levels start_ticks rs).exchange in
        length x.feed.sent ≤ 16384
        → let h =
            run_feed decode
              (start (make_inner 16384))
              (map (λ p. datagram (encode p)) x.feed.sent) in
          (ring : RingInner SeqEvent) × (s' : Shadow F) × (drain_ring
              (suc (length x.feed.sent))
              h.out
              s
            ≡ some (ring, s'))
          × (timeless s'.shadow_book ≡ timeless x.book)
          × (h.health.packets_received ≡ length x.feed.sent)
          × (h.out.dropped ≡ 0)
  drain_ring-run_sim encode decode now bq nq levels start_ticks rs s inverse small fits fresh few =
      let sent = (run_sim now no_loss bq nq levels start_ticks rs).exchange.feed.sent in
      let (k, holds, received, dropped) = delivered encode decode sent inverse few in
      let (ring, drained, empty) =
        drain_ring-drain (suc (length sent)) (map seq_event sent) s holds
          (omega (arith, length-map seq_event sent)) in
      (
        ring,
        drain s (map seq_event sent),
        drained,
        drain-run_sim now bq nq levels start_ticks rs s small fits fresh,
        received,
        dropped,
      )
