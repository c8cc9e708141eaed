-- ===== src/MarketSim/Gaps.antt =====
-- The losses between the exchange of engine/src/market_sim.rs and the feed handler of
-- engine/src/udp_feed.rs.
use high_frequency_market_ma.Prelude.{
  ℕ, zero, suc, ◌+◌, ◌-◌, ◌^◌, ◌<◌, max, ◌≡◌, sym, ap, subst, ◌∙◌, Bool, true, false, Option, some,
  List, [], ◌∷◌, map, length, take, if◌then◌else◌, Bool-cases, inl, inr, arith,
}
use high_frequency_market_ma.Types.{Price, Qty, FeedPacket, SeqEvent}
use high_frequency_market_ma.RingBuffer.{RingInner}
use high_frequency_market_ma.UdpFeed.{datagram, run_feed, start}
use high_frequency_market_ma.UdpFeed.Packets.{decoded-datagrams}
use high_frequency_market_ma.UdpFeed.Account.{
  high_water, IsAscending, InRange, advances_of_IsAscending, run_feed-Accounts,
}
use high_frequency_market_ma.MarketSim.{Round, run_sim}
use high_frequency_market_ma.MarketSim.Log.{no_loss}
use high_frequency_market_ma.MarketSim.Loss.{kept, run_sim-loses}
use high_frequency_market_ma.MarketSim.Numbers.{IsNumbered, run_sim-Numbered}

module _ (lost : ℕ → Bool) where
  -- How many of the `n` numbers from `from` on are lost.
  abbrev pub losses : ℕ → ℕ → ℕ
  losses from zero = 0
  losses from (suc n) = (if lost from then 1 else 0) + losses (suc from) n

  -- What is kept of packets that are numbered from `n` on: it spans the numbers up to its last one.
  record KeptFrom (n : ℕ) (ks : List FeedPacket) : Type 0 where
    span : ℕ
    high : high_water n ks ≡ n + span
    count : length ks + losses n span ≡ span
    ascending : IsAscending n ks
    range : InRange ks

  lost_one : (n : ℕ) (ks : List FeedPacket) → lost n ≡ true → KeptFrom (suc n) ks → KeptFrom n ks
  lost_one n [] l h = record {
    span = 0;
    high = omega arith;
    count = omega arith;
    ascending = tt;
    range = tt;
  }
  lost_one n (k ∷ ks) l h =
      let same : max n (suc k.seq) ≡ max (suc n) (suc k.seq) = omega (arith, h.ascending.0) in
      record {
        span = suc h.span;
        high = ap (λ m. high_water m ks) same ∙ h.high ∙ omega arith;
        count = rw l (omega (arith, h.count));
        ascending = (omega (arith, h.ascending.0), h.ascending.1);
        range = h.range;
      }

  kept_one :
      (n : ℕ) (p : FeedPacket) (ks : List FeedPacket)
      → lost n ≡ false
      → p.seq ≡ n
      → suc n < 2 ^ 64
      → KeptFrom (suc n) ks
      → KeptFrom n (p ∷ ks)
  kept_one n p ks l at small h =
      let next : max n (suc p.seq) ≡ suc n = omega (arith, at) in
      record {
        span = suc h.span;
        high = ap (λ m. high_water m ks) next ∙ h.high ∙ omega arith;
        count = rw l (omega (arith, h.count));
        ascending = (omega (arith, at), rw at h.ascending);
        range = (omega (arith, at), h.range);
      }

  kept-KeptFrom :
      (n : ℕ) (ps : List FeedPacket)
      → IsNumbered n ps
      → n + length ps < 2 ^ 64
      → KeptFrom n (kept lost ps)
  kept-KeptFrom n [] h small = record {
    span = 0;
    high = omega arith;
    count = omega arith;
    ascending = tt;
    range = tt;
  }
  kept-KeptFrom n (p ∷ ps) h small =
      let at : p.seq ≡ n = omega (arith, h.0) in
      let rest = kept-KeptFrom (suc n) ps h.1 (omega arith) in
      elim (Bool-cases (lost p.seq)) [
        | inl l ↦ rw l (lost_one n (kept lost ps) (sym (ap lost at) ∙ l) rest)
        | inr l ↦ rw l (kept_one n p (kept lost ps) (sym (ap lost at) ∙ l) at (omega arith) rest)
      ]

  -- The first packet that is kept, and those behind it.
  abbrev Arrived : List FeedPacket → Type 0
  Arrived [] = Unit
  Arrived (p ∷ ps) = (suc p.seq < 2 ^ 64) × KeptFrom (suc p.seq) ps

  kept-Arrived :
      (n : ℕ) (ps : List FeedPacket)
      → IsNumbered n ps
      → n + length ps < 2 ^ 64
      → Arrived (kept lost ps)
  kept-Arrived n [] h small = tt
  kept-Arrived n (p ∷ ps) h small =
      let at : p.seq ≡ n = omega (arith, h.0) in
      elim (Bool-cases (lost p.seq)) [
        | inl l ↦ rw l (kept-Arrived (suc n) ps h.1 (omega arith))
        | inr l ↦ rw l (omega (arith, at), rw at (kept-KeptFrom (suc n) ps h.1 (omega arith)))
      ]

-- Where the packets' decoder undoes their encoder within 2048 bytes, the exchange has sent or
-- lost fewer than 2 ^ 64 packets, and some have gone out, a new feed handler that receives those
-- in their order expects the number behind the highest of them, and counts as lost as many events
-- as there are sequence numbers that the exchange lost between the first and that number.
pub run_feed-run_sim :
    (encode : FeedPacket → List ℕ) (decode : List ℕ → Option FeedPacket) (out : RingInner SeqEvent)
    (now : ℕ → ℕ) (lost : ℕ → Bool) (background_qty noise_qty : Qty) (levels : ℕ)
    (start_ticks : Price) (rs : List Round) {p : FeedPacket} {ps : List FeedPacket}
    → ((p : FeedPacket) → decode (take 2048 (encode p)) ≡ some p)
    → length (run_sim now no_loss background_qty noise_qty levels start_ticks rs).exchange.feed.sent
      < 2 ^ 64
    → let x = (run_sim now lost background_qty noise_qty levels start_ticks rs).exchange in
      x.feed.sent ≡ p ∷ ps
      → let h = run_feed decode (start out) (map (λ p. datagram (encode p)) x.feed.sent) in
        let expected = high_water (suc p.seq) ps in
        (h.expected_seq ≡ some expected)
        × (h.health.events_lost_to_gaps ≡ losses lost (suc p.seq) (expected - suc p.seq))
run_feed-run_sim encode decode out now lost bq nq levels start_ticks rs {p} {ps} inverse small e =
    let all = (run_sim now no_loss bq nq levels start_ticks rs).exchange.feed.sent in
    let sent = (run_sim now lost bq nq levels start_ticks rs).exchange.feed.sent in
    let thinned : sent ≡ kept lost all =
      ap (λ s. s.exchange.feed.sent) (run_sim-loses lost now bq nq levels start_ticks rs) in
    let numbered = (run_sim-Numbered now bq nq levels start_ticks rs).1 in
    let (first, k) : Arrived lost (p ∷ ps) =
      subst (Arrived lost) (sym thinned ∙ e) (kept-Arrived lost 0 all numbered (omega arith)) in
    let a =
      run_feed-Accounts decode out (map (λ p. datagram (encode p)) sent)
        (decoded-datagrams encode decode sent inverse ∙ e) (first, k.range) in
    let in_order = advances_of_IsAscending (suc p.seq) ps k.ascending in
    let span : high_water (suc p.seq) ps - suc p.seq ≡ k.span = omega (arith, k.high) in
    (a.expected, rw span (omega (arith, a.lost_now, k.high, k.count, in_order)))
