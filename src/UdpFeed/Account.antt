-- ===== src/UdpFeed/Account.antt =====
-- The sequence numbers of engine/src/udp_feed.rs: what the handler expects next, and what it counts
-- as lost.
use high_frequency_market_ma.Prelude.{
  ℕ, suc, ◌+◌, ◌^◌, ◌≤◌, ◌<◌, max, ◌≡◌, refl, ap, sym, ◌∙◌, subst, Option, some, List, [], ◌∷◌, All,
  length, leb, ltb, if◌then◌else◌, le→leb, arith,
}
use high_frequency_market_ma.Prelude.Word.{add_u64}
use high_frequency_market_ma.Types.{FeedPacket, SeqEvent}
use high_frequency_market_ma.RingBuffer.{RingInner}
use high_frequency_market_ma.UdpFeed.{
  Received, run_feed, start, FeedHealth, Handler, track, handle_packet,
}
use high_frequency_market_ma.UdpFeed.Packets.{handle_packets, decoded, run_feed-handle_packets}

-- One past the highest sequence number, of `e - 1` and those of the packets.
abbrev pub high_water : ℕ → List FeedPacket → ℕ
high_water e [] = e
high_water e (p ∷ ps) = high_water (max e (suc p.seq)) ps

-- How many packets come after all that were sent before them.
abbrev pub advances : ℕ → List FeedPacket → ℕ
advances e [] = 0
advances e (p ∷ ps) = (if leb e p.seq then 1 else 0) + advances (max e (suc p.seq)) ps

-- How many packets come after one that is missing.
abbrev pub jumps : ℕ → List FeedPacket → ℕ
jumps e [] = 0
jumps e (p ∷ ps) = (if ltb e p.seq then 1 else 0) + jumps (max e (suc p.seq)) ps

abbrev pub InRange : List FeedPacket → Type 0
InRange = All λ p. suc p.seq < 2 ^ 64

-- What the counters were when `e` was expected, and are now that the packets are handled.
pub record Accounts (e lost gaps : ℕ) (ps : List FeedPacket) (h : Handler) : Type 0 where
  pub expected : h.expected_seq ≡ some (high_water e ps)
  pub lost_now : h.health.events_lost_to_gaps + advances e ps + e ≡ high_water e ps + lost
  pub gaps_now : h.health.gaps_detected ≡ gaps + jumps e ps

track_lem :
    (e seq : ℕ) (g : FeedHealth)
    → suc seq < 2 ^ 64
    → e < 2 ^ 64
    → g.events_lost_to_gaps ≤ e
    → g.gaps_detected ≤ g.events_lost_to_gaps
    → let (x, g') = track (some e) seq g in
      (x ≡ some (max e (suc seq)))
      × (g'.events_lost_to_gaps + (if leb e seq then 1 else 0) + e
          ≡ max e (suc seq) + g.events_lost_to_gaps)
      × (g'.gaps_detected ≡ g.gaps_detected + (if ltb e seq then 1 else 0))
unfolding track
track_lem e seq g r w l gl = ground arith

-- One packet, when `e` is expected.
handle_packet-Accounts :
    (p : FeedPacket) (h : Handler) {e : ℕ}
    → h.expected_seq ≡ some e
    → suc p.seq < 2 ^ 64
    → e < 2 ^ 64
    → h.health.events_lost_to_gaps ≤ e
    → h.health.gaps_detected ≤ h.health.events_lost_to_gaps
    → Accounts e h.health.events_lost_to_gaps h.health.gaps_detected (p ∷ []) (handle_packet h p)
unfolding handle_packet
handle_packet-Accounts p h {e} x r w l g =
    let received = record h.health { packets_received = add_u64 h.health.packets_received 1 } in
    let (expected, lost, gaps) = track_lem e p.seq received r w l g in
    record {
      expected = ap (λ o. (track o p.seq received).0) x ∙ expected;
      lost_now = omega (arith, ap (λ o. (track o p.seq received).1.events_lost_to_gaps) x, lost);
      gaps_now = omega (arith, ap (λ o. (track o p.seq received).1.gaps_detected) x, gaps);
    }

handle_packets-Accounts :
    (ps : List FeedPacket) (h : Handler) {e : ℕ}
    → h.expected_seq ≡ some e
    → InRange ps
    → e < 2 ^ 64
    → h.health.events_lost_to_gaps ≤ e
    → h.health.gaps_detected ≤ h.health.events_lost_to_gaps
    → Accounts e h.health.events_lost_to_gaps h.health.gaps_detected ps (handle_packets h ps)
unfolding handle_packets
handle_packets-Accounts [] h {e} x r w l g = record {
  expected = x;
  lost_now = omega arith;
  gaps_now = omega arith;
}
handle_packets-Accounts (p ∷ ps) h {e} x r w l g =
    let one = handle_packet-Accounts p h x r.0 w l g in
    let rest =
      handle_packets-Accounts ps (handle_packet h p) one.expected r.1 (omega arith)
        (ground (arith, one.lost_now)) (ground (arith, one.lost_now, one.gaps_now)) in
    record {
      expected = rest.expected;
      lost_now = omega (arith, one.lost_now, rest.lost_now);
      gaps_now = omega (arith, one.gaps_now, rest.gaps_now);
    }

first_packet :
    (p : FeedPacket) (out : RingInner SeqEvent)
    → suc p.seq < 2 ^ 64
    → let h = handle_packet (start out) p in
      (h.expected_seq ≡ some (suc p.seq))
      × (h.health.events_lost_to_gaps ≡ 0)
      × (h.health.gaps_detected ≡ 0)
unfolding handle_packet track
first_packet p out r =
    let next : add_u64 p.seq 1 ≡ suc p.seq = omega arith in (ap some next, refl, refl)

-- Where the packets that a feed handler decoded have sequence numbers below 2 ^ 64 - 1, and there
-- is one, it expects one past the highest of them; the numbers it counts as lost are those since
-- the first packet, less the packets that came ahead of all before them; and it counts one gap
-- for each packet that skips a number.
pub run_feed-Accounts :
    (decode : List ℕ → Option FeedPacket) (out : RingInner SeqEvent) (rs : List Received)
    {p : FeedPacket} {ps : List FeedPacket}
    → decoded decode rs ≡ p ∷ ps
    → InRange (p ∷ ps)
    → Accounts (suc p.seq) 0 0 ps (run_feed decode (start out) rs)
unfolding handle_packets
run_feed-Accounts decode out rs {p} {ps} e r =
    let (x, l, g) = first_packet p out r.0 in
    let a =
      handle_packets-Accounts ps (handle_packet (start out) p) x r.1 r.0 (omega (arith, l))
        (omega (arith, l, g)) in
    subst (Accounts (suc p.seq) 0 0 ps)
      (sym (run_feed-handle_packets decode (start out) rs ∙ ap (handle_packets (start out)) e))
      (record {
        expected = a.expected;
        lost_now = omega (arith, a.lost_now, l);
        gaps_now = omega (arith, a.gaps_now, g);
      })

-- Sequence numbers from `e` on, in ascending order.
abbrev pub IsAscending : ℕ → List FeedPacket → Type 0
IsAscending e [] = Unit
IsAscending e (p ∷ ps) = (e ≤ p.seq) × IsAscending (suc p.seq) ps

pub advances_of_IsAscending :
    (e : ℕ) (ps : List FeedPacket) → IsAscending e ps → advances e ps ≡ length ps
advances_of_IsAscending e [] h = refl
advances_of_IsAscending e (p ∷ ps) h =
    let next : max e (suc p.seq) ≡ suc p.seq = omega (arith, h.0) in
    rw (le→leb e p.seq h.0, next) (omega (arith, advances_of_IsAscending (suc p.seq) ps h.1))
