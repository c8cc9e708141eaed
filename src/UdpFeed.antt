-- ===== src/UdpFeed.antt =====
-- engine/src/udp_feed.rs: the feed handler. The socket and the JSON decoder are parameters: what a
-- call of `recv_from` came back with is a `Received`, and `decode` is `serde_json::from_slice`.
pub mod Packets
pub mod Account
pub mod Forward
mod Tests
use high_frequency_market_ma.Prelude.{
  ℕ, ◌-◌, Option, none, some, List, [], ◌∷◌, take, leb, ltb, if◌then◌else◌,
}
use high_frequency_market_ma.Prelude.Word.{add_u64}
use high_frequency_market_ma.Types.{FeedPacket, SeqEvent}
use high_frequency_market_ma.RingBuffer.{RingInner, try_push}

pub record FeedHealth : Type 0 where
  pub packets_received : ℕ
  pub gaps_detected : ℕ
  pub events_lost_to_gaps : ℕ

abbrev pub new_health : FeedHealth
new_health = record { packets_received = 0; gaps_detected = 0; events_lost_to_gaps = 0 }

-- The locals of `run`, with the health counters and the ring that it shares.
pub record Handler : Type 0 where
  pub expected_seq : Option ℕ
  pub health : FeedHealth
  pub out : RingInner SeqEvent

-- `match expected_seq`: the sequence number that is expected next, and the counters.
unfoldable pub track : Option ℕ → ℕ → FeedHealth → Option ℕ × FeedHealth
track none seq health = (some (add_u64 seq 1), health)
track (some exp) seq health =
    if leb exp seq
    then (
      some (add_u64 seq 1),
      if ltb exp seq
          then record health {
            gaps_detected = add_u64 health.gaps_detected 1;
            events_lost_to_gaps = add_u64 health.events_lost_to_gaps (seq - exp);
          }
          else health,
    )
    else (some exp, health)

-- The rest of a round of the loop, once a packet is decoded.
unfoldable pub handle_packet : Handler → FeedPacket → Handler
handle_packet h packet =
    let received = record h.health { packets_received = add_u64 h.health.packets_received 1 } in
    let (expected, health) = track h.expected_seq packet.seq received in
    let (out, _) = try_push h.out (record { seq = packet.seq; event = packet.event }) in
    record { expected_seq = expected; health = health; out = out }

-- What `recv_from` came back with: a timeout, another error, or the bytes of a datagram.
pub data Received : Type 0 where
  timed_out : Received
  failed : Received
  datagram : List ℕ → Received

module _ (decode : List ℕ → Option FeedPacket) where
  -- One round of the loop. The buffer has 2048 bytes: the rest of a datagram is cut off.
  unfoldable pub round : Handler → Received → Handler
  round h timed_out = h
  round h failed = h
  round h (datagram bytes) = elim (decode (take 2048 bytes)) [
    | none ↦ h
    | some packet ↦ handle_packet h packet
  ]

  -- The rounds that `shutdown` lets begin.
  unfoldable pub run_feed : Handler → List Received → Handler
  run_feed h [] = h
  run_feed h (r ∷ rs) = run_feed (round h r) rs

abbrev pub start : RingInner SeqEvent → Handler
start out = record { expected_seq = none; health = new_health; out = out }
