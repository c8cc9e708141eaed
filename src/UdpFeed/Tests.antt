-- ===== src/UdpFeed/Tests.antt =====
-- Runs of the feed handler of engine/src/udp_feed.rs, and the theorems about it at a feed that loses
-- two packets, brings one late, and has a datagram that does not decode.
use high_frequency_market_ma.Prelude.{
  ℕ, ◌-◌, ◌≡◌, refl, Option, none, some, List, [], ◌∷◌, map, length, take, arith,
}
use high_frequency_market_ma.Prelude.Int.{pos}
use high_frequency_market_ma.Prelude.Word.{add_u64}
use high_frequency_market_ma.Types.{bid, cancel, FeedPacket, SeqEvent}
use high_frequency_market_ma.RingBuffer.{RingInner}
use high_frequency_market_ma.RingBuffer.Queue.{Holds}
use high_frequency_market_ma.UdpFeed.{Received, timed_out, failed, datagram, start, run_feed}
use high_frequency_market_ma.UdpFeed.Packets.{decoded}
use high_frequency_market_ma.UdpFeed.Account.{Accounts, run_feed-Accounts}
use high_frequency_market_ma.UdpFeed.Forward.{seq_event, run_feed-Holds}

abbrev packet : ℕ → FeedPacket
packet seq = record { seq = seq; event = cancel seq bid (pos 10000) 0 }

-- A datagram of one byte is the packet of that number.
abbrev decode_byte : List ℕ → Option FeedPacket
decode_byte (seq ∷ []) = some (packet seq)
decode_byte bytes = none

abbrev rounds : List Received
rounds =
    datagram (7 ∷ [])
    ∷ timed_out
    ∷ datagram (10 ∷ [])
    ∷ datagram (1 ∷ 2 ∷ [])
    ∷ datagram (8 ∷ [])
    ∷ failed
    ∷ datagram (11 ∷ [])
    ∷ []

abbrev ring : RingInner SeqEvent
ring = record { buf = none ∷ none ∷ []; capacity = 2; mask = 1; head = 0; tail = 0; dropped = 0 }

ring-Holds : Holds 1 ring []
ring-Holds = record {
  word = omega arith;
  capacity = refl;
  mask = refl;
  size = refl;
  head = omega arith;
  tail = refl;
  room = omega arith;
  slots = tt;
}

rounds-decoded : decoded decode_byte rounds ≡ packet 7 ∷ packet 10 ∷ packet 8 ∷ packet 11 ∷ []
unfolding decoded
rounds-decoded = refl

run_feed-Accounts_example :
    Accounts 8 0 0
      (packet 10 ∷ packet 8 ∷ packet 11 ∷ [])
      (run_feed decode_byte (start ring) rounds)
run_feed-Accounts_example = run_feed-Accounts decode_byte ring rounds rounds-decoded (omega arith)

run_feed-Holds_example :
    let h = run_feed decode_byte (start ring) rounds in
    Holds 1 h.out (take 2 (map seq_event (decoded decode_byte rounds)))
    × (h.out.dropped ≡ add_u64 0 (length (decoded decode_byte rounds) - 2))
    × (h.health.packets_received ≡ add_u64 0 (length (decoded decode_byte rounds)))
run_feed-Holds_example =
    run_feed-Holds decode_byte rounds (start ring) 2 ring-Holds refl (omega arith) (omega arith)
