-- ===== src/Bench.antt =====
-- engine/src/bench.rs: the benchmark of the ring buffer. The two threads of `run` take their atomic
-- steps in the order that a schedule gives; the readings of the clock are arguments.
mod RoundTrip
pub mod Running
pub mod Progress
pub mod Finish
pub mod Summary
mod Tests
use Prim.Native.Nat.{bit_and}
use high_frequency_market_ma.Prelude.{
  ℕ, zero, suc, ◌+◌, ◌-◌, ◌%◌, ◌^◌, Option, none, some, List, [], ◌∷◌, ◌++◌, set, ltb, leb, ◌==◌,
  if◌then◌else◌, ◌>>=◌,
}
use high_frequency_market_ma.Prelude.Word.{add_u64, sub_u64}
use high_frequency_market_ma.RingBuffer.{
  RingInner, Pushed, ok, err, make_inner, read, try_push, try_pop,
}
use high_frequency_market_ma.RingBuffer.Threads.{
  Pushing, outside, loaded, written, Popping, away, looked, taken, Pair, start_pair,
}

-- An `Instant` is a number of nanoseconds.
pub record BenchMsg : Type 0 where
  pub published_at : ℕ

-- `elapsed().as_nanos() as u64`; an elapsed time stops at 0.
abbrev pub elapsed_ns : ℕ → ℕ → ℕ
elapsed_ns now since = (now - since) % 2 ^ 64

-- `msg.published_at.elapsed()`; nothing where the slot held no message.
abbrev pub latency : ℕ → Option BenchMsg → Option ℕ
latency now none = none
latency now (some msg) = some (elapsed_ns now msg.published_at)

-- The threads of `run`: the ring with the calls under way, the messages that the producer has still
-- to see accepted, the one that it retries first, and what the consumer has counted and measured.
pub record Run : Type 0 where
  pub pair : Pair BenchMsg
  pub to_send : List BenchMsg
  pub received : ℕ
  pub latencies_ns : List (Option ℕ)

abbrev pub later_messages : List BenchMsg → List BenchMsg
later_messages [] = []
later_messages (m ∷ ms) = ms

-- The producer begins a call for its first message, or its loop is over.
abbrev pub next_push : List BenchMsg → Run → Run
next_push [] s = s
next_push (m ∷ ms) s = record s {
  pair = record s.pair { producer = loaded m s.pair.ring.tail s.pair.ring.head };
}

-- A step of the producer's loop, by where its `try_push` stands.
unfoldable pub push_turn : Pushing BenchMsg → Run → Run
push_turn outside s = next_push s.to_send s
push_turn (loaded v tail head) s =
    let r = s.pair.ring in
    if leb r.capacity (sub_u64 tail head)
    then record s {
      pair = record s.pair {
        ring = record r { dropped = add_u64 r.dropped 1 };
        producer = outside;
      };
    }
    else record s {
      pair = record s.pair {
        ring = record r { buf = set r.buf (bit_and tail r.mask) (some v) };
        producer = written v tail;
      };
    }
push_turn (written v tail) s = record s {
  pair = record s.pair {
    ring = record s.pair.ring { tail = add_u64 tail 1 };
    producer = outside;
    accepted = s.pair.accepted ++ v ∷ [];
  };
  to_send = later_messages s.to_send;
}

-- A step of the consumer's loop, by where its `try_pop` stands. `seen` has the readings of the clock
-- behind each message.
unfoldable pub pop_turn : (ℕ → ℕ) → ℕ → Popping BenchMsg → Run → Run
pop_turn seen n_messages away s =
    if ltb s.received n_messages
    then record s { pair = record s.pair { consumer = looked s.pair.ring.head s.pair.ring.tail } }
    else s
pop_turn seen n_messages (looked head tail) s =
    let r = s.pair.ring in
    if head == tail then record s { pair = record s.pair { consumer = away } } else record s {
      pair = record s.pair { consumer = taken (read r.buf (bit_and head r.mask)) head };
    }
pop_turn seen n_messages (taken x head) s = record s {
  pair = record s.pair {
    ring = record s.pair.ring { head = add_u64 head 1 };
    consumer = away;
    returned = s.pair.returned ++ x ∷ [];
  };
  received = s.received + 1;
  latencies_ns = s.latencies_ns ++ latency (seen s.received) x ∷ [];
}

pub data Turn : Type 0 where
  producer : Turn
  consumer : Turn

unfoldable pub turn : (ℕ → ℕ) → ℕ → Turn → Run → Run
turn seen n_messages producer s = push_turn s.pair.producer s
turn seen n_messages consumer s = pop_turn seen n_messages s.pair.consumer s

unfoldable pub turns : (ℕ → ℕ) → ℕ → List Turn → Run → Run
turns seen n_messages [] s = s
turns seen n_messages (t ∷ ts) s = turns seen n_messages ts (turn seen n_messages t s)

-- `run` before the threads start, with the messages that the producer will make.
unfoldable pub start_run : List BenchMsg → Run
start_run sent = record { pair = start_pair 8192; to_send = sent; received = 0; latencies_ns = [] }

-- One round of `single_threaded_roundtrip_ns`, with the readings of the clock before and after it.
-- `none` is a panic of an `expect`.
abbrev popped_cost :
    ℕ → ℕ → RingInner BenchMsg × Option (Option BenchMsg) → Option (RingInner BenchMsg × ℕ)
popped_cost t0 t1 (ring, none) = none
popped_cost t0 t1 (ring, some msg) = some (ring, elapsed_ns t1 t0)

abbrev pushed_cost : ℕ → ℕ → RingInner BenchMsg × Pushed BenchMsg → Option (RingInner BenchMsg × ℕ)
pushed_cost t0 t1 (ring, ok) = popped_cost t0 t1 (try_pop ring)
pushed_cost t0 t1 (ring, err msg) = none

unfoldable pub round_cost : ℕ → ℕ → RingInner BenchMsg → Option (RingInner BenchMsg × ℕ)
round_cost t0 t1 ring = pushed_cost t0 t1 (try_push ring (record { published_at = t0 }))

-- The loop of `single_threaded_roundtrip_ns` over the readings that its rounds take.
unfoldable pub round_costs : List (ℕ × ℕ) → RingInner BenchMsg → List ℕ → Option (List ℕ)
round_costs [] ring costs_ns = some costs_ns
round_costs ((t0, t1) ∷ clock) ring costs_ns = do
  (ring', cost) ← round_cost t0 t1 ring
  round_costs clock ring' (costs_ns ++ cost ∷ [])

unfoldable pub single_threaded_roundtrip_ns : List (ℕ × ℕ) → Option (List ℕ)
single_threaded_roundtrip_ns clock = round_costs clock (make_inner 64) []
