-- ===== src/RingBuffer/Tests.antt =====
-- Runs of the ring buffer of engine/src/ringbuffer.rs, from its own tests, and the theorems about it
-- at a channel of the requested capacity 3.
use Prim.Native.Nat.{bit_and}
use high_frequency_market_ma.Prelude.{
  none, ◌≢◌, map, length, ℕ, ◌*◌, ◌^◌, ◌≤◌, ◌<◌, max, ◌≡◌, refl, some, List, [], ◌∷◌, arith,
}
use high_frequency_market_ma.RingBuffer.{ok, err, next_power, make_inner, try_push, try_pop}
use high_frequency_market_ma.RingBuffer.Threads.{
  loaded, looked, Pair, push_load, push_write, push_store, pop_load, Reach, fresh, later,
}
use high_frequency_market_ma.RingBuffer.Races.{Reach-accepted, Reach-apart}
use high_frequency_market_ma.RingBuffer.Fifo.{
  Call, push, pop, pushed, popped, call, calls, answers, make_inner-answers,
}

abbrev some_calls : List (Call ℕ)
some_calls = push 1 ∷ push 2 ∷ pop ∷ push 3 ∷ push 4 ∷ push 5 ∷ push 6 ∷ pop ∷ []

-- `rejects_push_when_full`, with the oldest value first out afterwards
fills_and_drops :
    calls (make_inner 3) some_calls
    ≡ pushed ok
      ∷ pushed ok
      ∷ popped (some (some 1))
      ∷ pushed ok
      ∷ pushed ok
      ∷ pushed ok
      ∷ pushed (err 6)
      ∷ popped (some (some 2))
      ∷ []
unfolding call calls make_inner next_power try_push try_pop
fills_and_drops = refl

make_inner-answers_example :
    (k : ℕ) × (3 ≤ 2 ^ k)
    × (2 ^ k < 2 * max 3 2)
    × (calls (make_inner 3) some_calls
        ≡ answers (2 ^ k) (record { items = []; lost = 0 }) some_calls)
make_inner-answers_example = make_inner-answers 3 some_calls (omega arith)

-- One value is in the ring; the producer is about to write the next, and the consumer to read it.
abbrev both_inside : Pair ℕ
both_inside = record {
  ring = record {
    buf = some 7 ∷ none ∷ [];
    capacity = 2;
    mask = 1;
    head = 0;
    tail = 1;
    dropped = 0;
  };
  producer = loaded 8 1 0;
  consumer = looked 0 1;
  accepted = 7 ∷ [];
  returned = [];
}

both_inside-Reach : Reach 2 both_inside
unfolding make_inner next_power
both_inside-Reach =
    later (later (later (later (later fresh (push_load 7)) (push_write refl)) push_store) pop_load)
      (push_load 8)

Reach-accepted_example :
    (waiting : List ℕ) × (some 7 ∷ [] ≡ map some waiting) × (length waiting < 2 * max 2 2)
Reach-accepted_example = Reach-accepted {s = both_inside} (omega arith) both_inside-Reach

Reach-apart_example : bit_and 1 1 ≢ bit_and 0 1
Reach-apart_example =
    Reach-apart {s = both_inside} (omega arith) both_inside-Reach refl refl refl refl
