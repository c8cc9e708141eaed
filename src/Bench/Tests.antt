-- ===== src/Bench/Tests.antt =====
-- Runs of the benchmark of engine/src/bench.rs, and its theorems at one message.
use native.Mathlib.Nat.{mul-le-mul_left}
use high_frequency_market_ma.Prelude.{
  ℕ, zero, suc, ◌+◌, ◌*◌, ◌≡◌, ◌≢◌, ◌⊎◌, refl, none, some, List, [], ◌∷◌, ◌++◌, map, ltb→lt, inl,
  inr, arith,
}
use high_frequency_market_ma.Float.Fixed.{thousandths}
use high_frequency_market_ma.RingBuffer.{next_power, make_inner}
use high_frequency_market_ma.RingBuffer.Threads.{start_pair}
use high_frequency_market_ma.Bench.{
  BenchMsg, Run, push_turn, pop_turn, Turn, producer, consumer, turn, turns, start_run,
}
use high_frequency_market_ma.Bench.Running.{latencies}
use high_frequency_market_ma.Bench.Progress.{IsDone}
use high_frequency_market_ma.Bench.Finish.{Fair, over, round, turns-finish}
use high_frequency_market_ma.Bench.Summary.{
  insert_sorted, sort_unstable, Summary, rank, pct, print_latency_summary, run,
}
use high_frequency_market_ma.Bench.Summary.Ranks.{RankLaws}
use high_frequency_market_ma.Bench.Summary.Report.{IsRising, run-reports}

abbrev one_message : List BenchMsg
one_message = record { published_at = 5 } ∷ []

abbrev in_turn : ℕ → List Turn
in_turn zero = []
in_turn (suc n) = (producer ∷ consumer ∷ []) ++ in_turn n

in_turn-Fair : (n : ℕ) → Fair n (in_turn n)
in_turn-Fair zero = over []
in_turn-Fair (suc n) =
    round (producer ∷ consumer ∷ []) (in_turn n) (inl refl) (inr (inl refl)) (in_turn-Fair n)

abbrev seen : ℕ → ℕ
seen i = 9 + i

-- Three messages through a ring of two slots, with retries.
three_messages : List BenchMsg
three_messages =
    record { published_at = 5 } ∷ record { published_at = 7 } ∷ record { published_at = 8 } ∷ []

slow_consumer : List Turn
slow_consumer =
    producer
    ∷ producer
    ∷ producer
    ∷ producer
    ∷ producer
    ∷ producer
    ∷ producer
    ∷ producer
    ∷ in_turn 14

small_run : Run
unfolding three_messages
small_run = record {
  pair = start_pair 2;
  to_send = three_messages;
  received = 0;
  latencies_ns = [];
}

three_through :
    let s = turns seen 3 slow_consumer small_run in
    (s.latencies_ns ≡ some 4 ∷ some 3 ∷ some 3 ∷ []) × (s.to_send ≡ []) × (s.pair.ring.dropped ≡ 3)
unfolding turns turn push_turn pop_turn small_run slow_consumer three_messages make_inner next_power
three_through = (refl, refl, refl)

turns-finish_example :
    let s = turns seen 1 (in_turn 14) (start_run one_message) in
    IsDone 1 s
    × (s.pair.returned ≡ map some one_message)
    × (s.latencies_ns ≡ latencies seen 0 (map some one_message))
turns-finish_example = turns-finish seen one_message (in_turn 14) (in_turn-Fair 14)

-- Ten latencies, out of order: the half comes to index 5 and the others to the last.
ten_latencies :
    print_latency_summary {F = ℕ} (9 ∷ 3 ∷ 7 ∷ 1 ∷ 8 ∷ 2 ∷ 6 ∷ 4 ∷ 5 ∷ 10 ∷ [])
    ≡ some
        (record { min_ns = 1; mean_ns = 5500; p50_ns = 6; p99_ns = 10; p999_ns = 10; max_ns = 10 })
unfolding print_latency_summary sort_unstable insert_sorted pct rank
ten_latencies = refl

thousandths-RankLaws : RankLaws ℕ
thousandths-RankLaws = record {
  sub_one = λ n h. omega arith;
  mul_one = λ n h. omega arith;
  round_whole = λ n h. omega arith;
  scale_mono = λ n p q h.
      omega (arith, mul-le-mul_left {m = p} {n = q} (n * 1000) (omega (arith, ltb→lt p q h)));
  half_below = refl;
  p99_below = refl;
  p999_below = refl;
}

run-reports_example :
    ((one_message ≡ []) × (run {F = ℕ} seen one_message (in_turn 14) (λ i. (i, i + 2)) ≡ none))
    ⊎ ((a : Summary ℕ) × (b : Summary ℕ) × (one_message ≢ [])
        × (run seen one_message (in_turn 14) (λ i. (i, i + 2)) ≡ some (a, b))
        × IsRising a
        × IsRising b)
run-reports_example =
    run-reports thousandths-RankLaws seen one_message (in_turn 14) (λ i. (i, i + 2)) (omega arith)
      (in_turn-Fair 14)
