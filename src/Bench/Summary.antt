-- ===== src/Bench/Summary.antt =====
-- What engine/src/bench.rs prints: the summary of a list of latencies, and all of `run`, where `none`
-- is a panic.
pub mod Ranks
pub mod Report
use high_frequency_market_ma.Prelude.{
  ℕ, zero, suc, ◌%◌, ◌^◌, min, max, Bool, Option, none, some, List, [], ◌∷◌, length, get_elem?,
  sum_by, leb, if◌then◌else◌, ◌>>=◌,
}
use high_frequency_market_ma.Prelude.Int.{pos}
use high_frequency_market_ma.Prelude.Word.{sub_u64}
use high_frequency_market_ma.Float.{Float}
use high_frequency_market_ma.Bench.{
  BenchMsg, Run, Turn, turns, start_run, single_threaded_roundtrip_ns,
}

-- `sort_unstable` of the numbers; equal ones cannot be told apart.
unfoldable pub insert_sorted : ℕ → List ℕ → List ℕ
insert_sorted a [] = a ∷ []
insert_sorted a (b ∷ l) =
    let inserted = insert_sorted a l in if leb a b then a ∷ b ∷ l else b ∷ inserted

unfoldable pub sort_unstable : List ℕ → List ℕ
sort_unstable [] = []
sort_unstable (a ∷ l) = insert_sorted a (sort_unstable l)

pub record Summary {ℓ} (F : Type ℓ) : Type ℓ where
  pub min_ns : ℕ
  pub mean_ns : F
  pub p50_ns : ℕ
  pub p99_ns : ℕ
  pub p999_ns : ℕ
  pub max_ns : ℕ

-- The latencies that the consumer returns; there are none where it took a slot that was not written.
unfoldable pub measured_of : List (Option ℕ) → Option (List ℕ)
measured_of [] = some []
measured_of (none ∷ l) = none
measured_of (some a ∷ l) = do rest ← measured_of l; some (a ∷ rest)

-- The readings of the clock in a number of rounds.
abbrev pub readings : (ℕ → ℕ × ℕ) → ℕ → ℕ → List (ℕ × ℕ)
readings clock i zero = []
readings clock i (suc n) = clock i ∷ readings clock (suc i) n

abbrev pub n_rt : ℕ → ℕ
n_rt n = max (min n 200000) 1000

module _ {ℓ} {F : Type ℓ} ⦃f : Float F⦄ where
  -- The index that `pct` reads.
  unfoldable pub rank : ℕ → F → ℕ
  rank n p = f.round_usize (f.mul (f.sub (f.of_int (pos n)) (f.literal 1 0)) p)

  unfoldable pub pct : List ℕ → F → Option ℕ
  pct latencies_ns p = get_elem? latencies_ns (rank (length latencies_ns) p)

  -- The sum, which wraps, over the count.
  abbrev pub mean : List ℕ → F
  mean latencies_ns =
      f.div (f.of_int (pos (sum_by (λ ns. ns) latencies_ns % 2 ^ 64)))
        (f.of_int (pos (length latencies_ns)))

  unfoldable pub print_latency_summary : List ℕ → Option (Summary F)
  print_latency_summary unsorted =
      let latencies_ns = sort_unstable unsorted in
      do
        min_ns ← get_elem? latencies_ns 0
        p50_ns ← pct latencies_ns (f.literal 50 2)
        p99_ns ← pct latencies_ns (f.literal 99 2)
        p999_ns ← pct latencies_ns (f.literal 999 3)
        max_ns ← get_elem? latencies_ns (sub_u64 (length latencies_ns) 1)
        some (record {
          min_ns = min_ns;
          mean_ns = mean latencies_ns;
          p50_ns = p50_ns;
          p99_ns = p99_ns;
          p999_ns = p999_ns;
          max_ns = max_ns;
        })

  -- What `run` prints once its threads are joined.
  unfoldable pub print_run : List ℕ → (ℕ → ℕ × ℕ) → Option (Summary F × Summary F)
  print_run latencies_ns clock = do
    handed_over ← print_latency_summary latencies_ns
    costs_ns ← single_threaded_roundtrip_ns (readings clock 0 (n_rt (length latencies_ns)))
    on_one_thread ← print_latency_summary costs_ns
    some (handed_over, on_one_thread)

  -- `run` for these messages, its threads scheduled like this.
  unfoldable pub run :
      (ℕ → ℕ) → List BenchMsg → List Turn → (ℕ → ℕ × ℕ) → Option (Summary F × Summary F)
  run seen sent schedule clock = do
    latencies_ns ← measured_of (turns seen (length sent) schedule (start_run sent)).latencies_ns
    print_run latencies_ns clock
