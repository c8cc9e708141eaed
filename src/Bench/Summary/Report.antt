-- ===== src/Bench/Summary/Report.antt =====
-- The report of engine/src/bench.rs: where it panics, and the order of its numbers.
use high_frequency_market_ma.Prelude.{
  ℕ, zero, suc, ◌+◌, ◌-◌, ◌*◌, ◌^◌, ◌≤◌, ◌<◌, ◌≡◌, ◌≢◌, refl, ap, ◌∙◌, none, some, List, [], ◌∷◌,
  map, length, length-map, length→nil, ◌⊎◌, inl, inr, get_elem?, arith,
}
use high_frequency_market_ma.Prelude.Word.{sub_u64}
use high_frequency_market_ma.Float.{Float}
use high_frequency_market_ma.Bench.{BenchMsg, elapsed_ns, Turn}
use high_frequency_market_ma.Bench.RoundTrip.{single_threaded_roundtrip_ns-costs}
use high_frequency_market_ma.Bench.Running.{latencies}
use high_frequency_market_ma.Bench.Finish.{Fair, turns-finish}
use high_frequency_market_ma.Bench.Summary.{
  sort_unstable, Summary, rank, pct, mean, print_latency_summary, measured_of, readings, n_rt,
  print_run, run,
}
use high_frequency_market_ma.Bench.Summary.Ranks.{
  sort_unstable-IsSorted, length-sort_unstable, get_elem?-some, get_elem?_mono, RankLaws, rank_mono,
  rank_last,
}

-- The numbers of a summary do not fall.
pub record IsRising {ℓ} {F : Type ℓ} (s : Summary F) : Type 0 where
  pub least : s.min_ns ≤ s.p50_ns
  pub half : s.p50_ns ≤ s.p99_ns
  pub p99 : s.p99_ns ≤ s.p999_ns
  pub last : s.p999_ns ≤ s.max_ns

measured_of-map : (l : List ℕ) → measured_of (map some l) ≡ some l
unfolding measured_of
measured_of-map [] = refl
measured_of-map (a ∷ l) = rw (measured_of-map l) refl

-- The times of the messages, without the option of a slot that was not written.
abbrev pub times : (ℕ → ℕ) → ℕ → List BenchMsg → List ℕ
times seen i [] = []
times seen i (m ∷ ms) = elapsed_ns (seen i) m.published_at ∷ times seen (suc i) ms

latencies-map :
    (seen : ℕ → ℕ) (i : ℕ) (sent : List BenchMsg)
    → latencies seen i (map some sent) ≡ map some (times seen i sent)
latencies-map seen i [] = refl
latencies-map seen i (m ∷ ms) =
    ap (λ l. some (elapsed_ns (seen i) m.published_at) ∷ l) (latencies-map seen (suc i) ms)

length-times :
    (seen : ℕ → ℕ) (i : ℕ) (sent : List BenchMsg) → length (times seen i sent) ≡ length sent
length-times seen i [] = refl
length-times seen i (m ∷ ms) = ap suc (length-times seen (suc i) ms)

length-readings : (clock : ℕ → ℕ × ℕ) (i n : ℕ) → length (readings clock i n) ≡ n
length-readings clock i zero = refl
length-readings clock i (suc n) = ap suc (length-readings clock (suc i) n)

module _ {ℓ} {F : Type ℓ} ⦃f : Float F⦄ (laws : RankLaws F) where
  summary-some :
      (l : List ℕ) {a b c d m : ℕ}
      → let sorted = sort_unstable l in
        get_elem? sorted 0 ≡ some a
        → pct sorted (f.literal 50 2) ≡ some b
        → pct sorted (f.literal 99 2) ≡ some c
        → pct sorted (f.literal 999 3) ≡ some d
        → get_elem? sorted (sub_u64 (length sorted) 1) ≡ some m
        → print_latency_summary {F = F} l
          ≡ some (record {
            min_ns = a;
            mean_ns = mean sorted;
            p50_ns = b;
            p99_ns = c;
            p999_ns = d;
            max_ns = m;
          })
  unfolding print_latency_summary
  summary-some l ea eb ec ed em = rw (ea, eb, ec, ed, em) refl

  -- Of at least one number, and at most 2 ^ 53, there is a summary.
  summary-IsRising :
      (l : List ℕ) (n : ℕ)
      → length l ≡ suc n
      → n < 2 ^ 53
      → (s : Summary F) × (print_latency_summary l ≡ some s) × IsRising s
  unfolding pct
  summary-IsRising l n e small =
      let sorted = sort_unstable l in
      let size : length sorted ≡ suc n = length-sort_unstable l ∙ e in
      let last_at : sub_u64 (length sorted) 1 ≡ n = omega (arith, size) in
      let half_le : rank (suc n) (f.literal 50 2) ≤ rank (suc n) (f.literal 99 2) =
        rank_mono laws n small (f.literal 50 2) (f.literal 99 2) laws.half_below in
      let p99_le : rank (suc n) (f.literal 99 2) ≤ rank (suc n) (f.literal 999 3) =
        rank_mono laws n small (f.literal 99 2) (f.literal 999 3) laws.p99_below in
      let p999_le : rank (suc n) (f.literal 999 3) ≤ n = omega (
        arith,
        rank_mono laws n small (f.literal 999 3) (f.literal 1 0) laws.p999_below,
        rank_last laws n small,
      ) in
      let (a, ea) = get_elem?-some sorted 0 (omega arith) in
      let (b, eb) = get_elem?-some sorted (rank (suc n) (f.literal 50 2)) (omega arith) in
      let (c, ec) = get_elem?-some sorted (rank (suc n) (f.literal 99 2)) (omega arith) in
      let (d, ed) = get_elem?-some sorted (rank (suc n) (f.literal 999 3)) (omega arith) in
      let (m, em) = get_elem?-some sorted n (omega arith) in
      let order = sort_unstable-IsSorted l in
      let at : (p : F) → pct sorted p ≡ get_elem? sorted (rank (suc n) p) =
        λ p. ap (λ k. get_elem? sorted (rank k p)) size in
      (
        _,
        summary-some l ea (at (f.literal 50 2) ∙ eb) (at (f.literal 99 2) ∙ ec)
            (at (f.literal 999 3) ∙ ed) (ap (get_elem? sorted) last_at ∙ em),
        record {
          least = get_elem?_mono sorted _ _ order (omega arith) ea eb;
          half = get_elem?_mono sorted _ _ order half_le eb ec;
          p99 = get_elem?_mono sorted _ _ order p99_le ec ed;
          last = get_elem?_mono sorted _ _ order p999_le ed em;
        },
      )

  run-reported :
      (seen : ℕ → ℕ) (sent : List BenchMsg) (schedule : List Turn) (clock : ℕ → ℕ × ℕ)
      → Fair (10 * length sent + 4) schedule
      → run {F = F} seen sent schedule clock ≡ print_run (times seen 0 sent) clock
  unfolding run
  run-reported seen sent schedule clock fair =
      let (d, all, measured) = turns-finish seen sent schedule fair in
      rw (measured, latencies-map seen 0 sent, measured_of-map (times seen 0 sent)) refl

  print_run-IsRising :
      (l : List ℕ) (clock : ℕ → ℕ × ℕ) (n : ℕ)
      → length l ≡ suc n
      → n < 2 ^ 53
      → (a : Summary F) × (b : Summary F) × (print_run l clock ≡ some (a, b))
        × IsRising a
        × IsRising b
  unfolding print_run
  print_run-IsRising l clock n e small =
      let (a, ea, ra) = summary-IsRising l n e small in
      let rounds = readings clock 0 (n_rt (length l)) in
      let costs = map (λ r. elapsed_ns r.1 r.0) rounds in
      let (b, eb, rb) =
        summary-IsRising costs (n_rt (length l) - 1)
          (omega (
            arith,
            length-map (λ r. elapsed_ns r.1 r.0) rounds,
            length-readings clock 0 (n_rt (length l)),
          ))
          (omega arith) in
      (a, b, rw (ea, single_threaded_roundtrip_ns-costs rounds, eb) refl, ra, rb)

  reported :
      (l : List ℕ) (clock : ℕ → ℕ × ℕ)
      → length l ≤ 2 ^ 53
      → ((l ≡ []) × (print_run {F = F} l clock ≡ none))
        ⊎ ((a : Summary F) × (b : Summary F) × (l ≢ [])
            × (print_run l clock ≡ some (a, b))
            × IsRising a
            × IsRising b)
  unfolding print_run print_latency_summary sort_unstable
  reported [] clock le = inl (refl, refl)
  reported (x ∷ l) clock le =
      let (a, b, e, ra, rb) = print_run-IsRising (x ∷ l) clock (length l) refl (omega arith) in
      inr (a, b, λ empty. cc, e, ra, rb)

  -- Where the floats obey the laws of f64 at whole numbers and at 1, there are at most 2 ^ 53
  -- messages, and the schedule has 10 n + 4 rounds for n messages in which both threads take a
  -- step, the benchmark panics where there are no messages; else it prints two summaries, in
  -- each of which the minimum, the median, the 99th and the 99.9th percentile and the maximum
  -- do not fall.
  pub run-reports :
      (seen : ℕ → ℕ) (sent : List BenchMsg) (schedule : List Turn) (clock : ℕ → ℕ × ℕ)
      → length sent ≤ 2 ^ 53
      → Fair (10 * length sent + 4) schedule
      → ((sent ≡ []) × (run {F = F} seen sent schedule clock ≡ none))
        ⊎ ((a : Summary F) × (b : Summary F) × (sent ≢ [])
            × (run seen sent schedule clock ≡ some (a, b))
            × IsRising a
            × IsRising b)
  run-reports seen sent schedule clock le fair =
      let size = length-times seen 0 sent in
      let e = run-reported seen sent schedule clock fair in
      elim (reported (times seen 0 sent) clock (omega (arith, size))) [
        | inl (empty, panics) ↦
            inl (length→nil sent (omega (arith, size, ap length empty)), e ∙ panics)
        | inr (a, b, some_there, prints, ra, rb) ↦
            inr (a, b, λ empty. some_there (ap (times seen 0) empty), e ∙ prints, ra, rb)
      ]
