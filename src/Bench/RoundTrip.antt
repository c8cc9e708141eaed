-- ===== src/Bench/RoundTrip.antt =====
-- The benchmark of engine/src/bench.rs on a single thread: a push and a pop, back to back.
use high_frequency_market_ma.Prelude.{
  ℕ, ◌^◌, ◌<◌, ◌≡◌, refl, sym, ap, ◌∙◌, Option, some, List, [], ◌∷◌, ◌++◌, map, append_assoc, none,
  append-nil, arith,
}
use high_frequency_market_ma.RingBuffer.{RingInner, Pushed, ok, err, try_push, try_pop}
use high_frequency_market_ma.RingBuffer.Queue.{Holds, try_push-room, try_pop-cons}
use high_frequency_market_ma.RingBuffer.Fifo.{make_inner-Refines}
use high_frequency_market_ma.Bench.{
  BenchMsg, elapsed_ns, popped_cost, pushed_cost, round_cost, round_costs,
  single_threaded_roundtrip_ns,
}

abbrev cost : ℕ × ℕ → ℕ
cost (t0, t1) = elapsed_ns t1 t0

pushed_cost-ok :
    (t0 t1 : ℕ) (p : RingInner BenchMsg × Pushed BenchMsg)
    → p.1 ≡ ok
    → pushed_cost t0 t1 p ≡ popped_cost t0 t1 (try_pop p.0)
pushed_cost-ok t0 t1 (ring, ok) e = refl
pushed_cost-ok t0 t1 (ring, err m) e = cc

popped_cost-some :
    (t0 t1 : ℕ) (p : RingInner BenchMsg × Option (Option BenchMsg)) {m : Option BenchMsg}
    → p.1 ≡ some m
    → popped_cost t0 t1 p ≡ some (p.0, elapsed_ns t1 t0)
popped_cost-some t0 t1 (ring, none) e = cc
popped_cost-some t0 t1 (ring, some m) e = refl

-- A round on an empty ring leaves it empty.
round_cost-Holds :
    (t0 t1 : ℕ) {k : ℕ} {ring : RingInner BenchMsg}
    → 0 < 2 ^ k
    → Holds k ring []
    → (ring' : RingInner BenchMsg) × (round_cost t0 t1 ring ≡ some (ring', elapsed_ns t1 t0))
      × Holds k ring' []
unfolding round_cost
round_cost-Holds t0 t1 {ring = ring} room h =
    let msg : BenchMsg = record { published_at = t0 } in
    let (accepted, holds) = try_push-room msg h room in
    let (oldest, empty) = try_pop-cons holds in
    (
      (try_pop (try_push ring msg).0).0,
      pushed_cost-ok t0 t1 (try_push ring msg) accepted
          ∙ popped_cost-some t0 t1 (try_pop (try_push ring msg).0) oldest,
      empty,
    )

round_costs_lem :
    (clock : List (ℕ × ℕ)) (costs_ns : List ℕ) {k : ℕ} {ring : RingInner BenchMsg}
    → 0 < 2 ^ k
    → Holds k ring []
    → round_costs clock ring costs_ns ≡ some (costs_ns ++ map cost clock)
unfolding round_costs
round_costs_lem [] costs_ns room h = ap some (sym (append-nil costs_ns))
round_costs_lem ((t0, t1) ∷ clock) costs_ns room h =
    let (ring', e, h') = round_cost-Holds t0 t1 room h in
    rw e (
      round_costs_lem clock (costs_ns ++ elapsed_ns t1 t0 ∷ []) room h'
      ∙ ap some (append_assoc costs_ns (elapsed_ns t1 t0 ∷ []) (map cost clock)))

-- The benchmark on one thread does not panic, however many rounds it has: it returns the time that
-- each round took, in their order.
pub single_threaded_roundtrip_ns-costs :
    (clock : List (ℕ × ℕ))
    → single_threaded_roundtrip_ns clock ≡ some (map (λ r. elapsed_ns r.1 r.0) clock)
unfolding single_threaded_roundtrip_ns
single_threaded_roundtrip_ns-costs clock =
    let (k, room, least, s) = make_inner-Refines BenchMsg 64 (omega arith) in
    round_costs_lem clock [] (omega arith) s.holds
