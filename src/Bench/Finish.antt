-- ===== src/Bench/Finish.antt =====
-- The threads of engine/src/bench.rs come to the end of their loops, with every message delivered.
use high_frequency_market_ma.Prelude.{
  ℕ, suc, ◌+◌, ◌*◌, ◌≤◌, ◌<◌, ◌≡◌, ◌⊎◌, refl, sym, ap, ◌∙◌, subst, Bool, true, false, ltb, some,
  List, [], ◌∷◌, ◌++◌, map, append-nil, length, length→nil, inl, inr, arith,
}
use high_frequency_market_ma.RingBuffer.Fifo.{make_inner-Refines}
use high_frequency_market_ma.Bench.{
  BenchMsg, Run, next_push, push_turn, pop_turn, Turn, producer, consumer, turn, turns, start_run,
}
use high_frequency_market_ma.Bench.Running.{latencies, Running, turn-Running, start_run-Running}
use high_frequency_market_ma.Bench.Progress.{
  IsDone, vacant, lead, rest, turn-GetsOn, counts, rest-start_run,
}

-- Some turn of a schedule is this one.
abbrev pub Has : Turn → List Turn → Type 0
Has t [] = ⊥
Has t (u ∷ us) = (u ≡ t) ⊎ Has t us

-- A schedule has n rounds, one after the other, in each of which both threads take a step.
pub data Fair : ℕ → List Turn → Type 0 where
  over : (ts : List Turn) → Fair 0 ts
  round :
      {n : ℕ} (us ts : List Turn)
      → Has producer us
      → Has consumer us
      → Fair n ts
      → Fair (suc n) (us ++ ts)

module _ (seen : ℕ → ℕ) (n : ℕ) where
  -- What is done stays so.
  turn-done : (t : Turn) (s : Run) → IsDone n s → turn seen n t s ≡ s
  unfolding turn push_turn pop_turn
  turn-done producer s d = ap (λ p. push_turn p s) d.pushing ∙ ap (λ ms. next_push ms s) d.to_send
  turn-done consumer s d =
      let over : ltb s.received n ≡ false = ground (arith, d.received) in
      ap (λ c. pop_turn seen n c s) d.popping ∙ rw over refl

  turns-append :
      (us ts : List Turn) (s : Run)
      → turns seen n (us ++ ts) s ≡ turns seen n ts (turns seen n us s)
  unfolding turns
  turns-append [] ts s = refl
  turns-append (u ∷ us) ts s = turns-append us ts (turn seen n u s)

  turns-IsDone : (ts : List Turn) (s : Run) → IsDone n s → IsDone n (turns seen n ts s)
  unfolding turns
  turns-IsDone [] s d = d
  turns-IsDone (t ∷ ts) s d = turns-IsDone ts _ (subst (IsDone n) (sym (turn-done t s d)) d)

module _ {k : ℕ} {seen : ℕ → ℕ} {sent : List BenchMsg} where
  turns-Running :
      (ts : List Turn) (s : Run)
      → Running seen sent k s
      → Running seen sent k (turns seen (length sent) ts s)
  unfolding turns
  turns-Running [] s i = i
  turns-Running (t ∷ ts) s i = turns-Running ts _ (turn-Running _ _ t s i)

  -- No turn sets the end back.
  turns-rest :
      (ts : List Turn) (s : Run)
      → Running seen sent k s
      → (rest (length sent) (turns seen (length sent) ts s) ≤ rest (length sent) s)
        ⊎ IsDone (length sent) (turns seen (length sent) ts s)
  unfolding turns
  turns-rest [] s i = inl (omega arith)
  turns-rest (t ∷ ts) s i = elim (turn-GetsOn t s i) [
    | inr (inr d) ↦ inr (turns-IsDone seen _ (t ∷ ts) s d)
    | inr (inl (le, same, ne)) ↦ elim (turns-rest ts _ (turn-Running _ _ t s i)) [
      | inl le' ↦ inl (omega arith)
      | inr d ↦ inr d
    ]
    | inl lt ↦ elim (turns-rest ts _ (turn-Running _ _ t s i)) [
      | inl le' ↦ inl (omega arith)
      | inr d ↦ inr d
    ]
  ]

  -- A round in which the thread that is asked for takes a step brings the end closer.
  turns-closer :
      (ts : List Turn) (s : Run)
      → Running seen sent k s
      → Has (lead (vacant s)) ts
      → (rest (length sent) (turns seen (length sent) ts s) < rest (length sent) s)
        ⊎ IsDone (length sent) (turns seen (length sent) ts s)
  unfolding turns
  turns-closer [] s i h = absurd h
  turns-closer (t ∷ ts) s i h = elim (turn-GetsOn t s i) [
    | inr (inr d) ↦ inr (turns-IsDone seen _ (t ∷ ts) s d)
    | inr (inl (le, same, ne)) ↦ elim h [
      | inl e ↦ absurd (ne e)
      | inr h' ↦
          elim (turns-closer ts _ (turn-Running _ _ t s i)
            (subst (λ b. Has (lead b) ts) (sym same) h')) [
              | inl lt ↦ inl (omega arith)
              | inr d ↦ inr d
            ]
    ]
    | inl lt ↦ elim (turns-rest ts _ (turn-Running _ _ t s i)) [
      | inl le ↦ inl (omega arith)
      | inr d ↦ inr d
    ]
  ]

  round-closer :
      (us : List Turn) (s : Run)
      → Running seen sent k s
      → Has producer us
      → Has consumer us
      → (rest (length sent) (turns seen (length sent) us s) < rest (length sent) s)
        ⊎ IsDone (length sent) (turns seen (length sent) us s)
  round-closer us s i hp hc = turns-closer us s i (asked (vacant s))
    where
      asked : (b : Bool) → Has (lead b) us
      asked true = hp
      asked false = hc

  turns-Fair :
      {rounds : ℕ} {ts : List Turn} (s : Run)
      → Fair rounds ts
      → Running seen sent k s
      → rest (length sent) s < rounds
      → IsDone (length sent) (turns seen (length sent) ts s)
  turns-Fair s (over ts) i lt = absurd (omega arith)
  turns-Fair s (round us ts hp hc f) i lt =
      rw (turns-append seen (length sent) us ts s) (elim (round-closer us s i hp hc) [
        | inl closer ↦ turns-Fair _ f (turns-Running us s i) (omega arith)
        | inr d ↦ turns-IsDone seen (length sent) ts _ d
      ])

  -- At the end the ring is empty, and every message has come through.
  IsDone-returned :
      {s : Run} → Running seen sent k s → IsDone (length sent) s → s.pair.returned ≡ map some sent
  IsDone-returned {s} i d =
      let none_left : i.inv.q ≡ [] =
        length→nil i.inv.q (omega (arith, counts i, d.received, ap length d.to_send)) in
      let taken : sent ≡ s.pair.accepted =
        i.order ∙ ap (λ l. s.pair.accepted ++ l) d.to_send ∙ append-nil s.pair.accepted in
      sym (append-nil s.pair.returned)
      ∙ ap (λ q. s.pair.returned ++ map some q) (sym none_left)
      ∙ sym i.inv.log
      ∙ ap (map some) (sym taken)

-- Where the threads of the benchmark take their atomic steps by a schedule that has 10 n + 4
-- rounds for n messages, in each of which both threads take at least one step, both loops come to
-- their end: the consumer has taken every message once, in the order of the producer, and has
-- measured the time of each.
pub turns-finish :
    (seen : ℕ → ℕ) (sent : List BenchMsg) (schedule : List Turn)
    → Fair (10 * length sent + 4) schedule
    → let s = turns seen (length sent) schedule (start_run sent) in
      IsDone (length sent) s
      × (s.pair.returned ≡ map some sent)
      × (s.latencies_ns ≡ latencies seen 0 (map some sent))
turns-finish seen sent schedule f =
    let (k, room, least, new) = make_inner-Refines BenchMsg 8192 (omega arith) in
    let i = start_run-Running seen sent new.holds in
    let i' = turns-Running schedule _ i in
    let d = turns-Fair _ f i (omega (arith, rest-start_run sent)) in
    let all = IsDone-returned i' d in (d, all, i'.measured ∙ ap (latencies seen 0) all)
