-- ===== src/Bench/Running.antt =====
-- The threads of engine/src/bench.rs while they run: what is true behind each of their steps.
use high_frequency_market_ma.Prelude.{
  ℕ, suc, ◌+◌, ◌≤◌, ◌<◌, ◌≡◌, refl, sym, ap, ◌∙◌, Option, List, [], ◌∷◌, ◌++◌, append_assoc, length,
  length-append, ltb, leb, ◌==◌, Bool-cases, inl, inr, ltb→lt, arith,
}
use high_frequency_market_ma.Prelude.Word.{sub_u64}
use high_frequency_market_ma.RingBuffer.{make_inner}
use high_frequency_market_ma.RingBuffer.Queue.{Holds}
use high_frequency_market_ma.RingBuffer.Threads.{
  Pushing, outside, loaded, written, Popping, away, looked, taken, Pair, push_load, push_full,
  push_write, push_store, pop_load, pop_empty, pop_read, pop_store, fresh,
}
use high_frequency_market_ma.RingBuffer.Races.{Inv, Step-Inv, Reach-Inv}
use high_frequency_market_ma.Bench.{
  BenchMsg, latency, Run, later_messages, next_push, push_turn, pop_turn, Turn, producer, consumer,
  turn, start_run,
}

-- The time that each message took, by the reading of the clock behind its place.
abbrev pub latencies : (ℕ → ℕ) → ℕ → List (Option BenchMsg) → List (Option ℕ)
latencies seen i [] = []
latencies seen i (x ∷ xs) = latency (seen i) x ∷ latencies seen (suc i) xs

latencies-append :
    (seen : ℕ → ℕ) (i j : ℕ) (xs : List (Option BenchMsg)) (x : Option BenchMsg)
    → i + length xs ≡ j
    → latencies seen i (xs ++ x ∷ []) ≡ latencies seen i xs ++ latency (seen j) x ∷ []
latencies-append seen i j [] x e = ap (λ n. latency (seen n) x ∷ []) (omega arith)
latencies-append seen i j (y ∷ xs) x e =
    ap (λ z. latency (seen i) y ∷ z) (latencies-append seen (suc i) j xs x (omega arith))

-- A call that is under way is for the first message that is still to be sent.
abbrev pub Busy : Pushing BenchMsg → List BenchMsg → Type 0
Busy outside ms = Unit
Busy (loaded v t h) ms = (rest : List BenchMsg) × (ms ≡ v ∷ rest)
Busy (written v t) ms = (rest : List BenchMsg) × (ms ≡ v ∷ rest)

-- A consumer that has begun a call still waits for a message.
abbrev pub Waits : ℕ → ℕ → Popping BenchMsg → Type 0
Waits received n away = received ≤ n
Waits received n (looked h t) = received < n
Waits received n (taken x h) = received < n

module _ (seen : ℕ → ℕ) (sent : List BenchMsg) where
  pub record Running (k : ℕ) (s : Run) : Type 0 where
    pub inv : Inv k s.pair
    pub order : sent ≡ s.pair.accepted ++ s.to_send
    pub busy : Busy s.pair.producer s.to_send
    pub waits : Waits s.received (length sent) s.pair.consumer
    pub count : s.received ≡ length s.pair.returned
    pub measured : s.latencies_ns ≡ latencies seen 0 s.pair.returned

  -- A step inside of a call changes no list of messages.
  inside :
      {k : ℕ} {s : Run} (p : Pair BenchMsg)
      → Running k s
      → Inv k p
      → Busy p.producer s.to_send
      → Waits s.received (length sent) p.consumer
      → p.accepted ≡ s.pair.accepted
      → p.returned ≡ s.pair.returned
      → Running k (record s { pair = p })
  inside {s = s} p i inv busy waits accepted returned = record {
    inv = inv;
    order = i.order ∙ ap (λ l. l ++ s.to_send) (sym accepted);
    busy = busy;
    waits = waits;
    count = i.count ∙ ap length (sym returned);
    measured = i.measured ∙ ap (latencies seen 0) (sym returned);
  }

  next_push-Running :
      (ms : List BenchMsg) (s : Run) {k : ℕ}
      → s.to_send ≡ ms
      → Running k (record s { pair = record s.pair { producer = outside } })
      → Running k (next_push ms (record s { pair = record s.pair { producer = outside } }))
  next_push-Running [] s e i = i
  next_push-Running (m ∷ ms) s e i =
      inside _ i (Step-Inv (push_load m) i.inv) (ms, e) i.waits refl refl

  push_turn-Running :
      (p : Pushing BenchMsg) (s : Run) {k : ℕ}
      → Running k (record s { pair = record s.pair { producer = p } })
      → Running k (push_turn p (record s { pair = record s.pair { producer = p } }))
  unfolding push_turn
  push_turn-Running outside s i = next_push-Running s.to_send s refl i
  push_turn-Running (loaded v t h) s i =
      elim (Bool-cases (leb s.pair.ring.capacity (sub_u64 t h))) [
        | inl full ↦ rw full (inside _ i (Step-Inv (push_full full) i.inv) tt i.waits refl refl)
        | inr room ↦
            rw room (inside _ i (Step-Inv (push_write room) i.inv) i.busy i.waits refl refl)
      ]
  push_turn-Running (written v t) s i =
      let (rest, e) = i.busy in
      record {
        inv = Step-Inv push_store i.inv;
        order =
            i.order
            ∙ ap (λ ms. s.pair.accepted ++ ms) e
            ∙ sym (append_assoc s.pair.accepted (v ∷ []) rest)
            ∙ ap (λ ms. (s.pair.accepted ++ v ∷ []) ++ later_messages ms) (sym e);
        busy = tt;
        waits = i.waits;
        count = i.count;
        measured = i.measured;
      }

  pop_turn-Running :
      (c : Popping BenchMsg) (s : Run) {k : ℕ}
      → Running k (record s { pair = record s.pair { consumer = c } })
      → Running k
          (pop_turn seen (length sent) c (record s { pair = record s.pair { consumer = c } }))
  unfolding pop_turn
  pop_turn-Running away s i = elim (Bool-cases (ltb s.received (length sent))) [
    | inl more ↦ rw more (inside _ i (Step-Inv pop_load i.inv) i.busy (ltb→lt _ _ more) refl refl)
    | inr done ↦ rw done i
  ]
  pop_turn-Running (looked h t) s i = elim (Bool-cases (h == t)) [
    | inl empty ↦
        rw empty
          (inside _ i (Step-Inv (pop_empty empty) i.inv) i.busy (omega (arith, i.waits)) refl refl)
    | inr some_there ↦
        rw some_there (inside _ i (Step-Inv (pop_read some_there) i.inv) i.busy i.waits refl refl)
  ]
  pop_turn-Running (taken x h) s i = record {
    inv = Step-Inv pop_store i.inv;
    order = i.order;
    busy = i.busy;
    waits = omega (arith, i.waits);
    count = omega (arith, i.count, length-append s.pair.returned (x ∷ []));
    measured =
        ap (λ l. l ++ latency (seen s.received) x ∷ []) i.measured
        ∙ sym (latencies-append seen 0 s.received s.pair.returned x (omega (arith, i.count)));
  }

  pub turn-Running :
      (t : Turn) (s : Run) {k : ℕ} → Running k s → Running k (turn seen (length sent) t s)
  unfolding turn
  turn-Running producer s i = push_turn-Running s.pair.producer s i
  turn-Running consumer s i = pop_turn-Running s.pair.consumer s i

  pub start_run-Running :
      {k : ℕ} → Holds {T = BenchMsg} k (make_inner 8192) [] → Running k (start_run sent)
  unfolding start_run
  start_run-Running h = record {
    inv = Reach-Inv h fresh;
    order = refl;
    busy = tt;
    waits = omega arith;
    count = refl;
    measured = refl;
  }
