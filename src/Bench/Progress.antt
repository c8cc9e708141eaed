-- ===== src/Bench/Progress.antt =====
-- The threads of engine/src/bench.rs get on: the thread that the state of the ring asks for comes
-- closer to the end with each of its steps, and the other one does not set it back.
use native.Mathlib.Nat.{one-le-pow}
use high_frequency_market_ma.Prelude.{
  ℕ, ◌+◌, ◌-◌, ◌*◌, ◌≤◌, ◌<◌, ◌≡◌, ◌≢◌, ◌⊎◌, refl, ap, ◌∙◌, Bool, true, false, some, List, [], ◌∷◌,
  map, length, length-append, length-map, ltb, leb, ◌==◌, if◌then◌else◌, not, Bool-cases, inl, inr,
  ==→eq, ==_self, lt→leb_false, ltb_false→le, arith,
}
use high_frequency_market_ma.Prelude.Word.{sub_u64}
use high_frequency_market_ma.RingBuffer.{RingInner}
use high_frequency_market_ma.RingBuffer.View.{View-count}
use high_frequency_market_ma.RingBuffer.Threads.{
  Pushing, outside, loaded, written, Popping, away, looked, taken,
}
use high_frequency_market_ma.Bench.{
  BenchMsg, Run, later_messages, next_push, push_turn, pop_turn, Turn, producer, consumer, turn,
  start_run,
}
use high_frequency_market_ma.Bench.Running.{Waits, Running}

-- Both loops of `run` are over.
pub record IsDone (n : ℕ) (s : Run) : Type 0 where
  pub pushing : s.pair.producer ≡ outside
  pub to_send : s.to_send ≡ []
  pub popping : s.pair.consumer ≡ away
  pub received : s.received ≡ n

abbrev pub vacant : Run → Bool
vacant s = s.pair.ring.head == s.pair.ring.tail

-- Whose step it takes: the producer's on an empty ring, and else the consumer's.
abbrev pub lead : Bool → Turn
lead true = producer
lead false = consumer

-- The steps that the producer takes until its store, if the ring is empty.
abbrev push_left : RingInner BenchMsg → Pushing BenchMsg → ℕ
push_left r outside = 3
push_left r (loaded v t h) = if leb r.capacity (sub_u64 t h) then 4 else 2
push_left r (written v t) = 1

-- The steps that the consumer takes until its store, if the ring is not empty.
abbrev pop_left : Popping BenchMsg → ℕ
pop_left away = 3
pop_left (looked h t) = if h == t then 4 else 2
pop_left (taken x h) = 1

abbrev left : Bool → Run → ℕ
left true s = push_left s.pair.ring s.pair.producer
left false s = pop_left s.pair.consumer

-- What is still to be done.
abbrev pub rest : ℕ → Run → ℕ
rest n s = 5 * (length s.to_send + (n - s.received)) + left (vacant s) s

-- A step that does not bring the end closer is one of the thread that is not asked for, or comes
-- after the end.
abbrev pub GetsOn : ℕ → Turn → Run → Run → Type 0
GetsOn n t s s' =
    (rest n s' < rest n s)
    ⊎ ((rest n s' ≤ rest n s) × (vacant s' ≡ vacant s) × (t ≢ lead (vacant s)))
    ⊎ IsDone n s

push_left-le : (r : RingInner BenchMsg) (p : Pushing BenchMsg) → push_left r p ≤ 4
push_left-le r outside = omega arith
push_left-le r (loaded v t h) = ground arith
push_left-le r (written v t) = omega arith

pop_left-le : (c : Popping BenchMsg) → pop_left c ≤ 4
pop_left-le away = omega arith
pop_left-le (looked h t) = ground arith
pop_left-le (taken x h) = omega arith

left-le : (b : Bool) (s : Run) → left b s ≤ 4
left-le true s = push_left-le s.pair.ring s.pair.producer
left-le false s = pop_left-le s.pair.consumer

same_or_not : (x b : Bool) → (x ≡ b) ⊎ (x ≡ not b)
same_or_not true true = inl refl
same_or_not true false = inr refl
same_or_not false true = inr refl
same_or_not false false = inl refl

lead-ne : (b : Bool) → lead b ≢ lead (not b)
lead-ne true = λ e. cc
lead-ne false = λ e. cc

module _ (n : ℕ) (s s' : Run) where
  -- A step of a thread inside of its call.
  inside-GetsOn :
      (b : Bool)
      → length s'.to_send + (n - s'.received) ≡ length s.to_send + (n - s.received)
      → vacant s' ≡ vacant s
      → (vacant s ≡ b → left b s' < left b s)
      → left (not b) s' ≡ left (not b) s
      → GetsOn n (lead b) s s'
  inside-GetsOn b todo same closer other = elim (same_or_not (vacant s) b) [
    | inl e ↦
        inl (omega (arith, todo, ap (λ x. left x s') (same ∙ e), ap (λ x. left x s) e, closer e))
    | inr e ↦ inr (
        inl (
          omega (arith, todo, ap (λ x. left x s') (same ∙ e), ap (λ x. left x s) e, other),
          same,
          λ l. lead-ne b (l ∙ ap lead e),
        ))
  ]

  -- A step that hands a message on.
  store-GetsOn :
      (t : Turn)
      → length s'.to_send + (n - s'.received) < length s.to_send + (n - s.received)
      → GetsOn n t s s'
  store-GetsOn t less = inl (omega (arith, left-le (vacant s') s'))

over-away : (c : Popping BenchMsg) {received n : ℕ} → Waits received n c → received ≡ n → c ≡ away
over-away away w e = refl
over-away (looked h t) w e = absurd (omega arith)
over-away (taken x h) w e = absurd (omega arith)

module _ {k : ℕ} {seen : ℕ → ℕ} {sent : List BenchMsg} where
  -- On an empty ring there is room.
  vacant-room :
      {s : Run}
      → Running seen sent k s
      → vacant s ≡ true
      → leb s.pair.ring.capacity (sub_u64 s.pair.ring.tail s.pair.ring.head) ≡ false
  vacant-room {s} i e =
      lt→leb_false _ _
        (omega (arith, ==→eq _ _ e, i.inv.view.capacity, one-le-pow k 2 (omega arith)))

  pub counts :
      {s : Run} (i : Running seen sent k s)
      → length sent ≡ s.received + length i.inv.q + length s.to_send
  counts {s} i = omega (
    arith,
    i.count,
    ap length i.order,
    length-append s.pair.accepted s.to_send,
    ap length i.inv.log,
    length-append s.pair.returned (map some i.inv.q),
    length-map (λ m. some m) s.pair.accepted,
    length-map (λ m. some m) i.inv.q,
  )

  -- Where the loop of one thread is over, and the ring is as it leaves it, so is the other's.
  vacant-IsDone :
      {s : Run}
      → Running seen sent k s
      → vacant s ≡ true
      → s.pair.producer ≡ outside
      → s.to_send ≡ []
      → IsDone (length sent) s
  vacant-IsDone {s} i e p none_left =
      let nothing : length i.inv.q ≡ 0 = omega (arith, View-count i.inv.view, ==→eq _ _ e) in
      let all : s.received ≡ length sent = omega (arith, counts i, nothing, ap length none_left) in
      record {
        pushing = p;
        to_send = none_left;
        popping = over-away s.pair.consumer i.waits all;
        received = all;
      }

  full_count : {s : Run} → Running seen sent k s → length sent ≤ s.received → vacant s ≡ true
  full_count {s} i le =
      let same : s.pair.ring.head ≡ s.pair.ring.tail =
        omega (arith, counts i, i.inv.view.tail, i.inv.view.head) in
      rw same (==_self s.pair.ring.tail)

  next_push-GetsOn :
      (ms : List BenchMsg) (s : Run)
      → let s' = record s { pair = record s.pair { producer = outside } } in
        s.to_send ≡ ms → Running seen sent k s' → GetsOn (length sent) producer s' (next_push ms s')
  next_push-GetsOn [] s e i = elim (Bool-cases (vacant s)) [
    | inl empty ↦ inr (inr (vacant-IsDone i empty refl e))
    | inr some_there ↦ inr (inl (omega arith, refl, λ l. lead-ne true (l ∙ ap lead some_there)))
  ]
  next_push-GetsOn (m ∷ ms) s e i =
      inside-GetsOn _ _ _ true refl refl (λ empty. rw (vacant-room i empty) (omega arith)) refl

  push_turn-GetsOn :
      (p : Pushing BenchMsg) (s : Run)
      → let s' = record s { pair = record s.pair { producer = p } } in
        Running seen sent k s' → GetsOn (length sent) producer s' (push_turn p s')
  unfolding push_turn
  push_turn-GetsOn outside s i = next_push-GetsOn s.to_send s refl i
  push_turn-GetsOn (loaded v t h) s i = elim (Bool-cases (leb s.pair.ring.capacity (sub_u64 t h))) [
    | inl full ↦ rw full (inside-GetsOn _ _ _ true refl refl (λ e. rw full (omega arith)) refl)
    | inr room ↦ rw room (inside-GetsOn _ _ _ true refl refl (λ e. rw room (omega arith)) refl)
  ]
  push_turn-GetsOn (written v t) s i =
      let (ms, e) = i.busy in
      store-GetsOn _ _ _ producer
        (omega (arith, ap length e, ap (λ l. length (later_messages l)) e))

  pop_turn-GetsOn :
      (c : Popping BenchMsg) (s : Run)
      → let s' = record s { pair = record s.pair { consumer = c } } in
        Running seen sent k s' → GetsOn (length sent) consumer s' (pop_turn seen (length sent) c s')
  unfolding pop_turn
  pop_turn-GetsOn away s i = elim (Bool-cases (ltb s.received (length sent))) [
    | inl more ↦ rw more (inside-GetsOn _ _ _ false refl refl (λ e. rw e (omega arith)) refl)
    | inr over ↦ rw over (
        inr (
          inl (
            omega arith,
            refl,
            λ l. lead-ne false (l ∙ ap lead (full_count i (ltb_false→le _ _ over))),
          )))
  ]
  pop_turn-GetsOn (looked h t) s i = elim (Bool-cases (h == t)) [
    | inl none_seen ↦
        rw none_seen (inside-GetsOn _ _ _ false refl refl (λ e. rw none_seen (omega arith)) refl)
    | inr seen_some ↦
        rw seen_some (inside-GetsOn _ _ _ false refl refl (λ e. rw seen_some (omega arith)) refl)
  ]
  pop_turn-GetsOn (taken x h) s i = store-GetsOn _ _ _ consumer (omega (arith, i.waits))

  pub turn-GetsOn :
      (t : Turn) (s : Run)
      → Running seen sent k s
      → GetsOn (length sent) t s (turn seen (length sent) t s)
  unfolding turn
  turn-GetsOn producer s i = push_turn-GetsOn s.pair.producer s i
  turn-GetsOn consumer s i = pop_turn-GetsOn s.pair.consumer s i

left-start_run : (b : Bool) (sent : List BenchMsg) → left b (start_run sent) ≡ 3
unfolding start_run
left-start_run true sent = refl
left-start_run false sent = refl

pub rest-start_run :
    (sent : List BenchMsg) → rest (length sent) (start_run sent) ≡ 10 * length sent + 3
unfolding start_run
rest-start_run sent = omega (arith, left-start_run (vacant (start_run sent)) sent)
