-- ===== src/RingBuffer/Fifo.antt =====
-- Sequences of pushes and pops on a channel of engine/src/ringbuffer.rs, against a bounded queue.
use native.Mathlib.Nat.{two-pow-succ, one-le-pow}
use high_frequency_market_ma.Prelude.{
  ℕ, zero, suc, ◌+◌, ◌-◌, ◌*◌, ◌^◌, ◌≤◌, ◌<◌, max, ◌≡◌, refl, ◌≢◌, ◌⊎◌, ap, ap₂, ◌∙◌, Option, none,
  some, List, [], ◌∷◌, ◌++◌, length, length-replicate, replicate, ltb, leb, if◌then◌else◌,
  Bool-cases, ltb→lt, ltb_false→le, leb_false→lt, leb→le, inl, inr, arith,
}
use high_frequency_market_ma.Prelude.Word.{add_u64}
use high_frequency_market_ma.RingBuffer.{
  RingInner, Pushed, ok, err, next_power, make_inner, try_push, try_pop,
}
use high_frequency_market_ma.RingBuffer.Queue.{
  Holds, try_push-room, try_push-full, try_pop-empty, try_pop-cons, Holds-dropped, dropped-try_push,
  dropped-try_pop,
}

-- The values that wait, oldest first, and how many were turned away.
pub record Fifo {ℓ} (T : Type ℓ) : Type ℓ where
  pub items : List T
  pub lost : ℕ

pub data Call {ℓ} (T : Type ℓ) : Type ℓ where
  push : T → Call T
  pop : Call T

pub data Reply {ℓ} (T : Type ℓ) : Type ℓ where
  pushed : Pushed T → Reply T
  popped : Option (Option T) → Reply T

module _ {ℓ} {T : Type ℓ} where
  unfoldable pub offer : ℕ → Fifo T → T → Fifo T × Pushed T
  offer cap f v =
      if ltb (length f.items) cap
      then (record f { items = f.items ++ v ∷ [] }, ok)
      else (record f { lost = add_u64 f.lost 1 }, err v)

  unfoldable pub poll : List T → ℕ → Fifo T × Option (Option T)
  poll [] lost = (record { items = []; lost = lost }, none)
  poll (x ∷ q) lost = (record { items = q; lost = lost }, some (some x))

  unfoldable pub answer : ℕ → Fifo T → Call T → Fifo T × Reply T
  unfolding offer
  answer cap f (push v) = let (f', r) = offer cap f v in (f', pushed r)
  answer cap f pop = let (f', r) = poll f.items f.lost in (f', popped r)

  unfoldable pub answers : ℕ → Fifo T → List (Call T) → List (Reply T)
  answers cap f [] = []
  answers cap f (c ∷ cs) = let (f', r) = answer cap f c in r ∷ answers cap f' cs

  unfoldable pub call : RingInner T → Call T → RingInner T × Reply T
  call ring (push v) = let (ring', r) = try_push ring v in (ring', pushed r)
  call ring pop = let (ring', r) = try_pop ring in (ring', popped r)

  unfoldable pub calls : RingInner T → List (Call T) → List (Reply T)
  calls ring [] = []
  calls ring (c ∷ cs) = let (ring', r) = call ring c in r ∷ calls ring' cs

  -- The ring stands for the queue: the values that it holds, and its count of dropped pushes.
  pub record Refines (k : ℕ) (ring : RingInner T) (f : Fifo T) : Type ℓ where
    pub holds : Holds k ring f.items
    pub dropped : ring.dropped ≡ f.lost

  call-Refines :
      (k : ℕ) (ring : RingInner T) (f : Fifo T) (c : Call T)
      → Refines k ring f
      → Refines k (call ring c).0 (answer (2 ^ k) f c).0
        × ((call ring c).1 ≡ (answer (2 ^ k) f c).1)
  unfolding call answer offer poll
  call-Refines k ring f (push v) s = elim (Bool-cases (ltb (length f.items) (2 ^ k))) [
    | inl lt ↦
        let (accepted, h) = try_push-room v s.holds (ltb→lt _ _ lt) in
        rw (lt, accepted)
          (record { holds = h; dropped = dropped-try_push ring v accepted ∙ s.dropped }, refl)
    | inr ge ↦
        rw (ge, try_push-full v s.holds (omega (arith, ltb_false→le _ _ ge, s.holds.room)))
          (
            record {
              holds = Holds-dropped (add_u64 ring.dropped 1) s.holds;
              dropped = ap (λ d. add_u64 d 1) s.dropped;
            },
            refl,
          )
  ]
  call-Refines k ring f pop s = pops f.items s.holds
    where
      pops :
          (q : List T)
          → Holds k ring q
          → Refines k (try_pop ring).0 (poll q f.lost).0
            × (popped (try_pop ring).1 ≡ popped (poll q f.lost).1)
      pops [] h = rw (try_pop-empty h) (record { holds = h; dropped = s.dropped }, refl)
      pops (x ∷ q) h =
          let (oldest, h') = try_pop-cons h in
          (record { holds = h'; dropped = dropped-try_pop ring ∙ s.dropped }, ap popped oldest)

  -- No sequence of calls tells a ring from the bounded queue that it stands for.
  pub calls-Refines :
      (cs : List (Call T)) (k : ℕ) (ring : RingInner T) (f : Fifo T)
      → Refines k ring f
      → calls ring cs ≡ answers (2 ^ k) f cs
  unfolding calls answers
  calls-Refines [] k ring f s = refl
  calls-Refines (c ∷ cs) k ring f s =
      let (s', same) = call-Refines k ring f c s in ap₂ ◌∷◌ same (calls-Refines cs k _ _ s')

-- Doubling from 2 ^ j comes to a power of two that is large enough, and not to a larger one.
next_power_lem :
    (fuel j n : ℕ)
    → j + fuel ≡ 64
    → j < 64
    → n ≤ 2 ^ 63
    → (k : ℕ) × (k < 64)
      × (next_power fuel (2 ^ j) n ≡ 2 ^ k)
      × (n ≤ 2 ^ k)
      × ((k ≡ j) ⊎ (2 ^ k < 2 * n))
unfolding next_power
next_power_lem zero j n e lt h = absurd (omega arith)
next_power_lem (suc fuel) j n e lt h = elim (Bool-cases (leb n (2 ^ j))) [
  | inl enough ↦ (j, lt, rw enough, leb→le _ _ enough, inl refl)
  | inr more ↦
      let large : 2 ^ j < n = leb_false→lt _ _ more in
      let small : j ≢ 63 = λ top. omega (arith, ap (λ i. 2 ^ i) top) in
      let twice : 2 * 2 ^ j ≡ 2 ^ suc j = omega (arith, two-pow-succ j) in
      let (k, lt', e', le, least) = next_power_lem fuel (suc j) n (omega arith) (omega arith) h in
      (
        k,
        lt',
        rw (more, twice) e',
        le,
        inr (elim least [ inl same ↦ omega (arith, twice, ap (λ i. 2 ^ i) same) | inr l ↦ l ]),
      )
]

module _ {ℓ} {T : Type ℓ} where
  abbrev fresh : ℕ → RingInner T
  fresh c = record {
    buf = replicate {A = Option T} c none;
    capacity = c;
    mask = c - 1;
    head = 0;
    tail = 0;
    dropped = 0;
  }

  made : (c k : ℕ) → c ≡ 2 ^ k → k < 64 → Holds k (fresh c) []
  made c k e lt = record {
    word = lt;
    capacity = e;
    mask = ap (λ n. n - 1) e;
    size = length-replicate c none ∙ e;
    head = omega arith;
    tail = refl;
    room = omega arith;
    slots = tt;
  }

abbrev pub Made {ℓ} : (T : Type ℓ) → ℕ → Type ℓ
Made T n =
    (k : ℕ) × (n ≤ 2 ^ k)
    × (2 ^ k < 2 * max n 2)
    × Refines {T = T} k (make_inner n) (record { items = []; lost = 0 })

-- A new channel is empty, and has room for at least as many values as were asked for.
pub make_inner-Refines {ℓ} : (T : Type ℓ) (n : ℕ) → n ≤ 2 ^ 63 → Made T n
unfolding make_inner
make_inner-Refines T n h = grow (next_power_lem 64 0 n refl (omega arith) h)
  where
    grow :
        (k : ℕ) × (k < 64) × (next_power 64 1 n ≡ 2 ^ k) × (n ≤ 2 ^ k) × ((k ≡ 0) ⊎ (2 ^ k < 2 * n))
        → Made T n
    grow (zero, lt, e, le, least) = (
      1,
      omega arith,
      omega arith,
      record { holds = made _ 1 (omega (arith, e)) (omega arith); dropped = refl },
    )
    grow (suc k, lt, e, le, least) = (
      suc k,
      le,
      elim least [ inl z ↦ absurd (omega arith) | inr l ↦ omega arith ],
      record {
        holds = made _ (suc k) (omega (arith, e, two-pow-succ k, one-le-pow k 2 (omega arith))) lt;
        dropped = refl;
      },
    )

-- A new channel of a requested capacity of at most 2 ^ 63 answers every sequence of pushes and
-- pops as a bounded first-in, first-out queue does, whose capacity is at least the one requested
-- and below twice the larger of it and 2.
pub make_inner-answers {ℓ} :
    {T : Type ℓ} (n : ℕ) (cs : List (Call T))
    → n ≤ 2 ^ 63
    → (k : ℕ) × (n ≤ 2 ^ k)
      × (2 ^ k < 2 * max n 2)
      × (calls (make_inner n) cs ≡ answers (2 ^ k) (record { items = []; lost = 0 }) cs)
make_inner-answers n cs h =
    let (k, room, least, s) = make_inner-Refines _ n h in (k, room, least, calls-Refines cs k _ _ s)
