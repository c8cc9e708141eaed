-- ===== src/RingBuffer/Queue.antt =====
-- The ring of engine/src/ringbuffer.rs as a queue: what it holds, call by call. The counters may
-- wrap any number of times, as the capacity divides 2 ^ 64.
use Prim.Native.Nat.{bit_and, ◌∣◌}
use native.Mathlib.Nat.{
  dvd_refl, dvd-add, mod-mod_of_dvd, mod-lt, mod-eq_of_lt, mod-eq-sub-mod, mod-add-mod,
  two-pow-succ, pow-le-pow_right, suc-mod,
}
use native.Mathlib.Decide.{dec_lt}
use high_frequency_market_ma.Prelude.{
  ℕ, zero, suc, ◌+◌, ◌-◌, ◌%◌, ◌^◌, ◌≤◌, ◌<◌, ◌≡◌, ◌≢◌, refl, sym, ap, ◌∙◌, subst, true, false,
  Option, none, some, List, [], ◌∷◌, ◌++◌, length, length-append, length-set, set, leb, ◌==◌, arith,
  lt→leb_false, le→leb, ==_self, ne→==_false,
}
use high_frequency_market_ma.Prelude.Word.{add_u64, sub_u64}
use high_frequency_market_ma.RingBuffer.{RingInner, ok, err, read, try_push, try_pop}
use high_frequency_market_ma.RingBuffer.Mask.{bit_and-mask}

pub pow-dvd-add : (k j : ℕ) → 2 ^ k ∣ 2 ^ (j + k)
pow-dvd-add k zero = subst (λ n. 2 ^ k ∣ 2 ^ n) (omega arith) (dvd_refl (2 ^ k))
pow-dvd-add k (suc j) =
    let e : suc j + k ≡ suc (j + k) = omega arith in
    rw (e, two-pow-succ) (dvd-add (2 ^ k) (pow-dvd-add k j) (pow-dvd-add k j))

pub pow-dvd-u64 : (k : ℕ) → k < 64 → 2 ^ k ∣ 2 ^ 64
pow-dvd-u64 k h =
    subst (λ n. 2 ^ k ∣ 2 ^ n) {x = 64 - k + k} {y = 64} (omega arith) (pow-dvd-add k (64 - k))

pub pow-lt-u64 : (k : ℕ) → k < 64 → 2 ^ k < 2 ^ 64
pow-lt-u64 k h =
    let top : 2 ^ k ≤ 2 ^ 63 =
      pow-le-pow_right {n = 2} (omega arith) {i = k} {j = 63} (omega arith) in
    omega arith

pub add-mod-ne : (i n c : ℕ) → 0 < n → n < c → (i + n) % c ≢ i % c
add-mod-ne i n c pos small = elim (dec_lt (i % c + n) c) [
  | yes p ↦ omega (arith, mod-add-mod i c n, mod-eq_of_lt p)
  | no p ↦ omega (
    arith,
    mod-add-mod i c n,
    mod-lt i {m = c} (omega arith),
    mod-eq-sub-mod {n = i % c + n} {m = c} (omega arith),
    mod-eq_of_lt {n = i % c + n - c} {m = c} (omega (arith, mod-lt i {m = c} (omega arith))),
  )
]

module _ {ℓ} {T : Type ℓ} where
  read-set_self :
      (b : List (Option T)) (i : ℕ) (v : Option T) → i < length b → read (set b i v) i ≡ v
  read-set_self [] i v h = absurd (omega arith)
  read-set_self (x ∷ b) zero v h = refl
  read-set_self (x ∷ b) (suc i) v h = read-set_self b i v (omega arith)

  read-set_ne :
      (b : List (Option T)) (i j : ℕ) (v : Option T) → i ≢ j → read (set b i v) j ≡ read b j
  read-set_ne [] i j v h = refl
  read-set_ne (x ∷ b) zero zero v h = absurd (h refl)
  read-set_ne (x ∷ b) zero (suc j) v h = refl
  read-set_ne (x ∷ b) (suc i) zero v h = refl
  read-set_ne (x ∷ b) (suc i) (suc j) v h = read-set_ne b i j v (λ e. h (ap suc e))

  -- The slots from a counter on, going round at the capacity, hold these values.
  abbrev pub Slots : List (Option T) → ℕ → ℕ → List T → Type ℓ
  Slots b c i [] = Unit
  Slots b c i (x ∷ q) = (read b (i % c) ≡ some x) × Slots b c (suc i) q

  pub Slots-mod :
      (b : List (Option T)) (c i j : ℕ) (q : List T) → i % c ≡ j % c → Slots b c i q → Slots b c j q
  Slots-mod b c i j [] e h = tt
  Slots-mod b c i j (x ∷ q) e h = (
    rw (← e) h.0,
    Slots-mod b c (suc i) (suc j) q (suc-mod i c ∙ ap (λ n. suc n % c) e ∙ sym (suc-mod j c)) h.1,
  )

  -- Writing just behind the values that are held adds one to them.
  pub Slots-set :
      (b : List (Option T)) (c i j : ℕ) (q : List T) (v : T)
      → length b ≡ c
      → length q < c
      → j ≡ (i + length q) % c
      → Slots b c i q
      → Slots (set b j (some v)) c i (q ++ v ∷ [])
  Slots-set b c i j [] v size room e h =
      let at : j ≡ i % c = e ∙ ap (λ n. n % c) (omega arith) in
      (rw (← at) (read-set_self b j (some v) (omega (arith, mod-lt i {m = c} (omega arith)))), tt)
  Slots-set b c i j (x ∷ q) v size room e h = (
    read-set_ne b j (i % c) (some v)
          (λ eq. add-mod-ne i (suc (length q)) c (omega arith) room (sym e ∙ eq))
        ∙ h.0,
    Slots-set b c (suc i) j q v size (omega arith) (e ∙ ap (λ n. n % c) (omega arith)) h.1,
  )

-- The ring has 2 ^ k slots and holds the values `q`, oldest first.
pub record Holds {ℓ} {T : Type ℓ} (k : ℕ) (r : RingInner T) (q : List T) : Type ℓ where
  pub word : k < 64
  pub capacity : r.capacity ≡ 2 ^ k
  pub mask : r.mask ≡ 2 ^ k - 1
  pub size : length r.buf ≡ 2 ^ k
  pub head : r.head < 2 ^ 64
  pub tail : r.tail ≡ add_u64 r.head (length q)
  pub room : length q ≤ 2 ^ k
  pub slots : Slots r.buf (2 ^ k) r.head q

module _ {ℓ} {T : Type ℓ} {k : ℕ} {r : RingInner T} where
  -- The difference of the counters is the number of values, also where they have wrapped.
  pub Holds-count : {q : List T} → Holds k r q → sub_u64 r.tail r.head ≡ length q
  Holds-count {q} h = omega (arith, h.tail, h.room, h.head, pow-lt-u64 k h.word)

  tail_index : {q : List T} → Holds k r q → bit_and r.tail r.mask ≡ (r.head + length q) % 2 ^ k
  tail_index {q} h =
      rw (h.mask, bit_and-mask k r.tail, h.tail)
        (mod-mod_of_dvd (2 ^ k) (r.head + length q) (pow-dvd-u64 k h.word))

  -- A push onto a ring with room adds the value behind the others.
  pub try_push-room :
      {q : List T} (v : T)
      → Holds k r q
      → length q < 2 ^ k
      → ((try_push r v).1 ≡ ok) × Holds k (try_push r v).0 (q ++ v ∷ [])
  unfolding try_push
  try_push-room {q} v h lt =
      let test : leb r.capacity (sub_u64 r.tail r.head) ≡ false =
        rw (h.capacity, Holds-count h) (lt→leb_false _ _ lt) in
      rw test (
        refl,
        record {
          word = h.word;
          capacity = h.capacity;
          mask = h.mask;
          size = length-set r.buf (bit_and r.tail r.mask) (some v) ∙ h.size;
          head = h.head;
          tail = omega (arith, h.tail, length-append {ℓ} q (v ∷ []));
          room = omega (arith, length-append {ℓ} q (v ∷ []));
          slots = Slots-set r.buf (2 ^ k) r.head _ q v h.size lt (tail_index h) h.slots;
        },
      )

  -- A push onto a full ring hands the value back, and only counts it as dropped.
  pub try_push-full :
      {q : List T} (v : T)
      → Holds k r q
      → length q ≡ 2 ^ k
      → try_push r v ≡ (record r { dropped = add_u64 r.dropped 1 }, err v)
  unfolding try_push
  try_push-full {q} v h full =
      let test : leb r.capacity (sub_u64 r.tail r.head) ≡ true =
        rw (h.capacity, Holds-count h) (le→leb _ _ (omega arith)) in
      rw test

  -- A pop from an empty ring returns nothing and changes nothing.
  pub try_pop-empty : Holds {T = T} k r [] → try_pop r ≡ (r, none)
  unfolding try_pop
  try_pop-empty h =
      let e : r.head ≡ r.tail = omega (arith, h.tail, h.head) in
      let test : (r.head == r.tail) ≡ true = rw e (==_self r.tail) in rw test

  -- A pop returns the oldest value, which was written, and leaves the others.
  pub try_pop-cons :
      {x : T} {q : List T}
      → Holds k r (x ∷ q)
      → ((try_pop r).1 ≡ some (some x)) × Holds k (try_pop r).0 q
  unfolding try_pop
  try_pop-cons {x} {q} h =
      let test : (r.head == r.tail) ≡ false =
        ne→==_false _ _ (λ e. omega (arith, h.tail, h.head, h.room, pow-lt-u64 k h.word)) in
      rw test (
        ap some (rw (h.mask, bit_and-mask k r.head) h.slots.0),
        record {
          word = h.word;
          capacity = h.capacity;
          mask = h.mask;
          size = h.size;
          head = omega arith;
          tail = omega (arith, h.tail);
          room = omega (arith, h.room);
          slots =
              Slots-mod r.buf (2 ^ k) (suc r.head) _ q
                (ap (λ n. n % 2 ^ k) (omega arith)
                  ∙ sym (mod-mod_of_dvd (2 ^ k) (r.head + 1) (pow-dvd-u64 k h.word)))
                h.slots.1;
        },
      )

  -- The count of dropped pushes goes with none of this.
  pub Holds-dropped : {q : List T} (d : ℕ) → Holds k r q → Holds k (record r { dropped = d }) q
  Holds-dropped d h = record {
    word = h.word;
    capacity = h.capacity;
    mask = h.mask;
    size = h.size;
    head = h.head;
    tail = h.tail;
    room = h.room;
    slots = h.slots;
  }

module _ {ℓ} {T : Type ℓ} (r : RingInner T) where
  pub dropped-try_pop : (try_pop r).0.dropped ≡ r.dropped
  unfolding try_pop
  dropped-try_pop = ground arith

  pub dropped-try_push : (v : T) → (try_push r v).1 ≡ ok → (try_push r v).0.dropped ≡ r.dropped
  unfolding try_push
  dropped-try_push v h = ground arith
