-- ===== src/RingBuffer/View.antt =====
-- The memory of the ring of engine/src/ringbuffer.rs while a push is under way: the values between
-- the counters, and one that is written and not yet published.
use Prim.Native.Nat.{bit_and}
use high_frequency_market_ma.Prelude.{
  ℕ, suc, ◌+◌, ◌-◌, ◌%◌, ◌^◌, ◌≤◌, ◌<◌, ◌≡◌, ◌≢◌, sym, ap, ◌∙◌, subst, some, List, [], ◌∷◌, ◌++◌,
  append-nil, length, length-append, length-set, set, arith,
}
use high_frequency_market_ma.Prelude.Word.{add_u64, sub_u64}
use native.Mathlib.Nat.{mod-mod_of_dvd}
use high_frequency_market_ma.RingBuffer.{RingInner, read}
use high_frequency_market_ma.RingBuffer.Mask.{bit_and-mask}
use high_frequency_market_ma.RingBuffer.Queue.{
  Slots, Slots-mod, Slots-set, pow-dvd-u64, pow-lt-u64, add-mod-ne,
}

module _ {ℓ} {T : Type ℓ} where
  pub record View (k : ℕ) (r : RingInner T) (q pending : List T) : Type ℓ where
    pub word : k < 64
    pub capacity : r.capacity ≡ 2 ^ k
    pub mask : r.mask ≡ 2 ^ k - 1
    pub size : length r.buf ≡ 2 ^ k
    pub head : r.head < 2 ^ 64
    pub tail : r.tail ≡ add_u64 r.head (length q)
    pub room : length q + length pending ≤ 2 ^ k
    pub slots : Slots r.buf (2 ^ k) r.head (q ++ pending)

  module _ {k : ℕ} {r : RingInner T} {q pending : List T} (v : View k r q pending) where
    pub View-count : sub_u64 r.tail r.head ≡ length q
    View-count = omega (arith, v.tail, v.room, v.head, pow-lt-u64 k v.word)

    pub View-head : bit_and r.head r.mask ≡ r.head % 2 ^ k
    View-head = rw (v.mask, bit_and-mask k r.head)

    pub View-tail : bit_and r.tail r.mask ≡ (r.head + length q) % 2 ^ k
    View-tail =
        rw (v.mask, bit_and-mask k r.tail, v.tail)
          (mod-mod_of_dvd (2 ^ k) (r.head + length q) (pow-dvd-u64 k v.word))

  module _ {k : ℕ} {r : RingInner T} {q : List T} where
    pub View-write :
        (x : T)
        → View k r q []
        → length q < 2 ^ k
        → View k (record r { buf = set r.buf (bit_and r.tail r.mask) (some x) }) q (x ∷ [])
    View-write x v lt = record {
      word = v.word;
      capacity = v.capacity;
      mask = v.mask;
      size = length-set r.buf (bit_and r.tail r.mask) (some x) ∙ v.size;
      head = v.head;
      tail = v.tail;
      room = omega arith;
      slots =
          Slots-set r.buf (2 ^ k) r.head _ q x v.size lt (View-tail v)
            (subst (Slots r.buf (2 ^ k) r.head) (append-nil q) v.slots);
    }

    pub View-dropped :
        {pending : List T} (d : ℕ)
        → View k r q pending
        → View k (record r { dropped = d }) q pending
    View-dropped d v = record {
      word = v.word;
      capacity = v.capacity;
      mask = v.mask;
      size = v.size;
      head = v.head;
      tail = v.tail;
      room = v.room;
      slots = v.slots;
    }

    pub View-publish :
        (x : T)
        → View k r q (x ∷ [])
        → View k (record r { tail = add_u64 r.tail 1 }) (q ++ x ∷ []) []
    View-publish x v = record {
      word = v.word;
      capacity = v.capacity;
      mask = v.mask;
      size = v.size;
      head = v.head;
      tail = omega (arith, v.tail, length-append q (x ∷ []));
      room = omega (arith, v.room, length-append q (x ∷ []));
      slots = rw (append-nil (q ++ x ∷ [])) v.slots;
    }

  module _ {k : ℕ} {r : RingInner T} {q pending : List T} {x : T}
      (v : View k r (x ∷ q) pending) where
    pub View-read : read r.buf (bit_and r.head r.mask) ≡ some x
    View-read = rw (View-head v) v.slots.0

    pub View-release : View k (record r { head = add_u64 r.head 1 }) q pending
    View-release = record {
      word = v.word;
      capacity = v.capacity;
      mask = v.mask;
      size = v.size;
      head = omega arith;
      tail = omega (arith, v.tail);
      room = omega (arith, v.room);
      slots =
          Slots-mod r.buf (2 ^ k) (suc r.head) (add_u64 r.head 1) (q ++ pending)
            (ap (λ n. n % 2 ^ k) (omega arith)
              ∙ sym (mod-mod_of_dvd (2 ^ k) (r.head + 1) (pow-dvd-u64 k v.word)))
            v.slots.1;
    }

    -- A slot that is about to be written is not the one that is read.
    pub View-apart : length (x ∷ q) < 2 ^ k → bit_and r.tail r.mask ≢ bit_and r.head r.mask
    View-apart lt e =
        add-mod-ne r.head (suc (length q)) (2 ^ k) (omega arith) lt
          (sym (View-tail v) ∙ e ∙ View-head v)
