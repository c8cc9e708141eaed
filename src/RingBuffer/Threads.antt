-- ===== src/RingBuffer/Threads.antt =====
-- A producer and a consumer thread on the ring of engine/src/ringbuffer.rs: `try_push` and `try_pop`
-- in their atomic steps, in any interleaving. Between the loads of a call and its last step the other
-- side may run any number of calls, so that what was loaded of its counter is out of date.
use Prim.Native.Nat.{bit_and}
use high_frequency_market_ma.Prelude.{
  ℕ, ◌≡◌, Option, some, List, [], ◌∷◌, ◌++◌, true, false, set, leb, ◌==◌,
}
use high_frequency_market_ma.Prelude.Word.{add_u64, sub_u64}
use high_frequency_market_ma.RingBuffer.{RingInner, read, make_inner}

module _ {ℓ} (T : Type ℓ) where
  -- Where `try_push` stands: outside, behind its loads of `tail` and `head`, or behind its write.
  pub data Pushing : Type ℓ where
    outside : Pushing
    loaded : T → ℕ → ℕ → Pushing
    written : T → ℕ → Pushing

  -- Where `try_pop` stands: outside, behind its loads of `head` and `tail`, or behind its read.
  pub data Popping : Type ℓ where
    away : Popping
    looked : ℕ → ℕ → Popping
    taken : Option T → ℕ → Popping

  -- The memory and both threads, with the values that were accepted and those that were returned.
  pub record Pair : Type ℓ where
    pub ring : RingInner T
    pub producer : Pushing
    pub consumer : Popping
    pub accepted : List T
    pub returned : List (Option T)

module _ {ℓ} {T : Type ℓ} where
  pub data Step : Pair T → Pair T → Type ℓ where
    push_load :
        {r : RingInner T} {c : Popping T} {a : List T} {o : List (Option T)} (v : T)
        → Step
            (record { ring = r; producer = outside; consumer = c; accepted = a; returned = o })
            (record {
              ring = r;
              producer = loaded v r.tail r.head;
              consumer = c;
              accepted = a;
              returned = o;
            })
    push_full :
        {r : RingInner T} {c : Popping T} {a : List T} {o : List (Option T)} {v : T} {tail head : ℕ}
        → leb r.capacity (sub_u64 tail head) ≡ true
        → Step
            (record {
              ring = r;
              producer = loaded v tail head;
              consumer = c;
              accepted = a;
              returned = o;
            })
            (record {
              ring = record r { dropped = add_u64 r.dropped 1 };
              producer = outside;
              consumer = c;
              accepted = a;
              returned = o;
            })
    push_write :
        {r : RingInner T} {c : Popping T} {a : List T} {o : List (Option T)} {v : T} {tail head : ℕ}
        → leb r.capacity (sub_u64 tail head) ≡ false
        → Step
            (record {
              ring = r;
              producer = loaded v tail head;
              consumer = c;
              accepted = a;
              returned = o;
            })
            (record {
              ring = record r { buf = set r.buf (bit_and tail r.mask) (some v) };
              producer = written v tail;
              consumer = c;
              accepted = a;
              returned = o;
            })
    push_store :
        {r : RingInner T} {c : Popping T} {a : List T} {o : List (Option T)} {v : T} {tail : ℕ}
        → Step
            (record {
              ring = r;
              producer = written v tail;
              consumer = c;
              accepted = a;
              returned = o;
            })
            (record {
              ring = record r { tail = add_u64 tail 1 };
              producer = outside;
              consumer = c;
              accepted = a ++ v ∷ [];
              returned = o;
            })
    pop_load :
        {r : RingInner T} {p : Pushing T} {a : List T} {o : List (Option T)}
        → Step
            (record { ring = r; producer = p; consumer = away; accepted = a; returned = o })
            (record {
              ring = r;
              producer = p;
              consumer = looked r.head r.tail;
              accepted = a;
              returned = o;
            })
    pop_empty :
        {r : RingInner T} {p : Pushing T} {a : List T} {o : List (Option T)} {head tail : ℕ}
        → (head == tail) ≡ true
        → Step
            (record {
              ring = r;
              producer = p;
              consumer = looked head tail;
              accepted = a;
              returned = o;
            })
            (record { ring = r; producer = p; consumer = away; accepted = a; returned = o })
    pop_read :
        {r : RingInner T} {p : Pushing T} {a : List T} {o : List (Option T)} {head tail : ℕ}
        → (head == tail) ≡ false
        → Step
            (record {
              ring = r;
              producer = p;
              consumer = looked head tail;
              accepted = a;
              returned = o;
            })
            (record {
              ring = r;
              producer = p;
              consumer = taken (read r.buf (bit_and head r.mask)) head;
              accepted = a;
              returned = o;
            })
    pop_store :
        {r : RingInner T} {p : Pushing T} {a : List T} {o : List (Option T)} {x : Option T}
        {head : ℕ}
        → Step
            (record { ring = r; producer = p; consumer = taken x head; accepted = a; returned = o })
            (record {
              ring = record r { head = add_u64 head 1 };
              producer = p;
              consumer = away;
              accepted = a;
              returned = o ++ x ∷ [];
            })

  abbrev pub start_pair : ℕ → Pair T
  start_pair n = record {
    ring = make_inner n;
    producer = outside;
    consumer = away;
    accepted = [];
    returned = [];
  }

  -- The states that threads on a new channel come to.
  pub data Reach (n : ℕ) : Pair T → Type ℓ where
    fresh : Reach n (start_pair n)
    later : {s t : Pair T} → Reach n s → Step s t → Reach n t
