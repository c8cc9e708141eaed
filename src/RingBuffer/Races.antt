-- ===== src/RingBuffer/Races.antt =====
-- The two threads on the ring of engine/src/ringbuffer.rs: the invariant of their interleavings.
use Prim.Native.Nat.{bit_and}
use high_frequency_market_ma.Prelude.{
  ℕ, ◌*◌, ◌^◌, ◌≤◌, ◌<◌, max, ◌≡◌, ◌≢◌, refl, sym, ap, ◌∙◌, subst, some, List, [], ◌∷◌, ◌++◌, map,
  map-append, append_assoc, length, length-append, set, leb, ◌==◌, false, leb_false→lt, arith,
}
use high_frequency_market_ma.Prelude.Word.{add_u64, sub_u64}
use high_frequency_market_ma.RingBuffer.{read, make_inner}
use high_frequency_market_ma.RingBuffer.Queue.{Holds}
use high_frequency_market_ma.RingBuffer.Fifo.{make_inner-Refines}
use high_frequency_market_ma.RingBuffer.View.{
  View, View-count, View-dropped, View-write, View-publish, View-read, View-release, View-apart,
}
use high_frequency_market_ma.RingBuffer.Threads.{
  Pushing, outside, loaded, written, Popping, away, looked, taken, Pair, Step, push_load, push_full,
  push_write, push_store, pop_load, pop_empty, pop_read, pop_store, Reach, fresh, later,
}

module _ {ℓ} {T : Type ℓ} where
  -- What a producer that stands there relies on: its own counter, and at most as much room as it saw.
  abbrev pub PushOk : ℕ → List T → List T → Pushing T → Type ℓ
  PushOk tail q pending outside = pending ≡ []
  PushOk tail q pending (loaded v t h) = (pending ≡ []) × (t ≡ tail) × (length q ≤ sub_u64 t h)
  PushOk tail q pending (written v t) = (pending ≡ v ∷ []) × (t ≡ tail)

  -- What a consumer relies on: its own counter, and at least as many values as it saw.
  pub record Seen (head : ℕ) (q : List T) (h t : ℕ) : Type ℓ where
    pub own : h ≡ head
    pub word : t < 2 ^ 64
    pub enough : sub_u64 t h ≤ length q

  abbrev pub PopOk : ℕ → List T → Popping T → Type ℓ
  PopOk head q away = Unit
  PopOk head q (looked h t) = Seen head q h t
  PopOk head q (taken x h) = (h ≡ head) × (y : T) × (q' : List T) × (x ≡ some y) × (q ≡ y ∷ q')

  pub record Inv (k : ℕ) (s : Pair T) : Type ℓ where
    pub q : List T
    pub pending : List T
    pub view : View k s.ring q pending
    pub pushing : PushOk s.ring.tail q pending s.producer
    pub popping : PopOk s.ring.head q s.consumer
    pub log : map some s.accepted ≡ s.returned ++ map some q

  PopOk-grow :
      (head : ℕ) (q : List T) (v : T) (c : Popping T) → PopOk head q c → PopOk head (q ++ v ∷ []) c
  PopOk-grow head q v away h = tt
  PopOk-grow head q v (looked i t) h = record {
    own = h.own;
    word = h.word;
    enough = omega (arith, h.enough, length-append q (v ∷ []));
  }
  PopOk-grow head q v (taken x i) (e, y, q', got, split) =
      (e, y, q' ++ v ∷ [], got, ap (λ z. z ++ v ∷ []) split)

  PushOk-shrink :
      (tail : ℕ) (x : T) (q pending : List T) (p : Pushing T)
      → PushOk tail (x ∷ q) pending p
      → PushOk tail q pending p
  PushOk-shrink tail x q pending outside h = h
  PushOk-shrink tail x q pending (loaded v t i) h = (h.0, h.1, omega (arith, h.2))
  PushOk-shrink tail x q pending (written v t) h = h

  -- Where the values that were seen are at least one, there is one.
  some_left :
      (q : List T) (h t : ℕ)
      → (h == t) ≡ false
      → h < 2 ^ 64
      → t < 2 ^ 64
      → sub_u64 t h ≤ length q
      → (y : T) × (q' : List T) × (q ≡ y ∷ q')
  some_left [] h t ne lh lt le = absurd (ground (arith, le, lh, lt, ne))
  some_left (y ∷ q') h t ne lh lt le = (y, q', refl)

  pub Step-Inv : {k : ℕ} {s t : Pair T} → Step s t → Inv k s → Inv k t
  Step-Inv (push_load v) i = record {
    q = i.q;
    pending = i.pending;
    view = i.view;
    pushing = (i.pushing, refl, omega (arith, View-count i.view));
    popping = i.popping;
    log = i.log;
  }
  Step-Inv (push_full e) i = record {
    q = i.q;
    pending = i.pending;
    view = View-dropped _ i.view;
    pushing = i.pushing.0;
    popping = i.popping;
    log = i.log;
  }
  Step-Inv {k} (push_write {r} {c} {a} {o} {v} {tail} {head} e) i =
      let (none_yet, own, saw) = i.pushing in
      let clean = subst (View k r i.q) none_yet i.view in
      let free : length i.q < 2 ^ k = omega (arith, leb_false→lt _ _ e, clean.capacity, saw) in
      record {
        q = i.q;
        pending = v ∷ [];
        view =
            subst
              (λ t. View k (record r { buf = set r.buf (bit_and t r.mask) (some v) }) i.q (v ∷ []))
              (sym own) (View-write v clean free);
        pushing = (refl, own);
        popping = i.popping;
        log = i.log;
      }
  Step-Inv {k} (push_store {r} {c} {a} {o} {v} {tail}) i =
      let (one, own) = i.pushing in
      record {
        q = i.q ++ v ∷ [];
        pending = [];
        view =
            subst (λ t. View k (record r { tail = add_u64 t 1 }) (i.q ++ v ∷ []) []) (sym own)
              (View-publish v (subst (View k r i.q) one i.view));
        pushing = refl;
        popping = PopOk-grow r.head i.q v c i.popping;
        log =
            map-append some a (v ∷ [])
            ∙ ap (λ z. z ++ some v ∷ []) i.log
            ∙ append_assoc o (map some i.q) (some v ∷ [])
            ∙ ap (λ z. o ++ z) (sym (map-append some i.q (v ∷ [])));
      }
  Step-Inv (pop_load) i = record {
    q = i.q;
    pending = i.pending;
    view = i.view;
    pushing = i.pushing;
    popping = record {
      own = refl;
      word = omega (arith, i.view.tail);
      enough = omega (arith, View-count i.view);
    };
    log = i.log;
  }
  Step-Inv (pop_empty e) i = record {
    q = i.q;
    pending = i.pending;
    view = i.view;
    pushing = i.pushing;
    popping = tt;
    log = i.log;
  }
  Step-Inv {k} (pop_read {r} {p} {a} {o} {head} {tail} e) i =
      let own = i.popping.own in
      let (y, q', split) =
        some_left i.q head tail e (omega (arith, own, i.view.head)) i.popping.word
          i.popping.enough in
      record {
        q = i.q;
        pending = i.pending;
        view = i.view;
        pushing = i.pushing;
        popping = (
          own,
          y,
          q',
          ap (λ j. read r.buf (bit_and j r.mask)) own
              ∙ View-read (subst (λ z. View k r z i.pending) split i.view),
          split,
        );
        log = i.log;
      }
  Step-Inv {k} (pop_store {r} {p} {a} {o} {x} {head}) i =
      let (own, y, q', got, split) = i.popping in
      record {
        q = q';
        pending = i.pending;
        view =
            subst (λ h. View k (record r { head = add_u64 h 1 }) q' i.pending) (sym own)
              (View-release (subst (λ z. View k r z i.pending) split i.view));
        pushing =
            PushOk-shrink r.tail y q' i.pending p
              (subst (λ z. PushOk r.tail z i.pending p) split i.pushing);
        popping = tt;
        log =
            i.log
            ∙ ap (λ z. o ++ map some z) split
            ∙ sym (append_assoc o (some y ∷ []) (map some q'))
            ∙ ap (λ z. (o ++ z ∷ []) ++ map some q') (sym got);
      }

  pub Reach-Inv : {k n : ℕ} {s : Pair T} → Holds {T = T} k (make_inner n) [] → Reach n s → Inv k s
  Reach-Inv h fresh = record {
    q = [];
    pending = [];
    view = record {
      word = h.word;
      capacity = h.capacity;
      mask = h.mask;
      size = h.size;
      head = h.head;
      tail = h.tail;
      room = omega arith;
      slots = tt;
    };
    pushing = refl;
    popping = tt;
    log = refl;
  }
  Reach-Inv h (later r st) = Step-Inv st (Reach-Inv h r)

-- In every interleaving of the atomic steps of a producer and a consumer on a new channel of a
-- requested capacity n of at most 2 ^ 63, what the consumer has taken are the first values that
-- the producer stored, in their order, each of them one that was written; those that still wait
-- are fewer than twice the larger of n and 2.
pub Reach-accepted {ℓ} :
    {T : Type ℓ} {n : ℕ} {s : Pair T}
    → n ≤ 2 ^ 63
    → Reach n s
    → (waiting : List T) × (map some s.accepted ≡ s.returned ++ map some waiting)
      × (length waiting < 2 * max n 2)
Reach-accepted {n = n} le r =
    let (k, room, least, new) = make_inner-Refines _ n le in
    let i = Reach-Inv new.holds r in (i.q, i.log, omega (arith, i.view.room, least))

-- In every interleaving of the atomic steps of a producer and a consumer on a new channel of a
-- requested capacity of at most 2 ^ 63, where the producer has passed its test for room and the
-- consumer its test for a value, the slot that is to be written is not the slot that is to be
-- read.
pub Reach-apart {ℓ} :
    {T : Type ℓ} {n : ℕ} {s : Pair T} {v : T} {push_tail push_head pop_head pop_tail : ℕ}
    → n ≤ 2 ^ 63
    → Reach n s
    → s.producer ≡ loaded v push_tail push_head
    → s.consumer ≡ looked pop_head pop_tail
    → leb s.ring.capacity (sub_u64 push_tail push_head) ≡ false
    → (pop_head == pop_tail) ≡ false
    → bit_and push_tail s.ring.mask ≢ bit_and pop_head s.ring.mask
Reach-apart {n = n} {s} {push_tail = pt} {push_head = ph} {pop_head = h} {pop_tail = t} le r p c
      writes reads e =
    let (k, room, least, new) = make_inner-Refines _ n le in
    let i = Reach-Inv new.holds r in
    let (none_yet, own, saw) = subst (PushOk s.ring.tail i.q i.pending) p i.pushing in
    let seen = subst (PopOk s.ring.head i.q) c i.popping in
    let (y, q', split) =
      some_left i.q h t reads (omega (arith, seen.own, i.view.head)) seen.word seen.enough in
    let free : length i.q < 2 ^ k = omega (arith, leb_false→lt _ _ writes, i.view.capacity, saw) in
    View-apart (subst (λ z. View k s.ring z i.pending) split i.view)
      (subst (λ z. length z < 2 ^ k) split free)
      (ap (λ j. bit_and j s.ring.mask) (sym own) ∙ e ∙ ap (λ j. bit_and j s.ring.mask) seen.own)
