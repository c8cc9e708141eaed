-- ===== src/RingBuffer/Burst.antt =====
-- A burst of pushes onto the ring of engine/src/ringbuffer.rs while nothing is popped.
use high_frequency_market_ma.Prelude.{
  ℕ, zero, suc, ◌+◌, ◌-◌, ◌^◌, ◌<◌, ◌≡◌, subst, List, [], ◌∷◌, ◌++◌, append-nil, append_assoc,
  length, length-append, take, arith,
}
use high_frequency_market_ma.Prelude.Word.{add_u64}
use high_frequency_market_ma.RingBuffer.{RingInner, try_push}
use high_frequency_market_ma.RingBuffer.Queue.{
  Holds, try_push-room, try_push-full, Holds-dropped, dropped-try_push,
}

module _ {ℓ} {T : Type ℓ} where
  unfoldable pub try_push_each : RingInner T → List T → RingInner T
  try_push_each r [] = r
  try_push_each r (v ∷ vs) = try_push_each (try_push r v).0 vs

  -- What the ring holds and has counted, when `q` was in it, `lost` counted and `n` slots free.
  pub record Burst (k n : ℕ) (q : List T) (lost : ℕ) (vs : List T) (r : RingInner T) : Type ℓ where
    pub holds : Holds k r (q ++ take n vs)
    pub dropped : r.dropped ≡ add_u64 lost (length vs - n)

  pub try_push_each-Burst :
      (vs : List T) {k : ℕ} (n : ℕ) {q : List T} (r : RingInner T)
      → Holds k r q
      → n + length q ≡ 2 ^ k
      → r.dropped < 2 ^ 64
      → Burst k n q r.dropped vs (try_push_each r vs)
  unfolding try_push_each
  try_push_each-Burst [] zero {q} r h e d = record {
    holds = rw (append-nil q) h;
    dropped = omega arith;
  }
  try_push_each-Burst [] (suc n) {q} r h e d = record {
    holds = rw (append-nil q) h;
    dropped = omega arith;
  }
  try_push_each-Burst (v ∷ vs) zero {q} r h e d =
      let full = try_push-full v h (omega arith) in
      let rest =
        try_push_each-Burst vs 0 (record r { dropped = add_u64 r.dropped 1 }) (Holds-dropped _ h) e
          (omega arith) in
      rw full (record { holds = rest.holds; dropped = omega (arith, rest.dropped) })
  try_push_each-Burst (v ∷ vs) {k} (suc n) {q} r h e d =
      let (accepted, h') = try_push-room v h (omega arith) in
      let kept = dropped-try_push r v accepted in
      let rest =
        try_push_each-Burst vs n (try_push r v).0 h' (omega (arith, length-append q (v ∷ [])))
          (omega (arith, kept)) in
      record {
        holds =
            subst (Holds k (try_push_each (try_push r v).0 vs))
              (append_assoc q (v ∷ []) (take n vs)) rest.holds;
        dropped = omega (arith, rest.dropped, kept);
      }
