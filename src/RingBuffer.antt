-- ===== src/RingBuffer.antt =====
-- engine/src/ringbuffer.rs: the single-producer, single-consumer ring buffer, one call at a time;
-- Threads has its calls in their atomic steps. Its counters run freely in a usize and wrap; a
-- slot that was never written is `none`, which stands for `MaybeUninit`.
mod Mask
pub mod Queue
pub mod Fifo
pub mod Burst
pub mod View
pub mod Threads
pub mod Races
mod Tests
use Prim.Native.Nat.{bit_and}
use high_frequency_market_ma.Prelude.{
  ℕ, zero, suc, ◌-◌, ◌*◌, max, Option, none, some, List, [], ◌∷◌, replicate, set, leb, ◌==◌,
  if◌then◌else◌,
}
use high_frequency_market_ma.Prelude.Word.{add_u64, sub_u64}

pub record RingInner {ℓ} (T : Type ℓ) : Type ℓ where
  pub buf : List (Option T)
  pub capacity : ℕ
  pub mask : ℕ
  pub head : ℕ
  pub tail : ℕ
  pub dropped : ℕ

-- `next_power_of_two`: the first power of two that is at least `n`, by doubling; past the last one
-- of a usize a release build gives 0.
unfoldable pub next_power : ℕ → ℕ → ℕ → ℕ
next_power zero p n = 0
next_power (suc fuel) p n = let bigger = next_power fuel (2 * p) n in if leb n p then p else bigger

abbrev pub next_power_of_two : ℕ → ℕ
next_power_of_two n = next_power 64 1 n

-- What a push returns: `Ok(())`, or `Err(value)` with the value handed back.
pub data Pushed {ℓ} (T : Type ℓ) : Type ℓ where
  ok : Pushed T
  err : T → Pushed T

module _ {ℓ} {T : Type ℓ} where
  unfoldable pub make_inner : ℕ → RingInner T
  make_inner requested =
      let capacity = max (next_power_of_two requested) 2 in
      record {
        buf = replicate capacity none;
        capacity = capacity;
        mask = capacity - 1;
        head = 0;
        tail = 0;
        dropped = 0;
      }

  -- `Producer::try_push`
  unfoldable pub try_push : RingInner T → T → RingInner T × Pushed T
  try_push inner value =
      if leb inner.capacity (sub_u64 inner.tail inner.head)
      then (record inner { dropped = add_u64 inner.dropped 1 }, err value)
      else (
        record inner {
          buf = set inner.buf (bit_and inner.tail inner.mask) (some value);
          tail = add_u64 inner.tail 1;
        },
        ok,
      )

  -- What is read at an index: a slot out of range or never written gives nothing.
  abbrev pub read : List (Option T) → ℕ → Option T
  read [] i = none
  read (x ∷ xs) zero = x
  read (x ∷ xs) (suc i) = read xs i

  -- `Consumer::try_pop`. The outer option is the code's; the inner one is `none` where
  -- `assume_init_read` would read a slot that holds no value.
  unfoldable pub try_pop : RingInner T → RingInner T × Option (Option T)
  try_pop inner = if inner.head == inner.tail then (inner, none) else (
    record inner { head = add_u64 inner.head 1 },
    some (read inner.buf (bit_and inner.head inner.mask)),
  )

  unfoldable pub dropped_count : RingInner T → ℕ
  dropped_count inner = inner.dropped
