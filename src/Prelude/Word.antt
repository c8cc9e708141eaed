-- ===== src/Prelude/Word.antt =====
-- The machine integers of the source: u64 and usize are numbers below 2 ^ 64, an i64 is an integer
-- of the two's-complement range. A release build wraps on overflow, and so do these.
use Prim.Native.Nat.{ℕ, ◌+◌, ◌-◌, ◌%◌, ◌^◌}
use mathlib.Core.Path.{◌≡◌}
use native.Mathlib.Omega.{arith}
use high_frequency_market_ma.Prelude.Tests.{ltb, if◌then◌else◌}
use high_frequency_market_ma.Prelude.Int.{ℤ, pos, negsuc, pos_part, neg_part, ◌≤ℤ◌}

abbrev pub u64_mod : ℕ
u64_mod = 2 ^ 64

-- `a + b`, `a.wrapping_add(b)` and `fetch_add`
abbrev pub add_u64 : ℕ → ℕ → ℕ
add_u64 a b = (a + b) % 2 ^ 64

-- `a - b` and `a.wrapping_sub(b)`
abbrev pub sub_u64 : ℕ → ℕ → ℕ
sub_u64 a b = (a + 2 ^ 64 - b) % 2 ^ 64

abbrev pub i64_min : ℤ
i64_min = negsuc (2 ^ 63 - 1)

abbrev pub i64_max : ℤ
i64_max = pos (2 ^ 63 - 1)

abbrev pub IsI64 : ℤ → Type 0
IsI64 a = (i64_min ≤ℤ a) × (a ≤ℤ i64_max)

-- The pattern of 64 bits that stands for an integer, and back.
unfoldable pub wrap_i64 : ℤ → ℤ
wrap_i64 a =
    let w = (pos_part a % 2 ^ 64 + 2 ^ 64 - neg_part a % 2 ^ 64) % 2 ^ 64 in
    if ltb w (2 ^ 63) then pos w else negsuc (2 ^ 64 - w - 1)

pub wrap_i64-IsI64 : (a : ℤ) → IsI64 (wrap_i64 a)
unfolding wrap_i64
wrap_i64-IsI64 a = ground arith

pub wrap_i64_of_IsI64 : (a : ℤ) → IsI64 a → wrap_i64 a ≡ a
unfolding wrap_i64
wrap_i64_of_IsI64 a h = ground arith
