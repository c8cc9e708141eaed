-- ===== src/RingBuffer/Mask.antt =====
-- `tail & mask`, where the mask is one less than a power of two, is the remainder by that power.
use Prim.Native.Nat.{bit_and, digits, bit_and-bitwise}
use native.Mathlib.Nat.{
  two-pow-succ, zero-mod, mod-lt, mod-eq_of_lt, add-mul-mod_self_left, mod-add-div, one-le-pow,
}
use high_frequency_market_ma.Prelude.{
  ℕ, zero, suc, ◌+◌, ◌-◌, ◌*◌, ◌/◌, ◌%◌, ◌^◌, ◌≤◌, ◌<◌, min, ◌≡◌, sym, ap, ◌∙◌, arith,
}

half-mod : (x p : ℕ) → 0 < p → x / 2 % p * 2 + x % 2 ≡ x % (p + p)
half-mod x p h =
    let t = x / 2 % p in
    let small : t < p = mod-lt (x / 2) h in
    let whole : x ≡ t * 2 + x % 2 + (p + p) * (x / 2 / p) = omega (arith, mod-add-div (x / 2) p) in
    sym (
      ap (λ (y : ℕ). y % (p + p)) whole
      ∙ add-mul-mod_self_left (t * 2 + x % 2) (p + p) (x / 2 / p)
      ∙ mod-eq_of_lt (omega arith))

-- With as many digits to go as the number can have.
digits-ones : (k fuel a : ℕ) → a ≤ fuel → digits (λ _. zero) min fuel a (2 ^ k - 1) ≡ a % 2 ^ k
digits-ones k zero zero h = sym (zero-mod (2 ^ k))
digits-ones k zero (suc a) h = absurd (omega arith)
digits-ones k (suc fuel) zero h = sym (zero-mod (2 ^ k))
digits-ones zero (suc fuel) (suc a) h =
    omega (arith, digits-ones zero fuel (suc a / 2) (omega arith))
digits-ones (suc k) (suc fuel) (suc a) h =
    let pos : 1 ≤ 2 ^ k = one-le-pow k 2 (omega arith) in
    let halved : (2 ^ suc k - 1) / 2 ≡ 2 ^ k - 1 = omega (arith, two-pow-succ k) in
    let odd : (2 ^ suc k - 1) % 2 ≡ 1 = omega (arith, two-pow-succ k) in
    rw (halved, odd, digits-ones k fuel (suc a / 2) (omega arith), two-pow-succ k)
      (omega (arith, half-mod (suc a) (2 ^ k) pos))

pub bit_and-mask : (k a : ℕ) → bit_and a (2 ^ k - 1) ≡ a % 2 ^ k
bit_and-mask k a = bit_and-bitwise a (2 ^ k - 1) ∙ digits-ones k a a (omega arith)
