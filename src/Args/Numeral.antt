-- ===== src/Args/Numeral.antt =====
-- The numbers that engine/src/main.rs reads: which texts are one, and of what value.
use native.Mathlib.Nat.{one-le-pow, mul-le-mul_left, pow-succ'}
use high_frequency_market_ma.Prelude.{
  ℕ, ◌+◌, ◌-◌, ◌*◌, ◌^◌, ◌≤◌, ◌<◌, ◌≡◌, ◌⊎◌, ◌↔◌, inl, inr, refl, sym, ap, ◌∙◌, false, ◌&&◌, none,
  some, [], ◌∷◌, length, is_empty, All, ltb, leb, ◌==◌, Bool-cases, and-true, ltb→lt, lt→ltb,
  leb→le, le→leb, ==→eq, ne→==_false, arith,
}
use high_frequency_market_ma.Ipc.{Text}
use high_frequency_market_ma.Args.{parse_digits, parse_unsigned, parse_u64}

abbrev pub IsDigit : ℕ → Type 0
IsDigit c = (48 ≤ c) × (c ≤ 57)

-- Each digit by its place.
abbrev pub value : Text → ℕ
value [] = 0
value (c ∷ cs) = (c - 48) * 10 ^ length cs + value cs

shift : (a x p v : ℕ) → (a * 10 + x) * p + v ≡ a * (10 * p) + (x * p + v)
shift a x p v = grind arith

grows : (a n : ℕ) → a ≤ a * 10 ^ n
grows a n = omega (arith, mul-le-mul_left {m = 1} {n = 10 ^ n} a (one-le-pow n 10 (omega arith)))

horner :
    (read c : ℕ) (cs : Text)
    → read * 10 ^ length (c ∷ cs) + value (c ∷ cs)
      ≡ (read * 10 + (c - 48)) * 10 ^ length cs + value cs
horner read c cs =
    ap (λ p. read * p + value (c ∷ cs)) (pow-succ' 10 (length cs))
    ∙ sym (shift read (c - 48) (10 ^ length cs) (value cs))

parse_digits-value :
    (cs : Text) (read : ℕ)
    → All IsDigit cs
    → read * 10 ^ length cs + value cs < 2 ^ 64
    → parse_digits read cs ≡ some (read * 10 ^ length cs + value cs)
unfolding parse_digits
parse_digits-value [] read h lt = ap some (omega arith)
parse_digits-value (c ∷ cs) read (h, hs) lt =
    let next = read * 10 + (c - 48) in
    let e = horner read c cs in
    rw
      (
        le→leb 48 c h.0,
        le→leb c 57 h.1,
        lt→ltb next (2 ^ 64) (omega (arith, grows next (length cs))),
      )
      (parse_digits-value cs next hs (omega arith) ∙ ap some (sym e))

-- What is read never comes to 2 ^ 64.
parse_digits-cause :
    (cs : Text) (read : ℕ) {n : ℕ}
    → read < 2 ^ 64
    → parse_digits read cs ≡ some n
    → All IsDigit cs × (read * 10 ^ length cs + value cs ≡ n) × (n < 2 ^ 64)
unfolding parse_digits
parse_digits-cause [] read {n = n} lt e = let same : read ≡ n = cc in (tt, omega arith, omega arith)
parse_digits-cause (c ∷ cs) read {n = n} lt e = elim (Bool-cases (leb 48 c && leb c 57)) [
  | inr no_digit ↦ (let e' : none ≡ some n = rw no_digit at e in cc)
  | inl digit ↦ elim (Bool-cases (ltb (read * 10 + (c - 48)) (2 ^ 64))) [
    | inr large ↦ (let e' : none ≡ some n = rw (digit, large) at e in cc)
    | inl small ↦
        let (low, high) = and-true _ _ digit in
        let (hs, v, lt') =
          parse_digits-cause cs (read * 10 + (c - 48)) (ltb→lt _ _ small)
            (rw (digit, small) at e) in
        (((leb→le _ _ low, leb→le _ _ high), hs), horner read c cs ∙ v, lt')
  ]
]

abbrev pub IsDecimal : Text → ℕ → Type 0
IsDecimal ds n = (is_empty ds ≡ false) × All IsDigit ds × (value ds ≡ n) × (n < 2 ^ 64)

-- At least one digit, with or without a plus sign, of a value below 2 ^ 64.
abbrev pub IsNumeral : Text → ℕ → Type 0
IsNumeral s n = (ds : Text) × ((s ≡ ds) ⊎ (s ≡ 43 ∷ ds)) × IsDecimal ds n

parse_unsigned-IsDecimal : (s : Text) (n : ℕ) → parse_unsigned s ≡ some n → IsDecimal s n
parse_unsigned-IsDecimal [] n e = cc
parse_unsigned-IsDecimal (c ∷ cs) n e =
    let (hs, v, lt) = parse_digits-cause (c ∷ cs) 0 (omega arith) e in
    (refl, hs, omega (arith, v), lt)

IsDecimal-parse_unsigned : (s : Text) (n : ℕ) → IsDecimal s n → parse_unsigned s ≡ some n
IsDecimal-parse_unsigned [] n (e, hs, v, lt) = cc
IsDecimal-parse_unsigned (c ∷ cs) n (e, hs, v, lt) =
    parse_digits-value (c ∷ cs) 0 hs (omega (arith, v)) ∙ ap some (omega (arith, v))

parse_u64-IsNumeral : (s : Text) (n : ℕ) → parse_u64 s ≡ some n → IsNumeral s n
unfolding parse_u64
parse_u64-IsNumeral [] n e = cc
parse_u64-IsNumeral (c ∷ cs) n e = elim (Bool-cases (c == 43)) [
  | inl plus ↦
      (cs, inr (ap (λ d. d ∷ cs) (==→eq c 43 plus)), parse_unsigned-IsDecimal cs n (rw plus at e))
  | inr other ↦ (c ∷ cs, inl refl, parse_unsigned-IsDecimal (c ∷ cs) n (rw other at e))
]

IsDecimal-parse_u64 : (s : Text) (n : ℕ) → IsDecimal s n → parse_u64 s ≡ some n
unfolding parse_u64
IsDecimal-parse_u64 [] n (e, hs, v, lt) = cc
IsDecimal-parse_u64 (c ∷ cs) n d =
    let other : (c == 43) ≡ false = ne→==_false c 43 (λ e. omega (arith, d.1.0.0)) in
    rw other (IsDecimal-parse_unsigned (c ∷ cs) n d)

IsNumeral-parse_u64 : (s : Text) (n : ℕ) → IsNumeral s n → parse_u64 s ≡ some n
unfolding parse_u64
IsNumeral-parse_u64 s n (ds, inl e, d) = ap parse_u64 e ∙ IsDecimal-parse_u64 ds n d
IsNumeral-parse_u64 s n (ds, inr e, d) = ap parse_u64 e ∙ IsDecimal-parse_unsigned ds n d

pub parse_u64_lem : (s : Text) (n : ℕ) → (parse_u64 s ≡ some n) ↔ IsNumeral s n
parse_u64_lem s n = (parse_u64-IsNumeral s n, IsNumeral-parse_u64 s n)
