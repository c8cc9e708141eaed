-- ===== src/Args/Flags.antt =====
-- The flags of engine/src/main.rs: which arguments choose the benchmark.
use high_frequency_market_ma.Prelude.{
  ℕ, suc, ◌+◌, ◌≡◌, ◌≢◌, ◌↔◌, inl, inr, refl, sym, ap, ap₂, ◌∙◌, true, false, Option, none, some,
  Option-cases, List, [], ◌∷◌, ◌++◌, All, get_elem?, ==→eq, ==_self, Bool-cases, and-true, ◌>>=◌,
  arith,
}
use high_frequency_market_ma.Ipc.{Text}
use high_frequency_market_ma.Args.{
  bench_flag, duration_flag, eq_text, position_of, parse_u64, value_after, benchmark, engine,
  unless_bench, main_mode,
}
use high_frequency_market_ma.Args.Numeral.{IsNumeral, parse_u64_lem}

-- Behind the first place of the flag there is a number.
abbrev pub Gives : Text → List Text → ℕ → Type 0
Gives flag args n =
    (before : List Text) × (s : Text) × (after : List Text) × (args ≡ before ++ flag ∷ s ∷ after)
    × All (λ a. a ≢ flag) before
    × IsNumeral s n

eq_text→eq : (a b : Text) → eq_text a b ≡ true → a ≡ b
unfolding eq_text
eq_text→eq [] [] e = refl
eq_text→eq [] (d ∷ ds) e = cc
eq_text→eq (c ∷ cs) [] e = cc
eq_text→eq (c ∷ cs) (d ∷ ds) e =
    let (head, tail) = and-true _ _ e in ap₂ ◌∷◌ (==→eq c d head) (eq_text→eq cs ds tail)

eq_text_self : (a : Text) → eq_text a a ≡ true
unfolding eq_text
eq_text_self [] = refl
eq_text_self (c ∷ cs) = rw (==_self c) (eq_text_self cs)

value_after-skip :
    (flag a : Text) (rest : List Text)
    → eq_text a flag ≡ false
    → value_after flag (a ∷ rest) ≡ value_after flag rest
unfolding value_after position_of
value_after-skip flag a rest e = elim (Option-cases (position_of flag rest)) [
  | inl missing ↦ rw (e, missing) refl
  | inr (i, found) ↦
      rw (e, found)
        let e' : suc i + 1 ≡ suc (i + 1) = omega arith in
          ap (λ j. get_elem? (a ∷ rest) j >>= parse_u64) e'
]

value_after-hit :
    (flag a : Text) (rest : List Text)
    → eq_text a flag ≡ true
    → value_after flag (a ∷ rest) ≡ (get_elem? rest 0 >>= parse_u64)
unfolding value_after position_of
value_after-hit flag a rest e = rw e refl

differs : (a flag : Text) → eq_text a flag ≡ false → a ≢ flag
differs a flag f e = let t : eq_text a flag ≡ true = ap (eq_text a) (sym e) ∙ eq_text_self a in cc

same_false : (a flag : Text) → a ≢ flag → eq_text a flag ≡ false
same_false a flag ne = elim (Bool-cases (eq_text a flag)) [
  | inl t ↦ absurd (ne (eq_text→eq a flag t))
  | inr f ↦ f
]

first-IsNumeral :
    (args : List Text) (n : ℕ)
    → (get_elem? args 0 >>= parse_u64) ≡ some n
    → (s : Text) × (after : List Text) × (args ≡ s ∷ after) × IsNumeral s n
first-IsNumeral [] n e = cc
first-IsNumeral (s ∷ after) n e = (s, after, refl, (parse_u64_lem s n).0 e)

value_after-Gives :
    (flag : Text) (args : List Text) (n : ℕ) → value_after flag args ≡ some n → Gives flag args n
unfolding value_after position_of
value_after-Gives flag [] n e = cc
value_after-Gives flag (a ∷ args) n e = elim (Bool-cases (eq_text a flag)) [
  | inl hit ↦
      let (s, after, split, k) =
        first-IsNumeral args n (sym (value_after-hit flag a args hit) ∙ e) in
      ([], s, after, ap₂ ◌∷◌ (eq_text→eq a flag hit) split, tt, k)
  | inr miss ↦
      let (before, s, after, split, h, k) =
        value_after-Gives flag args n (sym (value_after-skip flag a args miss) ∙ e) in
      (a ∷ before, s, after, ap (λ l. a ∷ l) split, (differs a flag miss, h), k)
]

Gives-value_after :
    (flag : Text) (before : List Text) (s : Text) (after : List Text) (n : ℕ)
    → All (λ a. a ≢ flag) before
    → IsNumeral s n
    → value_after flag (before ++ flag ∷ s ∷ after) ≡ some n
Gives-value_after flag [] s after n h k =
    value_after-hit flag flag (s ∷ after) (eq_text_self flag) ∙ (parse_u64_lem s n).1 k
Gives-value_after flag (b ∷ before) s after n (h, hs) k =
    value_after-skip flag b (before ++ flag ∷ s ∷ after) (same_false b flag h)
    ∙ Gives-value_after flag before s after n hs k

bench-chosen : (o d : Option ℕ) (n : ℕ) → unless_bench o d ≡ benchmark n → o ≡ some n
bench-chosen (some m) d n e = let same : m ≡ n = cc in ap some same
bench-chosen none d n e = cc

engine-chosen :
    (o d : Option ℕ) (n : ℕ) → unless_bench o d ≡ engine (some n) → (o ≡ none) × (d ≡ some n)
engine-chosen (some m) d n e = cc
engine-chosen none d n e = (refl, cc)

Gives-value :
    (flag : Text) (args : List Text) (n : ℕ) → Gives flag args n → value_after flag args ≡ some n
Gives-value flag args n (before, s, after, split, h, k) =
    ap (value_after flag) split ∙ Gives-value_after flag before s after n h k

without :
    (flag : Text) (args : List Text)
    → ((n : ℕ) → ¬ Gives flag args n)
    → value_after flag args ≡ none
without flag args absent = elim (Option-cases (value_after flag args)) [
  | inl e ↦ e
  | inr (n, e) ↦ absurd (absent n (value_after-Gives flag args n e))
]

-- The arguments choose the benchmark with n messages exactly where the one behind the first
-- --bench is a decimal number n below 2 ^ 64, with or without a plus sign; they choose the engine
-- for n seconds exactly where there is no such number behind the first --bench and the one behind
-- the first --duration is n.
pub main_mode-chooses :
    (args : List Text) (n : ℕ)
    → ((main_mode args ≡ benchmark n) ↔ Gives bench_flag args n)
      × ((main_mode args ≡ engine (some n))
          ↔ (((m : ℕ) → ¬ Gives bench_flag args m) × Gives duration_flag args n))
unfolding main_mode
main_mode-chooses args n =
    let b = value_after bench_flag args in
    let d = value_after duration_flag args in
    (
      (
        λ e. value_after-Gives bench_flag args n (bench-chosen b d n e),
        λ g. ap (λ o. unless_bench o d) (Gives-value bench_flag args n g),
      ),
      (
        λ e.
            let (absent, found) = engine-chosen b d n e in
            (
              λ m g. clash absent (Gives-value bench_flag args m g),
              value_after-Gives duration_flag args n found,
            ),
        λ h. ap₂ unless_bench (without bench_flag args h.0) (Gives-value duration_flag args n h.1),
      ),
    )
  where
    clash : {o : Option ℕ} {m : ℕ} → o ≡ none → o ≡ some m → ⊥
    clash e e' = cc
