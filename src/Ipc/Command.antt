-- ===== src/Ipc/Command.antt =====
-- The kill command of engine/src/ipc.rs: the test of a line, which trims and ignores case.
use high_frequency_market_ma.Prelude.{
  ℕ, suc, ◌+◌, ◌≤◌, ◌≡◌, ◌⊎◌, ◌↔◌, inl, inr, refl, sym, ap, ◌∙◌, true, false, [], ◌∷◌, ◌++◌,
  reverse, reverse-append, reverse-reverse, length, All, All-reverse, ◌==◌, Bool-cases, and-true,
  arith,
}
use high_frequency_market_ma.Ipc.{
  Text, is_whitespace, trim_start, trim, to_ascii_lowercase, eq_ignore_ascii_case, kill_word,
}

abbrev pub IsWhite : Text → Type 0
IsWhite l = All (λ c. is_whitespace c ≡ true) l

-- The kill command, in any mix of cases, with white space around it.
abbrev pub IsKill : Text → Type 0
IsKill l =
    (before : Text) × (k : ℕ) × (i : ℕ) × (m : ℕ) × (n : ℕ) × (after : Text) × (l
      ≡ before ++ k ∷ i ∷ m ∷ n ∷ after)
    × IsWhite before
    × IsWhite after
    × ((k ≡ 75) ⊎ (k ≡ 107))
    × ((i ≡ 73) ⊎ (i ≡ 105))
    × ((m ≡ 76) ⊎ (m ≡ 108))
    × ((n ≡ 76) ⊎ (n ≡ 108))

trim_start-white : (before l : Text) → IsWhite before → trim_start (before ++ l) ≡ trim_start l
unfolding trim_start
trim_start-white [] l h = refl
trim_start-white (c ∷ before) l (h, hs) = rw h (trim_start-white before l hs)

trim_start-cons : (c : ℕ) (l : Text) → is_whitespace c ≡ false → trim_start (c ∷ l) ≡ c ∷ l
unfolding trim_start
trim_start-cons c l h = rw h refl

-- What is left begins where the white space ends.
trim_start-split : (l : Text) → (before : Text) × (l ≡ before ++ trim_start l) × IsWhite before
unfolding trim_start
trim_start-split [] = ([], refl, tt)
trim_start-split (c ∷ cs) = elim (Bool-cases (is_whitespace c)) [
  | inl white ↦
      let (before, e, h) = trim_start-split cs in
      rw white (c ∷ before, ap (λ z. c ∷ z) e, (white, h))
  | inr black ↦ rw black ([], refl, tt)
]

trim-split :
    (l : Text)
    → (before : Text) × (after : Text) × (l ≡ before ++ (trim l ++ after))
      × IsWhite before
      × IsWhite after
unfolding trim
trim-split l =
    let (before, e, h) = trim_start-split l in
    let (behind, e', h') = trim_start-split (reverse (trim_start l)) in
    (
      before,
      reverse behind,
      e
          ∙ ap (λ z. before ++ z)
              (sym (reverse-reverse (trim_start l))
                ∙ ap reverse e'
                ∙ reverse-append behind (trim_start (reverse (trim_start l)))),
      h,
      All-reverse (λ c. is_whitespace c ≡ true) behind h',
    )

trim-around :
    (before after : Text) (a b c d : ℕ)
    → IsWhite before
    → IsWhite after
    → is_whitespace a ≡ false
    → is_whitespace d ≡ false
    → trim (before ++ a ∷ b ∷ c ∷ d ∷ after) ≡ a ∷ b ∷ c ∷ d ∷ []
unfolding trim
trim-around before after a b c d hb ha na nd =
    let first : trim_start (before ++ a ∷ b ∷ c ∷ d ∷ after) ≡ a ∷ b ∷ c ∷ d ∷ after =
      trim_start-white before (a ∷ b ∷ c ∷ d ∷ after) hb
      ∙ trim_start-cons a (b ∷ c ∷ d ∷ after) na in
    ap (λ z. reverse (trim_start (reverse z))) first
    ∙ ap (λ z. reverse (trim_start z)) (reverse-append (a ∷ b ∷ c ∷ d ∷ []) after)
    ∙ ap reverse (
        trim_start-white (reverse after) (d ∷ c ∷ b ∷ a ∷ [])
          (All-reverse (λ c. is_whitespace c ≡ true) after ha)
        ∙ trim_start-cons d (c ∷ b ∷ a ∷ []) nd)

-- The two cases of a letter of the word.
same_letter :
    (c d : ℕ)
    → 65 ≤ d
    → d ≤ 90
    → (to_ascii_lowercase c == to_ascii_lowercase d) ≡ true
    → (c ≡ d) ⊎ (c ≡ d + 32)
same_letter c d low high e = grind arith

either_case :
    (c d : ℕ)
    → 65 ≤ d
    → d ≤ 90
    → (c ≡ d) ⊎ (c ≡ d + 32)
    → (to_ascii_lowercase c == to_ascii_lowercase d) ≡ true
either_case c d low high e = grind arith

black_k : (c : ℕ) → (c ≡ 75) ⊎ (c ≡ 107) → is_whitespace c ≡ false
unfolding is_whitespace
black_k c (inl e) = rw e refl
black_k c (inr e) = rw e refl

black_l : (c : ℕ) → (c ≡ 76) ⊎ (c ≡ 108) → is_whitespace c ≡ false
unfolding is_whitespace
black_l c (inl e) = rw e refl
black_l c (inr e) = rw e refl

abbrev IsWord : Text → Type 0
IsWord w =
    (k : ℕ) × (i : ℕ) × (m : ℕ) × (n : ℕ) × (w ≡ k ∷ i ∷ m ∷ n ∷ [])
    × ((k ≡ 75) ⊎ (k ≡ 107))
    × ((i ≡ 73) ⊎ (i ≡ 105))
    × ((m ≡ 76) ⊎ (m ≡ 108))
    × ((n ≡ 76) ⊎ (n ≡ 108))

same_length : (v w : Text) → eq_ignore_ascii_case v w ≡ true → length v ≡ length w
unfolding eq_ignore_ascii_case
same_length [] [] e = refl
same_length [] (d ∷ w) e = cc
same_length (c ∷ v) [] e = cc
same_length (c ∷ v) (d ∷ w) e = ap suc (same_length v w (and-true _ _ e).1)

eq_ignore_ascii_case-IsWord : (w : Text) → eq_ignore_ascii_case w kill_word ≡ true → IsWord w
unfolding eq_ignore_ascii_case
eq_ignore_ascii_case-IsWord [] e = cc
eq_ignore_ascii_case-IsWord (k ∷ []) e = absurd (omega (arith, same_length (k ∷ []) kill_word e))
eq_ignore_ascii_case-IsWord (k ∷ i ∷ []) e =
    absurd (omega (arith, same_length (k ∷ i ∷ []) kill_word e))
eq_ignore_ascii_case-IsWord (k ∷ i ∷ m ∷ []) e =
    absurd (omega (arith, same_length (k ∷ i ∷ m ∷ []) kill_word e))
eq_ignore_ascii_case-IsWord (k ∷ i ∷ m ∷ n ∷ []) e =
    let (ek, e1) = and-true _ _ e in
    let (ei, e2) = and-true _ _ e1 in
    let (em, e3) = and-true _ _ e2 in
    let (en, e4) = and-true _ _ e3 in
    (
      k,
      i,
      m,
      n,
      refl,
      same_letter k 75 (omega arith) (omega arith) ek,
      same_letter i 73 (omega arith) (omega arith) ei,
      same_letter m 76 (omega arith) (omega arith) em,
      same_letter n 76 (omega arith) (omega arith) en,
    )
eq_ignore_ascii_case-IsWord (k ∷ i ∷ m ∷ n ∷ x ∷ w) e =
    absurd (omega (arith, same_length (k ∷ i ∷ m ∷ n ∷ x ∷ w) kill_word e))

IsWord-eq_ignore_ascii_case :
    (k i m n : ℕ)
    → (k ≡ 75) ⊎ (k ≡ 107)
    → (i ≡ 73) ⊎ (i ≡ 105)
    → (m ≡ 76) ⊎ (m ≡ 108)
    → (n ≡ 76) ⊎ (n ≡ 108)
    → eq_ignore_ascii_case (k ∷ i ∷ m ∷ n ∷ []) kill_word ≡ true
unfolding eq_ignore_ascii_case
IsWord-eq_ignore_ascii_case k i m n hk hi hm hn =
    rw
      (
        either_case k 75 (omega arith) (omega arith) hk,
        either_case i 73 (omega arith) (omega arith) hi,
        either_case m 76 (omega arith) (omega arith) hm,
        either_case n 76 (omega arith) (omega arith) hn,
      )
      refl

-- The test of the reader is exactly that a line is the command.
pub line-IsKill : (l : Text) → (eq_ignore_ascii_case (trim l) kill_word ≡ true) ↔ IsKill l
line-IsKill l = (
  λ e.
      let (before, after, split, hb, ha) = trim-split l in
      let (k, i, m, n, w, hk, hi, hm, hn) = eq_ignore_ascii_case-IsWord (trim l) e in
      (
        before,
        k,
        i,
        m,
        n,
        after,
        split ∙ ap (λ z. before ++ (z ++ after)) w,
        hb,
        ha,
        hk,
        hi,
        hm,
        hn,
      ),
  λ h.
      let (before, k, i, m, n, after, split, hb, ha, hk, hi, hm, hn) = h in
      ap (λ z. eq_ignore_ascii_case z kill_word)
        (ap trim split ∙ trim-around before after k i m n hb ha (black_k k hk) (black_l n hn))
      ∙ IsWord-eq_ignore_ascii_case k i m n hk hi hm hn,
)
