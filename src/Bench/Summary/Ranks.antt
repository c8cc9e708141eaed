-- ===== src/Bench/Summary/Ranks.antt =====
-- The sorted latencies of engine/src/bench.rs, and the places of its percentiles among them.
use high_frequency_market_ma.Prelude.{
  ℕ, zero, suc, ◌^◌, ◌≤◌, ◌<◌, ◌≡◌, refl, ap, ◌∙◌, true, some, List, [], ◌∷◌, All, All-map, length,
  get_elem?, leb, Bool-cases, inl, inr, leb→le, leb_false→lt, arith,
}
use high_frequency_market_ma.Prelude.Int.{pos}
use high_frequency_market_ma.Float.{Float}
use high_frequency_market_ma.Bench.Summary.{insert_sorted, sort_unstable, rank}

abbrev pub IsSorted : List ℕ → Type 0
IsSorted [] = Unit
IsSorted (a ∷ l) = All (λ b. a ≤ b) l × IsSorted l

All-insert_sorted :
    (c a : ℕ) (l : List ℕ) → c ≤ a → All (λ b. c ≤ b) l → All (λ b. c ≤ b) (insert_sorted a l)
unfolding insert_sorted
All-insert_sorted c a [] le h = (le, tt)
All-insert_sorted c a (b ∷ l) le (h, hs) = elim (Bool-cases (leb a b)) [
  | inl first ↦ rw first (le, (h, hs))
  | inr behind ↦ rw behind (h, All-insert_sorted c a l le hs)
]

insert_sorted-IsSorted : (a : ℕ) (l : List ℕ) → IsSorted l → IsSorted (insert_sorted a l)
unfolding insert_sorted
insert_sorted-IsSorted a [] h = (tt, tt)
insert_sorted-IsSorted a (b ∷ l) (least, h) = elim (Bool-cases (leb a b)) [
  | inl first ↦
      let le : a ≤ b = leb→le _ _ first in
      rw first ((le, All-map (λ c. b ≤ c) (λ c. a ≤ c) l (λ c bc. omega arith) least), (least, h))
  | inr behind ↦ rw behind (
    All-insert_sorted b a l (omega (arith, leb_false→lt _ _ behind)) least,
    insert_sorted-IsSorted a l h,
  )
]

pub sort_unstable-IsSorted : (l : List ℕ) → IsSorted (sort_unstable l)
unfolding sort_unstable
sort_unstable-IsSorted [] = tt
sort_unstable-IsSorted (a ∷ l) =
    insert_sorted-IsSorted a (sort_unstable l) (sort_unstable-IsSorted l)

length-insert_sorted : (a : ℕ) (l : List ℕ) → length (insert_sorted a l) ≡ suc (length l)
unfolding insert_sorted
length-insert_sorted a [] = refl
length-insert_sorted a (b ∷ l) = ground (arith, length-insert_sorted a l)

pub length-sort_unstable : (l : List ℕ) → length (sort_unstable l) ≡ length l
unfolding sort_unstable
length-sort_unstable [] = refl
length-sort_unstable (a ∷ l) =
    length-insert_sorted a (sort_unstable l) ∙ ap suc (length-sort_unstable l)

-- An index below the length has an element.
pub get_elem?-some : (l : List ℕ) (i : ℕ) → i < length l → (a : ℕ) × (get_elem? l i ≡ some a)
get_elem?-some [] i lt = absurd (omega arith)
get_elem?-some (a ∷ l) zero lt = (a, refl)
get_elem?-some (a ∷ l) (suc i) lt = get_elem?-some l i (omega arith)

All-get_elem? :
    (c : ℕ) (l : List ℕ) (i : ℕ) {a : ℕ} → All (λ b. c ≤ b) l → get_elem? l i ≡ some a → c ≤ a
All-get_elem? c [] i h e = cc
All-get_elem? c (b ∷ l) zero (h, hs) e = grind (arith, e)
All-get_elem? c (b ∷ l) (suc i) (h, hs) e = All-get_elem? c l i hs e

-- In a sorted list, what stands behind is not less.
pub get_elem?_mono :
    (l : List ℕ) (i j : ℕ) {a b : ℕ}
    → IsSorted l
    → i ≤ j
    → get_elem? l i ≡ some a
    → get_elem? l j ≡ some b
    → a ≤ b
get_elem?_mono [] i j h le e e' = cc
get_elem?_mono (x ∷ l) zero zero (least, h) le e e' = grind (arith, e, e')
get_elem?_mono (x ∷ l) zero (suc j) {a = a} (least, h) le e e' =
    let same : x ≡ a = cc in omega (arith, All-get_elem? x l j least e')
get_elem?_mono (x ∷ l) (suc i) zero (least, h) le e e' = absurd (omega arith)
get_elem?_mono (x ∷ l) (suc i) (suc j) (least, h) le e e' =
    get_elem?_mono l i j h (omega arith) e e'

-- What an f64 does at whole numbers that it represents, at 1, and at the fractions of the report:
-- products with a larger factor do not round to less.
pub record RankLaws {ℓ} (F : Type ℓ) ⦃f : Float F⦄ : Type ℓ where
  pub sub_one :
      (n : ℕ) → n < 2 ^ 53 → f.sub (f.of_int (pos (suc n))) (f.literal 1 0) ≡ f.of_int (pos n)
  pub mul_one : (n : ℕ) → n < 2 ^ 53 → f.mul (f.of_int (pos n)) (f.literal 1 0) ≡ f.of_int (pos n)
  pub round_whole : (n : ℕ) → n < 2 ^ 53 → f.round_usize (f.of_int (pos n)) ≡ n
  pub scale_mono :
      (n : ℕ) (p q : F)
      → f.gt q p ≡ true
      → f.round_usize (f.mul (f.of_int (pos n)) p) ≤ f.round_usize (f.mul (f.of_int (pos n)) q)
  pub half_below : f.gt (f.literal 99 2) (f.literal 50 2) ≡ true
  pub p99_below : f.gt (f.literal 999 3) (f.literal 99 2) ≡ true
  pub p999_below : f.gt (f.literal 1 0) (f.literal 999 3) ≡ true

module _ {ℓ} {F : Type ℓ} ⦃f : Float F⦄ (laws : RankLaws F) (n : ℕ) (small : n < 2 ^ 53) where
  rank_scaled : (p : F) → rank (suc n) p ≡ f.round_usize (f.mul (f.of_int (pos n)) p)
  unfolding rank
  rank_scaled p = ap (λ x. f.round_usize (f.mul x p)) (laws.sub_one n small)

  pub rank_mono : (p q : F) → f.gt q p ≡ true → rank (suc n) p ≤ rank (suc n) q
  rank_mono p q h = omega (arith, rank_scaled p, rank_scaled q, laws.scale_mono n p q h)

  pub rank_last : rank (suc n) (f.literal 1 0) ≡ n
  rank_last =
      rank_scaled (f.literal 1 0)
      ∙ ap f.round_usize (laws.mul_one n small)
      ∙ laws.round_whole n small
