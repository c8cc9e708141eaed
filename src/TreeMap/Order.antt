-- ===== src/TreeMap/Order.antt =====
-- The order of a map's keys, and what reading and writing its first and last entry does.
use high_frequency_market_ma.Prelude.{
  ◌≡◌, refl, ap, ◌⊎◌, inl, inr, [], ◌∷◌, ◌++◌, none, some, All, All-append, All-append_left,
  All-append_right, All-map, Bool-cases, arith,
}
use high_frequency_market_ma.Prelude.Int.{
  ℤ, ◌<ℤ◌, ltb_ℤ, eqb_ℤ, eqb_ℤ_self, lt→eqb_ℤ, gt→eqb_ℤ, ge→ltb_ℤ, lt→ltb_ℤ, ℤ-trichotomy,
}
use high_frequency_market_ma.TreeMap.{TreeMap, get, insert, remove, last_key}

module _ {ℓ} {V : Type ℓ} where
  abbrev pub Above : ℤ → TreeMap V → Type 0
  Above k = All λ e. k <ℤ e.0

  abbrev pub Below : ℤ → TreeMap V → Type 0
  Below k = All λ e. e.0 <ℤ k

  -- The keys ascend strictly.
  abbrev pub IsSorted : TreeMap V → Type 0
  IsSorted [] = Unit
  IsSorted ((k, v) ∷ m) = Above k m × IsSorted m

  pub Above-trans : (j k : ℤ) (m : TreeMap V) → j <ℤ k → Above k m → Above j m
  Above-trans j k m h = All-map _ _ m (λ e lt. omega arith)

  Above-insert : (j k : ℤ) (v : V) (m : TreeMap V) → j <ℤ k → Above j m → Above j (insert k v m)
  unfolding insert
  Above-insert j k v [] h a = (h, tt)
  Above-insert j k v ((i, w) ∷ m) h a = ground (arith, Above-insert j k v m h a.1)

  pub insert-IsSorted : (k : ℤ) (v : V) (m : TreeMap V) → IsSorted m → IsSorted (insert k v m)
  unfolding insert
  insert-IsSorted k v [] s = (tt, tt)
  insert-IsSorted k v ((j, w) ∷ m) s = elim (ℤ-trichotomy k j) [
    | inl lt ↦ rw (lt→ltb_ℤ k j lt) ((lt, Above-trans k j m lt s.0), s)
    | inr (inl e) ↦ rw (e, ge→ltb_ℤ j j (omega arith), eqb_ℤ_self j) s
    | inr (inr gt) ↦
        rw (ge→ltb_ℤ k j (omega arith), lt→eqb_ℤ j k gt)
          (Above-insert j k v m gt s.0, insert-IsSorted k v m s.1)
  ]

  pub All-insert {κ} :
      (P : ℤ × V → Type κ) (k : ℤ) (v : V) (m : TreeMap V)
      → P (k, v)
      → All P m
      → All P (insert k v m)
  unfolding insert
  All-insert P k v [] p h = (p, tt)
  All-insert P k v ((j, w) ∷ m) p h = elim (Bool-cases (ltb_ℤ k j)) [
    | inl lt ↦ rw lt (p, h)
    | inr ge ↦ elim (Bool-cases (eqb_ℤ j k)) [
      | inl e ↦ rw (ge, e) (p, h.1)
      | inr ne ↦ rw (ge, ne) (h.0, All-insert P k v m p h.1)
    ]
  ]

  pub All-remove {κ} : (P : ℤ × V → Type κ) (k : ℤ) (m : TreeMap V) → All P m → All P (remove k m)
  unfolding remove
  All-remove P k [] h = tt
  All-remove P k ((j, w) ∷ m) h = elim (Bool-cases (eqb_ℤ j k)) [
    | inl e ↦ rw e h.1
    | inr e ↦ rw e (h.0, All-remove P k m h.1)
  ]

  pub remove-IsSorted : (k : ℤ) (m : TreeMap V) → IsSorted m → IsSorted (remove k m)
  unfolding remove
  remove-IsSorted k [] s = tt
  remove-IsSorted k ((j, w) ∷ m) s = elim (Bool-cases (eqb_ℤ j k)) [
    | inl e ↦ rw e s.1
    | inr e ↦ rw e (All-remove _ k m s.0, remove-IsSorted k m s.1)
  ]

-- Reading and writing at a key that is in the map, with the entries before it and after it.
module _ {ℓ} {V : Type ℓ} (k : ℤ) (v : V) (ys : TreeMap V) where
  pub get-at : (xs : TreeMap V) → Below k xs → get (xs ++ (k, v) ∷ ys) k ≡ some v
  unfolding get
  get-at [] b = rw (eqb_ℤ_self k)
  get-at ((j, w) ∷ xs) b = rw (lt→eqb_ℤ j k b.0) (get-at xs b.1)

  pub remove-at : (xs : TreeMap V) → Below k xs → remove k (xs ++ (k, v) ∷ ys) ≡ xs ++ ys
  unfolding remove
  remove-at [] b = rw (eqb_ℤ_self k)
  remove-at ((j, w) ∷ xs) b = rw (lt→eqb_ℤ j k b.0) (ap (◌∷◌ (j, w)) (remove-at xs b.1))

  pub insert-at :
      (v' : V) (xs : TreeMap V) → Below k xs → insert k v' (xs ++ (k, v) ∷ ys) ≡ xs ++ (k, v') ∷ ys
  unfolding insert
  insert-at v' [] b = rw (ge→ltb_ℤ k k (omega arith), eqb_ℤ_self k)
  insert-at v' ((j, w) ∷ xs) b =
      rw (ge→ltb_ℤ k j (omega arith), lt→eqb_ℤ j k b.0) (ap (◌∷◌ (j, w)) (insert-at v' xs b.1))

  pub IsSorted-Below : (xs : TreeMap V) → IsSorted (xs ++ (k, v) ∷ ys) → Below k xs
  IsSorted-Below [] s = tt
  IsSorted-Below ((j, w) ∷ xs) s =
      ((All-append_right _ xs ((k, v) ∷ ys) s.0).0, IsSorted-Below xs s.1)

module _ {ℓ} {V : Type ℓ} where
  pub get-Above : (k : ℤ) (m : TreeMap V) → Above k m → get m k ≡ none
  unfolding get
  get-Above k [] a = refl
  get-Above k ((j, w) ∷ m) a = rw (gt→eqb_ℤ j k a.0) (get-Above k m a.1)

  -- Where a key is found, the map splits there.
  pub get-split :
      (k : ℤ) (m : TreeMap V) {v : V}
      → IsSorted m
      → get m k ≡ some v
      → (xs : TreeMap V) × (ys : TreeMap V) × (m ≡ xs ++ (k, v) ∷ ys) × Below k xs
  unfolding get
  get-split k [] s h = cc
  get-split k ((j, w) ∷ m) s h = elim (ℤ-trichotomy j k) [
    | inl lt ↦
        let (xs, ys, e, b) = get-split k m s.1 (rw (lt→eqb_ℤ j k lt) at h) in
        ((j, w) ∷ xs, ys, ap (◌∷◌ (j, w)) e, (lt, b))
    | inr (inl e) ↦ ([], m, ground (arith, eqb_ℤ_self k), tt)
    | inr (inr gt) ↦ cc (get-Above k m (Above-trans k j m gt s.0), (rw (gt→eqb_ℤ j k gt) at h))
  ]

  pub IsSorted-left : (xs ys : TreeMap V) → IsSorted (xs ++ ys) → IsSorted xs
  IsSorted-left [] ys s = tt
  IsSorted-left (x ∷ xs) ys s = (All-append_left _ xs ys s.0, IsSorted-left xs ys s.1)

  pub IsSorted-right : (xs ys : TreeMap V) → IsSorted (xs ++ ys) → IsSorted ys
  IsSorted-right [] ys s = s
  IsSorted-right (x ∷ xs) ys s = IsSorted-right xs ys s.1

  pub IsSorted-snoc :
      (k : ℤ) (v : V) (xs : TreeMap V) → Below k xs → IsSorted xs → IsSorted (xs ++ (k, v) ∷ [])
  IsSorted-snoc k v [] b s = (tt, tt)
  IsSorted-snoc k v (x ∷ xs) b s =
      (All-append _ xs ((k, v) ∷ []) s.0 (b.0, tt), IsSorted-snoc k v xs b.1 s.1)

  pub last_key-snoc : (k : ℤ) (v : V) (xs : TreeMap V) → last_key (xs ++ (k, v) ∷ []) ≡ some k
  unfolding last_key
  last_key-snoc k v [] = refl
  last_key-snoc k v (x ∷ []) = refl
  last_key-snoc k v (x ∷ y ∷ xs) = last_key-snoc k v (y ∷ xs)

  -- A map is empty or has a last entry.
  pub snoc-cases :
      (m : TreeMap V) → (m ≡ []) ⊎ ((xs : TreeMap V) × (k : ℤ) × (v : V) × (m ≡ xs ++ (k, v) ∷ []))
  snoc-cases [] = inl refl
  snoc-cases ((k, v) ∷ m) = elim (snoc-cases m) [
    | inl e ↦ inr ([], k, v, ap (◌∷◌ (k, v)) e)
    | inr (xs, j, w, e) ↦ inr ((k, v) ∷ xs, j, w, ap (◌∷◌ (k, v)) e)
  ]
