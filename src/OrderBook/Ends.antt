-- ===== src/OrderBook/Ends.antt =====
-- The side of a book as the matching code sees it, best level first: the end of the map that an
-- aggressor of each side takes from, and what reading and writing there does.
use high_frequency_market_ma.Prelude.{
  suc, ◌≡◌, refl, ap, ◌∙◌, sym, ◌⊎◌, All, All-append_left, All-append_right, inl, inr, some, List,
  [], ◌∷◌, ◌++◌, append-nil, reverse, reverse-append, length, length-append, is_empty,
  if◌then◌else◌, arith,
}
use mathlib.Core.List.{reverse-reverse}
use high_frequency_market_ma.TreeMap.{get, insert, remove, keys, first_key}
use high_frequency_market_ma.TreeMap.Order.{
  IsSorted, get-at, insert-at, remove-at, IsSorted-Below, IsSorted-left, IsSorted-snoc,
  last_key-snoc, snoc-cases,
}
use high_frequency_market_ma.Types.{Price, Side, bid, ask}
use high_frequency_market_ma.OrderBook.{Queue, Levels, put_level, best_level, price_levels}

abbrev pub Level : Type 0
Level = Price × Queue

-- The levels that an order of side `side` meets, best first.
abbrev pub priority : Side → Levels → List Level
priority bid m = m
priority ask m = reverse m

-- A side of the book with one more level at its best end.
abbrev pub top : Side → Level → Levels → Levels
top bid e m = e ∷ m
top ask e m = m ++ e ∷ []

pub top-cases :
    (side : Side) (m : Levels)
    → (m ≡ []) ⊎ ((p : Price) × (q : Queue) × (rest : Levels) × (m ≡ top side (p, q) rest))
top-cases bid [] = inl refl
top-cases bid ((p, q) ∷ m) = inr (p, q, m, refl)
top-cases ask m = elim (snoc-cases m) [ inl e ↦ inl e | inr (xs, p, q, e) ↦ inr (p, q, xs, e) ]

pub priority-top :
    (side : Side) (e : Level) (m : Levels) → priority side (top side e m) ≡ e ∷ priority side m
priority-top bid e m = refl
priority-top ask e m = reverse-append m (e ∷ [])

pub priority-nil : (side : Side) → priority side [] ≡ []
priority-nil bid = refl
priority-nil ask = refl

pub length-top : (side : Side) (e : Level) (m : Levels) → length (top side e m) ≡ suc (length m)
length-top bid e m = refl
length-top ask e m = omega (arith, length-append {0} m (e ∷ []))

module _ (p : Price) (q : Queue) (m : Levels) where
  pub best_level-top : (side : Side) → best_level side (top side (p, q) m) ≡ some p
  unfolding best_level first_key
  best_level-top bid = refl
  best_level-top ask = last_key-snoc p q m

  pub IsSorted-top : (side : Side) → IsSorted (top side (p, q) m) → IsSorted m
  IsSorted-top bid s = s.1
  IsSorted-top ask s = IsSorted-left m ((p, q) ∷ []) s

  pub get-top : (side : Side) → IsSorted (top side (p, q) m) → get (top side (p, q) m) p ≡ some q
  get-top bid s = get-at p q m [] tt
  get-top ask s = get-at p q [] m (IsSorted-Below p q [] m s)

  remove-top : (side : Side) → IsSorted (top side (p, q) m) → remove p (top side (p, q) m) ≡ m
  remove-top bid s = remove-at p q m [] tt
  remove-top ask s = remove-at p q [] m (IsSorted-Below p q [] m s) ∙ append-nil m

  module _ (q' : Queue) where
    insert-top :
        (side : Side)
        → IsSorted (top side (p, q) m)
        → insert p q' (top side (p, q) m) ≡ top side (p, q') m
    insert-top bid s = insert-at p q m q' [] tt
    insert-top ask s = insert-at p q [] q' m (IsSorted-Below p q [] m s)

    -- Writing the best level back replaces it, or takes it off.
    pub put_level-top :
        (side : Side)
        → IsSorted (top side (p, q) m)
        → put_level p q' (top side (p, q) m) ≡ (if is_empty q' then m else top side (p, q') m)
    unfolding put_level
    put_level-top side s = rw (remove-top side s, insert-top side s)

    pub IsSorted-top_set :
        (side : Side) → IsSorted (top side (p, q) m) → IsSorted (top side (p, q') m)
    IsSorted-top_set bid s = s
    IsSorted-top_set ask s =
        IsSorted-snoc p q' m (IsSorted-Below p q [] m s) (IsSorted-left m ((p, q) ∷ []) s)

pub keys-append : (xs ys : Levels) → keys (xs ++ ys) ≡ keys xs ++ keys ys
keys-append [] ys = refl
keys-append ((p, q) ∷ xs) ys = ap (◌∷◌ p) (keys-append xs ys)

pub price_levels-top :
    (side : Side) (p : Price) (q : Queue) (m : Levels)
    → price_levels side (top side (p, q) m) ≡ p ∷ price_levels side m
price_levels-top bid p q m = refl
price_levels-top ask p q m =
    ap reverse (keys-append m ((p, q) ∷ [])) ∙ reverse-append (keys m) (p ∷ [])

pub price_levels-nil : (side : Side) → price_levels side [] ≡ []
price_levels-nil bid = refl
price_levels-nil ask = refl

pub All-top {κ} :
    (P : Level → Type κ) (side : Side) (e : Level) (m : Levels)
    → All P (top side e m)
    → P e × All P m
All-top P bid e m h = h
All-top P ask e m h = ((All-append_right P m (e ∷ []) h).0, All-append_left P m (e ∷ []) h)

pub priority-injective : (side : Side) (m n : Levels) → priority side m ≡ priority side n → m ≡ n
priority-injective bid m n e = e
priority-injective ask m n e = sym (reverse-reverse m) ∙ ap reverse e ∙ reverse-reverse n
