-- ===== src/TreeMap.antt =====
-- The standard library's `BTreeMap<Price, V>`, as far as engine/src/orderbook.rs uses it: the
-- entries in ascending order of their keys.
pub mod Order
use high_frequency_market_ma.Prelude.{List, [], ◌∷◌, Option, none, some, map, if◌then◌else◌}
use high_frequency_market_ma.Prelude.Int.{ℤ, ltb_ℤ, eqb_ℤ}

abbrev pub TreeMap {ℓ} : Type ℓ → Type ℓ
TreeMap V = List (ℤ × V)

module _ {ℓ} {V : Type ℓ} where
  -- `get`, and the read of `get_mut` and `entry`
  unfoldable pub get : TreeMap V → ℤ → Option V
  get [] k = none
  get ((j, v) ∷ m) k = if eqb_ℤ j k then some v else get m k

  -- `insert`, and the write through `get_mut` and `entry`
  unfoldable pub insert : ℤ → V → TreeMap V → TreeMap V
  insert k v [] = (k, v) ∷ []
  insert k v ((j, w) ∷ m) =
      if ltb_ℤ k j
      then (k, v) ∷ (j, w) ∷ m
      else (if eqb_ℤ j k then (k, v) ∷ m else (j, w) ∷ insert k v m)

  unfoldable pub remove : ℤ → TreeMap V → TreeMap V
  remove k [] = []
  remove k ((j, w) ∷ m) = if eqb_ℤ j k then m else (j, w) ∷ remove k m

  -- `keys`, and `values`
  abbrev pub keys : TreeMap V → List ℤ
  keys [] = []
  keys ((k, v) ∷ m) = k ∷ keys m

  abbrev pub values : TreeMap V → List V
  values [] = []
  values ((k, v) ∷ m) = v ∷ values m

  -- `keys().next()` and `keys().next_back()`
  unfoldable pub first_key : TreeMap V → Option ℤ
  first_key [] = none
  first_key ((k, v) ∷ m) = some k

  unfoldable pub last_key : TreeMap V → Option ℤ
  last_key [] = none
  last_key ((k, v) ∷ []) = some k
  last_key ((k, v) ∷ (j, w) ∷ m) = last_key ((j, w) ∷ m)
