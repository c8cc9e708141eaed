-- ===== src/Quoting/Spread.antt =====
-- The two sides of a quote of engine/src/quoting.rs round its reservation price.
use high_frequency_market_ma.Prelude.Int.{ℤ, ◌≤ℤ◌}
use high_frequency_market_ma.Float.{Float}
use high_frequency_market_ma.Quoting.{AvellanedaStoikov, quote_prices}

-- What an f64 does with `<=`, which no NaN satisfies: `max` is not below its second argument, taking
-- what is not negative from a finite number does not raise it and adding it does not lower it, and
-- neither division by the tick size nor rounding turns two numbers round.
pub record SpreadLaws {ℓ} (F : Type ℓ) ⦃f : Float F⦄ : Type (ℓ ⊔ 1) where
  pub le : F → F → Type 0
  pub IsFinite : F → Type 0
  pub le_trans : (x y z : F) → le x y → le y z → le x z
  pub le_max : (x : F) → le (f.literal 0 1) (f.max x (f.literal 0 1))
  pub sub_le : (x y : F) → IsFinite x → le (f.literal 0 1) y → le (f.sub x y) x
  pub le_add : (x y : F) → IsFinite x → le (f.literal 0 1) y → le x (f.add x y)
  pub ticks_mono :
      (x y : F)
      → le x y
      → f.round_i64 (f.div x (f.literal 1 2)) ≤ℤ f.round_i64 (f.div y (f.literal 1 2))

module _ {ℓ} {F : Type ℓ} ⦃f : Float F⦄ (laws : SpreadLaws F) where
  -- Whatever the model, the inventory and the volatility are, the spread is not negative.
  pub quote_prices-le :
      (m : AvellanedaStoikov F) (mid : F) (inventory : ℤ) (sigma time : F)
      → let q = quote_prices m mid inventory sigma time in
        laws.IsFinite q.reservation_price
        → laws.le q.bid q.reservation_price
          × laws.le q.reservation_price q.ask
          × laws.le q.bid q.ask
  unfolding quote_prices
  quote_prices-le m mid inventory sigma time finite =
      let q = quote_prices m mid inventory sigma time in
      let wide = laws.le_max _ in
      let below = laws.sub_le q.reservation_price q.half_spread finite wide in
      let above = laws.le_add q.reservation_price q.half_spread finite wide in
      (below, above, laws.le_trans _ _ _ below above)
