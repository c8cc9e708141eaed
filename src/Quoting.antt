-- ===== src/Quoting.antt =====
-- engine/src/quoting.rs: the streaming estimate of the volatility, and the quotes of Avellaneda and
-- Stoikov.
pub mod Spread
use high_frequency_market_ma.Prelude.{ℕ, ◌-◌, Option, none, some, if◌then◌else◌}
use high_frequency_market_ma.Prelude.Int.{ℤ, pos}
use high_frequency_market_ma.Float.{Float}

pub record VolEstimator {ℓ} (F : Type ℓ) : Type ℓ where
  pub ewma_var : F
  pub lambda : F
  pub last_mid : Option F
  pub last_ts_nanos : Option ℕ

pub record AvellanedaStoikov {ℓ} (F : Type ℓ) : Type ℓ where
  pub gamma : F
  pub kappa : F

pub record Quote {ℓ} (F : Type ℓ) : Type ℓ where
  pub bid : F
  pub ask : F
  pub reservation_price : F
  pub half_spread : F

module _ {ℓ} {F : Type ℓ} ⦃f : Float F⦄ where
  abbrev pub new_vol : F → F → VolEstimator F
  new_vol initial_sigma lambda = record {
    ewma_var = f.mul initial_sigma initial_sigma;
    lambda = lambda;
    last_mid = none;
    last_ts_nanos = none;
  }

  -- The variance after an observation, where there was one before. The subtraction saturates at 0.
  unfoldable pub next_var : VolEstimator F → F → F → ℕ → ℕ → F
  next_var v last_mid mid last_ts ts_nanos =
      let dt = f.div (f.of_int (pos (ts_nanos - last_ts))) (f.literal 1000000000 0) in
      let ret = f.sub mid last_mid in
      if f.gt dt (f.literal 1 6)
      then f.add (f.mul v.lambda v.ewma_var)
          (f.mul (f.sub (f.literal 10 1) v.lambda) (f.div (f.mul ret ret) dt))
      else v.ewma_var

  unfoldable pub ewma_after : VolEstimator F → Option F → Option ℕ → F → ℕ → F
  ewma_after v (some last_mid) (some last_ts) mid ts_nanos =
      next_var v last_mid mid last_ts ts_nanos
  ewma_after v (some last_mid) none mid ts_nanos = v.ewma_var
  ewma_after v none last_ts mid ts_nanos = v.ewma_var

  abbrev pub sigma : VolEstimator F → F
  sigma v = f.sqrt v.ewma_var

  -- `VolEstimator::update`
  unfoldable pub update_vol : VolEstimator F → F → ℕ → VolEstimator F × F
  update_vol v mid ts_nanos =
      let v' = record v {
        ewma_var = ewma_after v v.last_mid v.last_ts_nanos mid ts_nanos;
        last_mid = some mid;
        last_ts_nanos = some ts_nanos;
      } in
      (v', sigma v')

  -- `AvellanedaStoikov::quote`
  unfoldable pub quote_prices : AvellanedaStoikov F → F → ℤ → F → F → Quote F
  quote_prices m mid inventory sigma time_remaining_secs =
      let t = f.max time_remaining_secs (f.literal 0 1) in
      let sigma2 = f.mul sigma sigma in
      let reservation_price =
        f.sub mid (f.mul (f.mul (f.mul (f.of_int inventory) m.gamma) sigma2) t) in
      let spread = f.add (f.mul (f.mul m.gamma sigma2) t) (
        f.mul (f.div (f.literal 20 1) m.gamma)
          (f.ln (f.add (f.literal 10 1) (f.div m.gamma m.kappa)))) in
      let half_spread = f.max (f.div spread (f.literal 20 1)) (f.literal 0 1) in
      record {
        bid = f.sub reservation_price half_spread;
        ask = f.add reservation_price half_spread;
        reservation_price = reservation_price;
        half_spread = half_spread;
      }
