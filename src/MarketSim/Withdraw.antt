-- ===== src/MarketSim/Withdraw.antt =====
-- The strategy's orders that rest in the book of engine/src/market_sim.rs.
use high_frequency_market_ma.Prelude.{
  ℕ, ◌^◌, ◌<◌, ◌≤◌, ◌≡◌, refl, subst, ◌∙◌, Bool, true, false, List, [], ◌∷◌, ◌++◌, All, Bool-cases,
  inl, inr, sum_by, arith,
}
use high_frequency_market_ma.Types.{Price, Qty, bid, ask, Order, StrategyCommand, cancel_all}
use high_frequency_market_ma.OrderBook.Mirror.{flat}
use high_frequency_market_ma.MarketSim.{Round, run_sim}
use high_frequency_market_ma.MarketSim.Tracked.{own, Tracked-once}
use high_frequency_market_ma.MarketSim.Ours.{Ours}
use high_frequency_market_ma.MarketSim.Quoted.{
  Fitting, is_withdrawn, is_withdrawn-append, commands_of, run_sim-Quoted,
}

is_withdrawn_cancels :
    (cs : List StrategyCommand) → All (λ c. c ≡ cancel_all) cs → is_withdrawn true cs ≡ true
unfolding is_withdrawn
is_withdrawn_cancels [] h = refl
is_withdrawn_cancels (c ∷ cs) h = rw h.0 (is_withdrawn_cancels cs h.1)

-- Commands that end in one to cancel or more.
pub is_withdrawn-cancels :
    (was : Bool) (old : List StrategyCommand) (c : StrategyCommand) (cs : List StrategyCommand)
    → All (λ c. c ≡ cancel_all) (c ∷ cs)
    → is_withdrawn was (old ++ c ∷ cs) ≡ true
unfolding is_withdrawn
is_withdrawn-cancels was old c cs h =
    is_withdrawn-append was old (c ∷ cs) ∙ rw h.0 (is_withdrawn_cancels cs h.1)

not_own : (os : List Order) → sum_by own os ≡ 0 → All (λ o. o.is_ours ≡ false) os
not_own [] h = tt
not_own (o ∷ os) h = elim (Bool-cases o.is_ours) [
  | inl e ↦ let one : own o ≡ 1 = rw e refl in absurd (omega (arith, h, one))
  | inr e ↦ (e, not_own os (omega (arith, h)))
]

module _ (now : ℕ → ℕ) (lost : ℕ → Bool) (background_qty noise_qty : Qty) (levels : ℕ)
    (start : Price) (rs : List Round) (small : background_qty < 2 ^ 64)
    (fits : All (λ r. All Fitting r.commands) rs)
    (in_time : (run_sim now lost background_qty noise_qty levels start rs).exchange.reads
      < 2 ^ 64) where
  -- Where the quantities of background orders and commands are below 2 ^ 64 and the clock is
  -- read fewer than 2 ^ 64 times, at most one order of the strategy rests on either side of the
  -- book after any number of rounds, whatever the draws, the losses and the commands are.
  pub run_sim-once :
      let x = (run_sim now lost background_qty noise_qty levels start rs).exchange in
      (sum_by own (flat x.book.bids) ≤ 1) × (sum_by own (flat x.book.asks) ≤ 1)
  run_sim-once =
      let k = (run_sim-Quoted now lost background_qty noise_qty small levels start rs fits).ours in
      let t = (k in_time).tracked in (Tracked-once _ (t bid), Tracked-once _ (t ask))

  -- Where the quantities of background orders and commands are below 2 ^ 64 and the clock is
  -- read fewer than 2 ^ 64 times, no order of the strategy rests in the book after rounds in
  -- which no quote has come in since the last command to cancel.
  pub run_sim-withdraws :
      is_withdrawn true (commands_of rs) ≡ true
      → let x = (run_sim now lost background_qty noise_qty levels start rs).exchange in
        All (λ o. o.is_ours ≡ false) (flat x.book.bids)
        × All (λ o. o.is_ours ≡ false) (flat x.book.asks)
  run_sim-withdraws w =
      let x = (run_sim now lost background_qty noise_qty levels start rs).exchange in
      let q = run_sim-Quoted now lost background_qty noise_qty small levels start rs fits in
      let t = (subst (λ r. Ours r x) (q.gone w) q.ours in_time).tracked in
      (not_own _ (t bid).strays, not_own _ (t ask).strays)
