-- ===== src/Strategy/Withdraw.antt =====
-- From the kill command of a monitor, in engine/src/ipc.rs, over the strategy of engine/src/main.rs to
-- the book of the exchange of engine/src/market_sim.rs.
use high_frequency_market_ma.Prelude.{
  ℕ, ◌^◌, ◌<◌, ◌≡◌, ap, subst, ◌∙◌, Bool, true, false, Option, some, unwrap_or, List, [], ◌∷◌, ◌++◌,
  map, All, All-append_left,
}
use high_frequency_market_ma.Float.{Float}
use high_frequency_market_ma.Types.{Price, Qty, StrategyCommand, cancel_all}
use high_frequency_market_ma.OrderBook.Mirror.{flat}
use high_frequency_market_ma.MarketSim.{Round, run_sim}
use high_frequency_market_ma.MarketSim.Quoted.{Fitting, is_withdrawn, commands_of}
use high_frequency_market_ma.MarketSim.Withdraw.{is_withdrawn-cancels, run_sim-withdraws}
use high_frequency_market_ma.Ipc.{Text, Accept, Client, run_server}
use high_frequency_market_ma.Ipc.Kill.{Accepted, Kills}
use high_frequency_market_ma.Strategy.{Strategy, Pass, passes}
use high_frequency_market_ma.Strategy.Stop.{passes-run_server}

sent_cancels :
    (cs : List StrategyCommand)
    → All (λ c. c ≡ some cancel_all) (map some cs)
    → All (λ c. c ≡ cancel_all) cs
sent_cancels [] h = tt
sent_cancels (c ∷ cs) h = (ap (λ o. unwrap_or o cancel_all) h.0, sent_cancels cs h.1)

-- A run of the exchange, with quantities of background orders and commands below 2 ^ 64 and fewer
-- than 2 ^ 64 readings of the clock.
pub record IsRun (now : ℕ → ℕ) (lost : ℕ → Bool) (background_qty noise_qty : Qty) (levels : ℕ)
    (start : Price) (rs : List Round) : Type 0 where
  pub small : background_qty < 2 ^ 64
  pub fits : All (λ r. All Fitting r.commands) rs
  pub in_time : (run_sim now lost background_qty noise_qty levels start rs).exchange.reads < 2 ^ 64

-- What the exchange has popped of the strategy's commands: some from before, then at least one, and
-- those that follow it, of those that the passes have sent.
pub record Popped (rs : List Round) (sent : List (Option StrategyCommand)) : Type 0 where
  pub old : List StrategyCommand
  pub first : StrategyCommand
  pub rest : List StrategyCommand
  pub unread : List (Option StrategyCommand)
  pub popped : commands_of rs ≡ old ++ first ∷ rest
  pub in_order : sent ≡ map some (first ∷ rest) ++ unread

module _ {ℓ} {F : Type ℓ} ⦃f : Float F⦄ where
  -- Once a client that the monitor server accepted and whose socket it could clone has sent the
  -- kill command and a pass of the strategy has read the flag, and the exchange, in a run with
  -- quantities below 2 ^ 64 and fewer than 2 ^ 64 readings of the clock, has popped the command
  -- of that pass, no order of the strategy rests in the exchange's book, whatever the strategy
  -- sent before, and however many commands of later passes the exchange has popped.
  pub run_server-withdraws {κ} :
      {S : Type κ} (to_string : S → Option Text) (rounds : List (Bool × Accept S)) (c : Client S)
      (st : Strategy F) (p : Pass F) (ps : List (Pass F)) (now : ℕ → ℕ) (lost : ℕ → Bool)
      (background_qty noise_qty : Qty) (levels : ℕ) (start : Price) (rs : List Round)
      → Accepted rounds c
      → Kills c
      → p.manual_kill ≡ (run_server to_string true rounds false).0
      → IsRun now lost background_qty noise_qty levels start rs
      → Popped rs (passes st (p ∷ ps))
      → let x = (run_sim now lost background_qty noise_qty levels start rs).exchange in
        All (λ o. o.is_ours ≡ false) (flat x.book.bids)
        × All (λ o. o.is_ours ≡ false) (flat x.book.asks)
  run_server-withdraws to_string rounds c st p ps now lost bq nq levels start rs a k read run pop =
      let sent = All-append_left _ (map some (pop.first ∷ pop.rest)) pop.unread (
        subst (All (λ c. c ≡ some cancel_all)) pop.in_order
          (passes-run_server to_string rounds c st p ps a k read)) in
      run_sim-withdraws now lost bq nq levels start rs run.small run.fits run.in_time (
        ap (is_withdrawn true) pop.popped
        ∙ is_withdrawn-cancels true pop.old pop.first pop.rest
            (sent_cancels (pop.first ∷ pop.rest) sent))
