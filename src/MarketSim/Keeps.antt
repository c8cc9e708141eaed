-- ===== src/MarketSim/Keeps.antt =====
-- Conditions on the exchange of engine/src/market_sim.rs: the three ways to change its book, and
-- the rounds of the loop that are made of them.
use high_frequency_market_ma.Prelude.{
  ℕ, suc, Bool, true, false, Option, none, some, if◌then◌else◌, List, [], ◌∷◌, All, replicate,
}
use high_frequency_market_ma.Types.{
  Price, Qty, OrderId, Side, bid, ask, StrategyCommand, quote, cancel_all,
}
use high_frequency_market_ma.MarketSim.{
  Exchange, Sim, Round, cancel_and_emit, submit_and_emit, cancel_existing, place_background,
  refresh, cancel_quotes, handle_command, handle_commands, noise_order, publish_resync, empty_sim,
  step, steps, run_sim, noise_round,
}

-- The quantities of a command.
abbrev pub CommandFits : (Bool → Qty → Type 0) → StrategyCommand → Type 0
CommandFits Fits (quote bid_price bid_qty ask_price ask_qty) = Fits true bid_qty × Fits true ask_qty
CommandFits Fits cancel_all = Unit

-- Where any quantity fits, so does every command.
any_command : (cs : List StrategyCommand) → All (CommandFits (λ _ _. Unit)) cs
any_command [] = tt
any_command (quote bp bq ap aq ∷ cs) = ((tt, tt), any_command cs)
any_command (cancel_all ∷ cs) = (tt, any_command cs)

pub any_round : (rs : List Round) → All (λ r. All (CommandFits (λ _ _. Unit)) r.commands) rs
any_round [] = tt
any_round (r ∷ rs) = (any_command r.commands, any_round rs)

module _ (now : ℕ → ℕ) (lost : ℕ → Bool) where
  -- A condition that a cancellation, a limit order of a fitting quantity and a market order keep.
  pub record Keeps (Fits : Bool → Qty → Type 0) (I : Exchange → Type 0) : Type 0 where
    pub cancels :
        (x : Exchange) (side : Side) (price : Price) (id : OrderId)
        → I x
        → I (cancel_and_emit now lost x side price id)
    pub submits :
        (x : Exchange) (side : Side) (price : Price) (qty : Qty) (ours : Bool)
        → Fits ours qty
        → I x
        → I (submit_and_emit now lost x side price qty ours).0
    pub trades :
        (x : Exchange) (side : Side) (qty : Qty) → I x → I (noise_order now lost x side qty)

  module _ {Fits : Bool → Qty → Type 0} {I : Exchange → Type 0} (k : Keeps Fits I) where
    cancel_existing-Keeps :
        (x : Exchange) (side : Side) (o : Option (OrderId × Price))
        → I x
        → I (cancel_existing now lost x side o)
    unfolding cancel_existing
    cancel_existing-Keeps x side none h = h
    cancel_existing-Keeps x side (some (id, price)) h = k.cancels x side price id h

    cancel_quotes-Keeps : (s : Sim) → I s.exchange → I (cancel_quotes now lost s).exchange
    unfolding cancel_quotes
    cancel_quotes-Keeps s h =
        cancel_existing-Keeps _ ask _ (cancel_existing-Keeps s.exchange bid _ h)

    handle_command-Keeps :
        (s : Sim) (c : StrategyCommand)
        → CommandFits Fits c
        → I s.exchange
        → I (handle_command now lost s c).exchange
    unfolding handle_command
    handle_command-Keeps s cancel_all f h = cancel_quotes-Keeps s h
    handle_command-Keeps s (quote bp bq ap aq) f h =
        k.submits _ ask _ aq true f.1 (k.submits _ bid bp bq true f.0 (cancel_quotes-Keeps s h))

    pub handle_commands-Keeps :
        (s : Sim) (cs : List StrategyCommand)
        → All (CommandFits Fits) cs
        → I s.exchange
        → I (handle_commands now lost s cs).exchange
    unfolding handle_commands
    handle_commands-Keeps s [] f h = h
    handle_commands-Keeps s (c ∷ cs) f h =
        handle_commands-Keeps (handle_command now lost s c) cs f.1 (handle_command-Keeps s c f.0 h)

    module _ (background_qty noise_qty : Qty) (fits : Fits false background_qty) where
      place_background-Keeps :
          (s : Sim) (side : Side) (lvl : ℕ) (mid : Price)
          → I s.exchange
          → I (place_background now lost background_qty s side lvl mid).exchange
      unfolding place_background
      place_background-Keeps s bid lvl mid h =
          k.submits _ bid _ background_qty false fits (cancel_existing-Keeps s.exchange bid _ h)
      place_background-Keeps s ask lvl mid h =
          k.submits _ ask _ background_qty false fits (cancel_existing-Keeps s.exchange ask _ h)

      chosen :
          (c : Bool) (s : Sim) (side : Side) (lvl : ℕ) (mid : Price)
          → I s.exchange
          → I (if c then place_background now lost background_qty s side lvl mid else s).exchange
      chosen true s side lvl mid h = place_background-Keeps s side lvl mid h
      chosen false s side lvl mid h = h

      pub refresh-Keeps :
          (s : Sim) (lvl : ℕ) (mid : Price) (draws : List (Bool × Bool))
          → I s.exchange
          → I (refresh now lost background_qty s lvl mid draws).exchange
      unfolding refresh
      refresh-Keeps s lvl mid [] h = h
      refresh-Keeps s lvl mid ((bids, asks) ∷ ds) h =
          let place = place_background now lost background_qty in
          let s₁ = if bids then place s bid lvl mid else s in
          let s₂ = if asks then place s₁ ask lvl mid else s₁ in
          refresh-Keeps s₂ (suc lvl) mid ds
            (chosen asks s₁ ask lvl mid (chosen bids s bid lvl mid h))

      pub noise_round-Keeps :
          (s : Sim) (side : Option Side)
          → I s.exchange
          → I (noise_round now lost background_qty noise_qty s side).exchange
      noise_round-Keeps s none h = h
      noise_round-Keeps s (some side) h = k.trades s.exchange side noise_qty h

      published :
          (c : Bool) (s : Sim) → I s.exchange → I (if c then publish_resync s else s).exchange
      unfolding publish_resync
      published true s h = h
      published false s h = h

      pub step-Keeps :
          (s : Sim) (r : Round)
          → All (CommandFits Fits) r.commands
          → I s.exchange
          → I (step now lost background_qty noise_qty s r).exchange
      unfolding step publish_resync
      step-Keeps s r f h =
          let s₁ = refresh now lost background_qty s 0 r.mid_ticks r.refreshed in
          let s₂ = handle_commands now lost s₁ r.commands in
          published r.publishes (noise_round now lost background_qty noise_qty s₂ r.noise) (
            noise_round-Keeps s₂ r.noise
              (handle_commands-Keeps s₁ r.commands f (refresh-Keeps s 0 r.mid_ticks r.refreshed h)))

      pub steps-Keeps :
          (s : Sim) (rs : List Round)
          → All (λ r. All (CommandFits Fits) r.commands) rs
          → I s.exchange
          → I (steps now lost background_qty noise_qty s rs).exchange
      unfolding steps
      steps-Keeps s [] f h = h
      steps-Keeps s (r ∷ rs) f h =
          steps-Keeps (step now lost background_qty noise_qty s r) rs f.1 (step-Keeps s r f.0 h)

      pub run_sim-Keeps :
          (levels : ℕ) (start : Price) (rs : List Round)
          → All (λ r. All (CommandFits Fits) r.commands) rs
          → I (empty_sim levels).exchange
          → I (run_sim now lost background_qty noise_qty levels start rs).exchange
      unfolding run_sim publish_resync
      run_sim-Keeps levels start rs f h =
          steps-Keeps _ rs f (refresh-Keeps _ 0 start (replicate levels (true, true)) h)
