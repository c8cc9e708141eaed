-- ===== src/MarketSim/Quoted.antt =====
-- The records of the strategy's quotes over the rounds of engine/src/market_sim.rs.
use high_frequency_market_ma.Prelude.{
  ℕ, suc, ◌^◌, ◌<◌, ◌≡◌, refl, sym, ap, ap₂, subst, ◌∙◌, Bool, true, false, Option, none, some,
  List, [], ◌∷◌, ◌++◌, All, if◌then◌else◌, replicate, arith,
}
use high_frequency_market_ma.Types.{
  Price, Qty, OrderId, Side, bid, ask, StrategyCommand, quote, cancel_all,
}
use high_frequency_market_ma.OrderBook.{new}
use high_frequency_market_ma.MarketSim.{
  Sim, Round, submit_and_emit, place_background, refresh, cancel_quotes, handle_command,
  handle_commands, noise_round, publish_resync, resting_price, empty_sim, step, steps, run_sim,
  safe_ask_price,
}
use high_frequency_market_ma.MarketSim.Keeps.{CommandFits, refresh-Keeps, noise_round-Keeps}
use high_frequency_market_ma.MarketSim.Tracked.{Tracked}
use high_frequency_market_ma.MarketSim.Ours.{
  Records, Ours, on_record, cancel_existing-Ours, submit_own-Ours, ours_kept,
}

abbrev pub Fitting : StrategyCommand → Type 0
Fitting = CommandFits (λ _ qty. qty < 2 ^ 64)

abbrev sides : Option (OrderId × Price) → Option (OrderId × Price) → Records
sides b a bid = b
sides b a ask = a

abbrev pub quotes : Sim → Records
quotes s = sides (on_record s.our_bid_id s.our_bid_price) (on_record s.our_ask_id s.our_ask_price)

abbrev no_quotes : Records
no_quotes = sides none none

-- Whether no quote has come since the last command to cancel.
unfoldable pub is_withdrawn : Bool → List StrategyCommand → Bool
is_withdrawn was [] = was
is_withdrawn was (cancel_all ∷ cs) = is_withdrawn true cs
is_withdrawn was (quote bp bq ap aq ∷ cs) = is_withdrawn false cs

unfoldable pub commands_of : List Round → List StrategyCommand
commands_of [] = []
commands_of (r ∷ rs) = r.commands ++ commands_of rs

pub is_withdrawn-append :
    (was : Bool) (xs ys : List StrategyCommand)
    → is_withdrawn was (xs ++ ys) ≡ is_withdrawn (is_withdrawn was xs) ys
unfolding is_withdrawn
is_withdrawn-append was [] ys = refl
is_withdrawn-append was (cancel_all ∷ xs) ys = is_withdrawn-append true xs ys
is_withdrawn-append was (quote bp bq ap aq ∷ xs) ys = is_withdrawn-append false xs ys

on_record-resting_price :
    (id : Option OrderId) (new_price old_price : Price)
    → on_record id (resting_price id new_price old_price) ≡ on_record id new_price
on_record-resting_price none new_price old_price = refl
on_record-resting_price (some id) new_price old_price = refl

-- The exchange knows its orders of the strategy, and of none where the quotes are withdrawn.
pub record Quoted (withdrawn : Bool) (s : Sim) : Type 0 where
  pub ours : Ours (quotes s) s.exchange
  pub gone : withdrawn ≡ true → quotes s ≡ no_quotes

module _ (now : ℕ → ℕ) (lost : ℕ → Bool) where
  cancel_quotes-Ours :
      (s : Sim) → Ours (quotes s) s.exchange → Ours no_quotes (cancel_quotes now lost s).exchange
  unfolding cancel_quotes
  cancel_quotes-Ours s h =
      let after_bid = sides none (quotes s ask) in
      cancel_existing-Ours now lost after_bid no_quotes _ ask
        (cancel_existing-Ours now lost (quotes s) after_bid s.exchange bid h refl refl) refl refl

  handle_command-Quoted :
      (was : Bool) (s : Sim) (c : StrategyCommand)
      → Fitting c
      → Quoted was s
      → Quoted (is_withdrawn was (c ∷ [])) (handle_command now lost s c)
  unfolding handle_command is_withdrawn cancel_quotes
  handle_command-Quoted was s cancel_all f q = record {
    ours = cancel_quotes-Ours s q.ours;
    gone = λ _. refl;
  }
  handle_command-Quoted was s (quote bp bq ap aq) f q =
      let c = cancel_quotes now lost s in
      let one = submit_and_emit now lost c.exchange bid bp bq true in
      let safe = safe_ask_price bp ap in
      let two = submit_and_emit now lost one.0 ask safe aq true in
      let h₁ =
        submit_own-Ours now lost no_quotes (sides (on_record one.1 bp) none) c.exchange bid bp bq
          f.0 (cancel_quotes-Ours s q.ours) refl refl refl in
      let h₂ =
        submit_own-Ours now lost _ (sides (on_record one.1 bp) (on_record two.1 safe)) one.0 ask
          safe aq f.1 h₁ refl refl refl in
      record {
        ours =
            subst (λ r. Ours r two.0)
              (sym (
                ap₂ sides (on_record-resting_price one.1 bp _)
                  (on_record-resting_price two.1 safe _)))
              h₂;
        gone = λ e. cc e;
      }

  handle_commands-Quoted :
      (was : Bool) (s : Sim) (cs : List StrategyCommand)
      → All Fitting cs
      → Quoted was s
      → Quoted (is_withdrawn was cs) (handle_commands now lost s cs)
  unfolding handle_commands is_withdrawn
  handle_commands-Quoted was s [] f q = q
  handle_commands-Quoted was s (cancel_all ∷ cs) f q =
      handle_commands-Quoted true _ cs f.1 (handle_command-Quoted was s cancel_all f.0 q)
  handle_commands-Quoted was s (quote bp bq ap aq ∷ cs) f q =
      handle_commands-Quoted false _ cs f.1 (handle_command-Quoted was s (quote bp bq ap aq) f.0 q)

  module _ (background_qty noise_qty : Qty) (small : background_qty < 2 ^ 64) where
    placed-quotes :
        (c : Bool) (s : Sim) (side : Side) (lvl : ℕ) (mid : Price)
        → quotes (if c then place_background now lost background_qty s side lvl mid else s)
          ≡ quotes s
    unfolding place_background
    placed-quotes true s bid lvl mid = refl
    placed-quotes true s ask lvl mid = refl
    placed-quotes false s side lvl mid = refl

    refresh-quotes :
        (s : Sim) (lvl : ℕ) (mid : Price) (draws : List (Bool × Bool))
        → quotes (refresh now lost background_qty s lvl mid draws) ≡ quotes s
    unfolding refresh
    refresh-quotes s lvl mid [] = refl
    refresh-quotes s lvl mid ((bids, asks) ∷ ds) =
        let place = place_background now lost background_qty in
        let s₁ = if bids then place s bid lvl mid else s in
        let s₂ = if asks then place s₁ ask lvl mid else s₁ in
        refresh-quotes s₂ (suc lvl) mid ds
        ∙ placed-quotes asks s₁ ask lvl mid
        ∙ placed-quotes bids s bid lvl mid

    refresh-Quoted :
        (was : Bool) (s : Sim) (lvl : ℕ) (mid : Price) (draws : List (Bool × Bool))
        → Quoted was s
        → Quoted was (refresh now lost background_qty s lvl mid draws)
    refresh-Quoted was s lvl mid draws q =
        let same = refresh-quotes s lvl mid draws in
        record {
          ours =
              subst (λ r. Ours r (refresh now lost background_qty s lvl mid draws).exchange)
                (sym same)
                (refresh-Keeps now lost (ours_kept now lost (quotes s)) background_qty noise_qty
                  (refl, small) s lvl mid draws q.ours);
          gone = λ w. same ∙ q.gone w;
        }

    noise_round-Quoted :
        (was : Bool) (s : Sim) (side : Option Side)
        → Quoted was s
        → Quoted was (noise_round now lost background_qty noise_qty s side)
    noise_round-Quoted was s none q = q
    noise_round-Quoted was s (some side) q = record {
      ours =
          noise_round-Keeps now lost (ours_kept now lost (quotes s)) background_qty noise_qty
            (refl, small) s (some side) q.ours;
      gone = q.gone;
    }

    published-Quoted :
        (was c : Bool) (s : Sim) → Quoted was s → Quoted was (if c then publish_resync s else s)
    unfolding publish_resync
    published-Quoted was true s q = record { ours = q.ours; gone = q.gone }
    published-Quoted was false s q = q

    step-Quoted :
        (was : Bool) (s : Sim) (r : Round)
        → All Fitting r.commands
        → Quoted was s
        → Quoted (is_withdrawn was r.commands) (step now lost background_qty noise_qty s r)
    unfolding step
    step-Quoted was s r f q = published-Quoted _ r.publishes _ (
        noise_round-Quoted _ _ r.noise (
          handle_commands-Quoted was _ r.commands f
            (refresh-Quoted was s 0 r.mid_ticks r.refreshed q)))

    steps-Quoted :
        (was : Bool) (s : Sim) (rs : List Round)
        → All (λ r. All Fitting r.commands) rs
        → Quoted was s
        → Quoted (is_withdrawn was (commands_of rs)) (steps now lost background_qty noise_qty s rs)
    unfolding steps commands_of is_withdrawn
    steps-Quoted was s [] f q = q
    steps-Quoted was s (r ∷ rs) f q =
        rw (is_withdrawn-append was r.commands (commands_of rs))
          (steps-Quoted (is_withdrawn was r.commands) _ rs f.1 (step-Quoted was s r f.0 q))

    pub run_sim-Quoted :
        (levels : ℕ) (start : Price) (rs : List Round)
        → All (λ r. All Fitting r.commands) rs
        → Quoted
            (is_withdrawn true (commands_of rs))
            (run_sim now lost background_qty noise_qty levels start rs)
    unfolding run_sim
    run_sim-Quoted levels start rs f = steps-Quoted true _ rs f (
        published-Quoted true true _ (
          refresh-Quoted true (empty_sim levels) 0 start (replicate levels (true, true)) (record {
            ours = λ _. record {
              valid = record {
                bids = record { sorted = tt; levels = tt };
                asks = record { sorted = tt; levels = tt };
              };
              counted = omega arith;
              tracked = nothing;
            };
            gone = λ _. refl;
          })))
      where
        nothing : (side : Side) → Tracked (quotes (empty_sim levels) side) 0 side new
        nothing bid = record { strays = refl; once = omega arith; known = refl; issued = tt }
        nothing ask = record { strays = refl; once = omega arith; known = refl; issued = tt }
