-- ===== src/MarketSim/Safe.antt =====
-- The ground-truth book of engine/src/market_sim.rs: the invariant that the loop's own check asks
-- for, and the guard between the two orders of a quote.
use high_frequency_market_ma.Prelude.{
  ℕ, Bool, true, ◌≡◌, List, All, All-map, Bool-cases, ltb, inl, inr, arith,
}
use high_frequency_market_ma.Prelude.Int.{pos, ◌<ℤ◌, ◌+ℤ◌, +ℤ_parts}
use high_frequency_market_ma.Prelude.Word.{add_u64, wrap_i64_of_IsI64, wrap_i64, i64_max, IsI64}
use high_frequency_market_ma.Types.{Price, Qty, OrderId, Side, ask}
use high_frequency_market_ma.OrderBook.{OrderBook, cancel_order, submit_limit_order}
use high_frequency_market_ma.OrderBook.Valid.{IsValid, IsUncrossed}
use high_frequency_market_ma.OrderBook.Cancel.{cancel_order-IsValid, cancel_order-IsUncrossed}
use high_frequency_market_ma.OrderBook.Submit.{
  submit_limit_order-IsValid, submit_limit_order-Accepted,
}
use high_frequency_market_ma.OrderBook.Crossing.{submit_limit_order-IsUncrossed}
use high_frequency_market_ma.OrderBook.Market.{
  execute_market_order-IsValid, execute_market_order-IsUncrossed,
}
use high_frequency_market_ma.MarketSim.{
  Exchange, Round, cancel_and_emit, submit_and_emit, noise_order, run_sim, safe_ask_price, sum_qty,
}
use high_frequency_market_ma.MarketSim.Keeps.{Keeps, any_round, run_sim-Keeps}

abbrev pub IsSafe : Exchange → Type 0
IsSafe x = IsValid x.book × IsUncrossed x.book

module _ (now : ℕ → ℕ) (lost : ℕ → Bool) where
  cancel_and_emit-IsSafe :
      (x : Exchange) (side : Side) (price : Price) (id : OrderId)
      → IsSafe x
      → IsSafe (cancel_and_emit now lost x side price id)
  unfolding cancel_and_emit
  cancel_and_emit-IsSafe x side price id (v, u) =
      let (b, _) = cancel_order x.book side price id in
      let safe : IsValid b × IsUncrossed b =
        (cancel_order-IsValid side price id v, cancel_order-IsUncrossed side price id v u) in
      elim (Bool-cases (cancel_order x.book side price id).1) [
        | inl e ↦ rw e safe
        | inr e ↦ rw e safe
      ]

  submit_and_emit-IsSafe :
      (x : Exchange) (side : Side) (price : Price) (qty : Qty) (ours : Bool)
      → IsSafe x
      → IsSafe (submit_and_emit now lost x side price qty ours).0
  unfolding submit_and_emit
  submit_and_emit-IsSafe x side price qty ours (v, u) =
      let id = add_u64 x.id_gen 1 in
      let ts = now x.reads in
      let (b, fills) = submit_limit_order x.book id side price qty ts ours in
      let safe : IsValid b × IsUncrossed b = (
        submit_limit_order-IsValid side price qty ts v id ours,
        submit_limit_order-IsUncrossed id side price qty ts ours v u,
      ) in
      elim (Bool-cases (ltb (sum_qty fills) qty)) [ inl e ↦ rw e safe | inr e ↦ rw e safe ]

  safe : Keeps now lost (λ _ _. Unit) IsSafe
  unfolding noise_order
  safe = record {
    cancels = cancel_and_emit-IsSafe;
    submits = λ x side price qty ours _ h. submit_and_emit-IsSafe x side price qty ours h;
    trades = λ x side qty h. (
      execute_market_order-IsValid side qty (now x.reads) h.0,
      execute_market_order-IsUncrossed side qty (now x.reads) h.0 h.1,
    );
  }

-- Whatever the clock, the losses, the price walk, the refreshed levels, the commands and the
-- noise orders are, the book of the exchange is well formed and every bid is below every ask
-- after any number of rounds.
pub run_sim-IsSafe :
    (now : ℕ → ℕ) (lost : ℕ → Bool) (background_qty noise_qty : Qty) (levels : ℕ) (start : Price)
    (rs : List Round)
    → IsSafe (run_sim now lost background_qty noise_qty levels start rs).exchange
run_sim-IsSafe now lost background_qty noise_qty levels start rs =
    run_sim-Keeps now lost (safe now lost) background_qty noise_qty tt levels start rs
      (any_round rs)
      (
        record {
          bids = record { sorted = tt; levels = tt };
          asks = record { sorted = tt; levels = tt };
        },
        tt,
      )

safe_ask_price_lem :
    (bid_price ask_price : Price)
    → IsI64 bid_price
    → bid_price <ℤ i64_max
    → bid_price <ℤ safe_ask_price bid_price ask_price
safe_ask_price_lem bid_price ask_price h lt =
    let sum = +ℤ_parts bid_price (pos 1) in
    let next : wrap_i64 (bid_price +ℤ pos 1) ≡ bid_price +ℤ pos 1 =
      wrap_i64_of_IsI64 (bid_price +ℤ pos 1) (omega (arith, sum)) in
    rw next (ground (arith, sum))

-- On a well-formed book, the ask that goes with a quote's bid takes only bids above that bid's
-- price, whatever ask price the quote has, where the bid's price is an i64 below the largest.
pub safe_ask_price-Accepted :
    {b : OrderBook} (id : OrderId) (bid_price ask_price : Price) (ask_qty : Qty) (ts : ℕ)
    → IsI64 bid_price
    → bid_price <ℤ i64_max
    → IsValid b
    → All
        (λ f. bid_price <ℤ f.price)
        (submit_limit_order b id ask (safe_ask_price bid_price ask_price) ask_qty ts true).1
safe_ask_price-Accepted {b} id bid_price ask_price ask_qty ts h lt v =
    let safe = safe_ask_price bid_price ask_price in
    let above = safe_ask_price_lem bid_price ask_price h lt in
    All-map _ _ (submit_limit_order b id ask safe ask_qty ts true).1
      (λ f a. ground (arith, a.0, above))
      (submit_limit_order-Accepted ask safe ask_qty ts v id true)
