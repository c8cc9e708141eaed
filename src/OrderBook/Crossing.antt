-- ===== src/OrderBook/Crossing.antt =====
-- `submit_limit_order` of engine/src/orderbook.rs and the crossing of the two sides.
use high_frequency_market_ma.Prelude.{
  ℕ, ◌≡◌, subst, Bool, false, some, [], ◌∷◌, All, All-map, All-zip, ltb, Bool-cases, ltb→lt, inl,
  inr, arith,
}
use mathlib.Core.Option.{some-injective}
use high_frequency_market_ma.Prelude.Int.{◌<ℤ◌, leb_ℤ}
use high_frequency_market_ma.TreeMap.{first_key, last_key}
use high_frequency_market_ma.TreeMap.Order.{Above, All-insert}
use high_frequency_market_ma.Types.{Price, Qty, OrderId, Side, bid, ask}
use high_frequency_market_ma.OrderBook.{
  OrderBook, Levels, best_bid, best_ask, submit_limit_order, push_order, insert_resting_order,
}
use high_frequency_market_ma.OrderBook.Ends.{Level}
use high_frequency_market_ma.OrderBook.Valid.{IsValid, IsUncrossed}
use high_frequency_market_ma.OrderBook.Submit.{
  submitted, submitted-Agrees, submitted-IsSwept, Agrees-prices,
}

All-last_key {κ} :
    (P : Price → Type κ) (m : Levels) {k : Price} → All (λ e. P e.0) m → last_key m ≡ some k → P k
unfolding last_key
All-last_key P [] h e = cc
All-last_key P ((j, q) ∷ []) h e = subst P (some-injective _ _ e) h.0
All-last_key P ((j, q) ∷ x ∷ m) h e = All-last_key P (x ∷ m) h.1 e

All-first_key {κ} :
    (P : Price → Type κ) (m : Levels) {k : Price} → All (λ e. P e.0) m → first_key m ≡ some k → P k
unfolding first_key
All-first_key P [] h e = cc
All-first_key P ((j, q) ∷ m) h e = subst P (some-injective _ _ e) h.0

-- The best bid of an uncrossed book is below its best ask.
pub IsUncrossed-best :
    (b : OrderBook) {bb ba : Price}
    → IsUncrossed b
    → best_bid b ≡ some bb
    → best_ask b ≡ some ba
    → bb <ℤ ba
unfolding best_bid best_ask
IsUncrossed-best b {bb} u eb ea =
    All-first_key (λ p. bb <ℤ p) b.asks (All-last_key (λ p. Above p b.asks) b.bids u eb) ea

-- On a well-formed book in which every bid is below every ask, a limit order leaves every bid
-- below every ask.
pub submit_limit_order-IsUncrossed :
    {b : OrderBook} (id : OrderId) (side : Side) (price : Price) (qty : Qty) (ts : ℕ) (ours : Bool)
    → IsValid b
    → IsUncrossed b
    → IsUncrossed (submit_limit_order b id side price qty ts ours).0
unfolding submit_limit_order insert_resting_order push_order
submit_limit_order-IsUncrossed {b} id bid price qty ts ours v u =
    let s = submitted b bid price qty ts in
    let kept : All (λ e. Above e.0 s.levels) b.bids =
      All-map _ _ b.bids
        (λ e a.
          Agrees-prices bid _ _ ts _ qty s (submitted-Agrees bid price qty ts v) (λ p. e.0 <ℤ p) a)
        u in
    elim (Bool-cases (ltb 0 s.remaining)) [
      | inl e ↦ rw e (
          All-insert (λ (e : Level). Above e.0 s.levels) price _ b.bids
            (All-map _ _ s.levels (λ e f. ground arith)
              ((submitted-IsSwept bid price qty ts v).refused
                (λ z. absurd (omega (arith, ltb→lt _ _ e)))))
            kept)
      | inr e ↦ rw e kept
    ]
submit_limit_order-IsUncrossed {b} id ask price qty ts ours v u =
    let s = submitted b ask price qty ts in
    let kept : All (λ e. Above e.0 b.asks) s.levels =
      Agrees-prices ask _ _ ts _ qty s (submitted-Agrees ask price qty ts v) (λ p. Above p b.asks)
        u in
    elim (Bool-cases (ltb 0 s.remaining)) [
      | inl e ↦ rw e (
          All-zip (λ (e : Level). leb_ℤ price e.0 ≡ false) (λ (e : Level). Above e.0 b.asks) _
            s.levels
            (λ e f a. All-insert (λ (x : Level). e.0 <ℤ x.0) price _ b.asks (ground arith) a)
            ((submitted-IsSwept ask price qty ts v).refused
              (λ z. absurd (omega (arith, ltb→lt _ _ e))))
            kept)
      | inr e ↦ rw e kept
    ]
