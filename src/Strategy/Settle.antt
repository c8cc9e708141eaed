-- ===== src/Strategy/Settle.antt =====
-- What `run_strategy` of engine/src/main.rs books of its own trades, and which quotes it takes to be
-- its own, against the events that it drains.
use high_frequency_market_ma.Prelude.{
  ℕ, Option, some, none, ◌↔◌, not, ◌||◌, sym, if◌then◌else◌, Bool-cases, inl, inr, ◌+◌, ◌^◌, ◌%◌,
  ◌≡◌, max, refl, ap, ◌∙◌, Bool, true, false, List, [], ◌∷◌, length, arith,
}
use high_frequency_market_ma.Prelude.Int.{pos, eqb_ℤ, eqb_ℤ_self, eqb_ℤ→eq}
use high_frequency_market_ma.Float.{Float}
use high_frequency_market_ma.Types.{
  Price, Qty, Side, bid, ask, MarketEvent, add, cancel, trade, SeqEvent, quote,
}
use high_frequency_market_ma.Strategy.{
  Shadow, apply_to_book, our_part, our_trade, apply_event, drain, ticks_to_price, price_to_ticks,
  Strategy, Pass, pass, decide, pull_if, shadow_of, our_lot_size,
}
use high_frequency_market_ma.Risk.{KillReason}
use high_frequency_market_ma.Strategy.Publish.{kill_of, quote_of}

-- The trades of our orders, in their order.
abbrev pub our_trades_of : List SeqEvent → List (Side × Price × Qty)
our_trades_of [] = []
our_trades_of (e ∷ es) = with_trade e.event (our_trades_of es)
  where
    with_trade : MarketEvent → List (Side × Price × Qty) → List (Side × Price × Qty)
    with_trade (trade id true side price qty ts) later = (side, price, qty) ∷ later
    with_trade e later = later

-- The price at which an order of ours has last come to rest on a side.
abbrev pub last_price : Side → Price → List SeqEvent → Price
last_price side old [] = old
last_price side old (e ∷ es) = last_price side (after side old e.event) es
  where
    after : Side → Price → MarketEvent → Price
    after bid old (add id bid price qty ts true) = price
    after ask old (add id ask price qty ts true) = price
    after side old e = old

-- Whether one of our orders has come to rest.
abbrev pub any_rested : Bool → List SeqEvent → Bool
any_rested was [] = was
any_rested was (e ∷ es) = any_rested (after was e.event) es
  where
    after : Bool → MarketEvent → Bool
    after was (add id side price qty ts true) = true
    after was e = was

settled_prices :
    (quoted : Bool) (b bt a at : Price)
    → (if not quoted || not (eqb_ℤ b bt) || not (eqb_ℤ a at)
        then some (quote bt our_lot_size at our_lot_size)
        else none)
      ≡ none
    → (quoted ≡ true) × (b ≡ bt) × (a ≡ at)
settled_prices false b bt a at e = cc e
settled_prices true b bt a at e = elim (Bool-cases (eqb_ℤ b bt)) [
  | inl same ↦ elim (Bool-cases (eqb_ℤ a at)) [
    | inl same' ↦ (refl, eqb_ℤ→eq b bt same, eqb_ℤ→eq a at same')
    | inr other ↦ cc (rw (same, other) at e)
  ]
  | inr other ↦ cc (rw other at e)
]

module _ {ℓ} {F : Type ℓ} ⦃f : Float F⦄ where
  abbrev pub value : Price → Qty → F
  value price qty = f.mul (f.of_int (pos qty)) (ticks_to_price price)

  -- The cash after some trades: what is bought is paid for, what is sold is paid.
  abbrev pub settled : F → List (Side × Price × Qty) → F
  settled cash [] = cash
  settled cash ((bid, price, qty) ∷ ts) = settled (f.sub cash (value price qty)) ts
  settled cash ((ask, price, qty) ∷ ts) = settled (f.add cash (value price qty)) ts

  -- What the strategy keeps of its own orders and trades: its cash, the count of its trades, the
  -- prices of its quotes and whether it has any.
  abbrev pub Settled : List SeqEvent → Shadow F → Shadow F → Type ℓ
  Settled es was is =
      (is.cash ≡ settled was.cash (our_trades_of es))
      × (is.trades_count % 2 ^ 64 ≡ (was.trades_count + length (our_trades_of es)) % 2 ^ 64)
      × (is.our_bid_price ≡ last_price bid was.our_bid_price es)
      × (is.our_ask_price ≡ last_price ask was.our_ask_price es)
      × (is.have_quotes ≡ any_rested was.have_quotes es)

  Settled-cons :
      (n : ℕ) (e : MarketEvent) (es : List SeqEvent) (s is : Shadow F)
      → Settled es (our_part s e) is
      → Settled (record { seq = n; event = e } ∷ es) s is
  unfolding our_trade
  Settled-cons n (add id bid price qty ts true) es s is r = r
  Settled-cons n (add id ask price qty ts true) es s is r = r
  Settled-cons n (add id bid price qty ts false) es s is r = r
  Settled-cons n (add id ask price qty ts false) es s is r = r
  Settled-cons n (cancel id bid price ts) es s is r = r
  Settled-cons n (cancel id ask price ts) es s is r = r
  Settled-cons n (trade id true bid price qty ts) es s is r =
      (r.0, omega (arith, r.1), r.2, r.3, r.4)
  Settled-cons n (trade id true ask price qty ts) es s is r =
      (r.0, omega (arith, r.1), r.2, r.3, r.4)
  Settled-cons n (trade id false bid price qty ts) es s is r = r
  Settled-cons n (trade id false ask price qty ts) es s is r = r

  -- Draining some events books our trades among them, in their order and whatever comes
  -- between: each is paid for or paid at its price and counted modulo 2 ^ 64; and takes over
  -- the price at which an order of ours has last come to rest on either side, if one has.
  pub drain-Settled : (es : List SeqEvent) (s : Shadow F) → Settled es s (drain s es)
  unfolding drain apply_event
  drain-Settled [] s = (refl, omega arith, refl, refl, refl)
  drain-Settled (e ∷ es) s =
      let seen = record s {
        highest_seq_applied = max s.highest_seq_applied e.seq;
        shadow_book = apply_to_book s.shadow_book e.event;
      } in
      Settled-cons e.seq e.event es seen (drain s (e ∷ es)) (drain-Settled es (apply_event s e))

  decide-none :
      (s : Shadow F) (kill : Option KillReason) (bid_ticks ask_ticks : Price)
      → kill ≡ none
      → ((decide s kill bid_ticks ask_ticks).1 ≡ none)
        ↔ ((s.have_quotes ≡ true) × (s.our_bid_price ≡ bid_ticks) × (s.our_ask_price ≡ ask_ticks))
  unfolding decide
  decide-none s (some r) bt at alive = cc
  decide-none s none bt at alive = (
    λ e. settled_prices s.have_quotes s.our_bid_price bt s.our_ask_price at e,
    λ (h, b, a). rw (h, b, a, eqb_ℤ_self bt, eqb_ℤ_self at),
  )

  -- A pass of the strategy's loop that is not killed and pulls no snapshot hands over no
  -- command just where it had quotes or one of our orders has come to rest among the events
  -- that it pops, and the last price at which one has come to rest, on either side, up to then,
  -- is the price in ticks of the pass's own quote.
  pub pass-requotes :
      (st : Strategy F) (p : Pass F)
      → p.pulled ≡ none
      → kill_of st p ≡ none
      → let s = st.shadow in
        let q = quote_of st p in
        ((pass st p).1 ≡ none) ↔ (
          (any_rested s.have_quotes p.popped ≡ true)
          × (last_price bid s.our_bid_price p.popped ≡ price_to_ticks q.bid)
          × (last_price ask s.our_ask_price p.popped ≡ price_to_ticks q.ask))
  unfolding pass
  pass-requotes st p no_pull alive =
      let drained : shadow_of st p ≡ drain st.shadow p.popped =
        ap (pull_if (drain st.shadow p.popped)) no_pull in
      let (_, _, b, a, h) = drain-Settled p.popped st.shadow in
      let b' = ap (λ s. s.our_bid_price) drained ∙ b in
      let a' = ap (λ s. s.our_ask_price) drained ∙ a in
      let h' = ap (λ s. s.have_quotes) drained ∙ h in
      let (silent, sends) = decide-none (shadow_of st p) _ _ _ alive in
      (
        λ e. let (x, y, z) = silent e in (sym h' ∙ x, sym b' ∙ y, sym a' ∙ z),
        λ (x, y, z). sends (h' ∙ x, b' ∙ y, a' ∙ z),
      )
