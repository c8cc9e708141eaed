-- ===== src/Strategy.antt =====
-- `run_strategy` of engine/src/main.rs: the shadow book that the strategy builds from the feed,
-- what it keeps about its own trades, and a pass of its loop.
pub mod Follow
pub mod Drain
pub mod Codec
pub mod Inventory
pub mod Settle
pub mod Heal
pub mod Recover
pub mod Stale
pub mod Decide
pub mod Publish
pub mod Quotes
pub mod Stop
pub mod Withdraw
mod FeedTests
mod SettleTests
mod StopTests
mod Tests
use high_frequency_market_ma.Prelude.{
  ℕ, zero, suc, max, Bool, true, false, ◌&&◌, ◌||◌, not, Option, none, some, ltb, is_empty,
  unwrap_or, List, [], ◌∷◌, if◌then◌else◌,
}
use mathlib.Core.Option
use high_frequency_market_ma.Prelude.Int.{ℤ, pos, ◌+ℤ◌, ◌-ℤ◌, eqb_ℤ}
use high_frequency_market_ma.Prelude.Word.{add_u64, wrap_i64}
use high_frequency_market_ma.Float.{Float}
use high_frequency_market_ma.Types.{
  Price, Qty, Side, bid, ask, MarketEvent, add, cancel, trade, SeqEvent, ResyncEntry, BookResync,
  StrategyCommand, quote, cancel_all,
}
use high_frequency_market_ma.RingBuffer.{RingInner, try_pop}
use high_frequency_market_ma.OrderBook.{OrderBook, mid_ticks, insert_resting_order, cancel_order}
use high_frequency_market_ma.OrderBook.Mirror.{apply_trade, rebuild_from_resync}
use high_frequency_market_ma.Risk.{KillReason, KillSwitch, RiskMetrics, compute_risk, evaluate}
use high_frequency_market_ma.Quoting.{VolEstimator, update_vol, AvellanedaStoikov, quote_prices}

-- What an event does to the shadow book.
unfoldable pub apply_to_book : OrderBook → MarketEvent → OrderBook
apply_to_book b (add order_id side price qty ts_nanos is_ours) =
    insert_resting_order b order_id side price qty ts_nanos is_ours
apply_to_book b (cancel order_id side price ts_nanos) = (cancel_order b side price order_id).0
apply_to_book b (trade order_id ours side price qty ts_nanos) =
    apply_trade b side price order_id qty

unfoldable pub apply_each : OrderBook → List MarketEvent → OrderBook
apply_each b [] = b
apply_each b (e ∷ es) = apply_each (apply_to_book b e) es

-- The locals of `run_strategy` that the events change.
pub record Shadow {ℓ} (F : Type ℓ) : Type ℓ where
  pub shadow_book : OrderBook
  pub inventory : ℤ
  pub cash : F
  pub trades_count : ℕ
  pub our_bid_price : Price
  pub our_ask_price : Price
  pub have_quotes : Bool
  pub highest_seq_applied : ℕ
  pub last_known_lost_events : ℕ

-- `iter().find(|(_, _, _, is_ours)| is_ours)`, and the price that it has
unfoldable pub find_ours : List ResyncEntry → Price → Price
find_ours [] old = old
find_ours ((id, price, qty, is_ours) ∷ es) old =
    let later = find_ours es old in if is_ours then price else later

abbrev pub our_lot_size : Qty
our_lot_size = 5

module _ {ℓ} {F : Type ℓ} ⦃f : Float F⦄ where
  abbrev pub tick_size : F
  tick_size = f.literal 1 2

  abbrev pub ticks_to_price : Price → F
  ticks_to_price t = f.mul (f.of_int t) tick_size

  abbrev pub price_to_ticks : F → Price
  price_to_ticks p = f.round_i64 (f.div p tick_size)

  -- A trade with one of our orders.
  unfoldable pub our_trade : Shadow F → Side → Price → Qty → Shadow F
  our_trade s bid price qty = record s {
    trades_count = add_u64 s.trades_count 1;
    inventory = wrap_i64 (s.inventory +ℤ wrap_i64 (pos qty));
    cash = f.sub s.cash (f.mul (f.of_int (pos qty)) (ticks_to_price price));
  }
  our_trade s ask price qty = record s {
    trades_count = add_u64 s.trades_count 1;
    inventory = wrap_i64 (s.inventory -ℤ wrap_i64 (pos qty));
    cash = f.add s.cash (f.mul (f.of_int (pos qty)) (ticks_to_price price));
  }

  -- Where one of our orders has come to rest.
  abbrev pub our_quote : Shadow F → Side → Price → Shadow F
  our_quote s bid price = record s { our_bid_price = price; have_quotes = true }
  our_quote s ask price = record s { our_ask_price = price; have_quotes = true }

  abbrev pub our_part : Shadow F → MarketEvent → Shadow F
  our_part s (add order_id side price qty ts_nanos is_ours) =
      if is_ours then our_quote s side price else s
  our_part s (cancel order_id side price ts_nanos) = s
  our_part s (trade order_id ours side price qty ts_nanos) =
      if ours then our_trade s side price qty else s

  unfoldable pub apply_event : Shadow F → SeqEvent → Shadow F
  apply_event s e =
      our_part
        (record s {
          highest_seq_applied = max s.highest_seq_applied e.seq;
          shadow_book = apply_to_book s.shadow_book e.event;
        })
        e.event

  -- `while let Some(seq_event) = event_rx.try_pop()`, over what is popped.
  unfoldable pub drain : Shadow F → List SeqEvent → Shadow F
  drain s [] = s
  drain s (e ∷ es) = drain (apply_event s e) es

  -- The same loop on the ring, with fuel; it gives nothing where the fuel runs out, or a slot is taken
  -- that was not written.
  abbrev pub after_pop :
      RingInner SeqEvent × Option (Option SeqEvent)
      → Shadow F
      → (RingInner SeqEvent → Shadow F → Option (RingInner SeqEvent × Shadow F))
      → Option (RingInner SeqEvent × Shadow F)
  after_pop (ring, none) s next = some (ring, s)
  after_pop (ring, some none) s next = none
  after_pop (ring, some (some e)) s next = next ring (apply_event s e)

  unfoldable pub drain_ring :
      ℕ → RingInner SeqEvent → Shadow F → Option (RingInner SeqEvent × Shadow F)
  drain_ring zero ring s = none
  drain_ring (suc fuel) ring s = after_pop (try_pop ring) s (drain_ring fuel)

  unfoldable pub apply_resync : Shadow F → BookResync → ℕ → Shadow F
  apply_resync s snap now_nanos = record s {
    shadow_book = rebuild_from_resync s.shadow_book snap now_nanos;
    highest_seq_applied = snap.seq_at_snapshot;
    our_bid_price = find_ours snap.bids s.our_bid_price;
    our_ask_price = find_ours snap.asks s.our_ask_price;
  }

  abbrev pub is_applicable : Shadow F → BookResync → Bool
  is_applicable s snap =
      ltb s.highest_seq_applied snap.seq_at_snapshot
      && (not (is_empty snap.bids) || not (is_empty snap.asks))

  -- What is done each time that the interval for pulling a snapshot has elapsed.
  unfoldable pub pull_resync : Shadow F → ℕ → BookResync → ℕ → Shadow F
  pull_resync s current_lost snap now_nanos =
      if ltb s.last_known_lost_events current_lost
      then record (if is_applicable s snap then apply_resync s snap now_nanos else s) {
        last_known_lost_events = current_lost;
      }
      else s

  -- The command that is sent, given the prices of the quote in ticks.
  unfoldable pub decide :
      Shadow F → Option KillReason → Price → Price → Shadow F × Option StrategyCommand
  decide s (some r) bid_ticks ask_ticks = (record s { have_quotes = false }, some cancel_all)
  decide s none bid_ticks ask_ticks = (
    s,
    if not s.have_quotes
          || not (eqb_ℤ s.our_bid_price bid_ticks)
          || not (eqb_ℤ s.our_ask_price ask_ticks)
        then some (quote bid_ticks our_lot_size ask_ticks our_lot_size)
        else none,
  )

-- All the locals of `run_strategy`, and what one pass of its loop meets: the events that it pops, the
-- count of losses and the snapshot if it is time to look with the reading of the clock for the rebuild,
-- the reading for the volatility, and the rest of the horizon.
pub record Strategy {ℓ} (F : Type ℓ) : Type ℓ where
  pub shadow : Shadow F
  pub vol_est : VolEstimator F
  pub kill_switch : KillSwitch F
  pub last_mid : F

pub record Pass {ℓ} (F : Type ℓ) : Type ℓ where
  pub popped : List SeqEvent
  pub pulled : Option (ℕ × BookResync × ℕ)
  pub now_nanos : ℕ
  pub time_remaining : F
  pub manual_kill : Bool

module _ {ℓ} {F : Type ℓ} ⦃f : Float F⦄ where
  abbrev pub pull_if : Shadow F → Option (ℕ × BookResync × ℕ) → Shadow F
  pull_if s none = s
  pull_if s (some (lost, snap, now_nanos)) = pull_resync s lost snap now_nanos

  -- `GAMMA`, `KAPPA`
  abbrev pub model : AvellanedaStoikov F
  model = record { gamma = f.literal 1 1; kappa = f.literal 1000 1 }

  -- The figures that a pass evaluates its kill switch on.
  abbrev pub shadow_of : Strategy F → Pass F → Shadow F
  shadow_of st p = pull_if (drain st.shadow p.popped) p.pulled

  abbrev pub mid_of : Strategy F → Pass F → F
  mid_of st p =
      unwrap_or (Option.map (λ t. f.mul t tick_size) (mid_ticks (shadow_of st p).shadow_book))
        st.last_mid

  abbrev pub metrics_of : Strategy F → Pass F → RiskMetrics F
  metrics_of st p =
      let s = shadow_of st p in
      compute_risk s.inventory (mid_of st p) (update_vol st.vol_est (mid_of st p) p.now_nanos).1
        (f.literal 10 1) s.cash

  -- One pass of the loop, with the command that it hands to its command ring. `try_push(…).ok()`
  -- forgets whether the ring had room for it.
  unfoldable pub pass : Strategy F → Pass F → Strategy F × Option StrategyCommand
  pass st p =
      let s = shadow_of st p in
      let mid = mid_of st p in
      let (vol, sigma) = update_vol st.vol_est mid p.now_nanos in
      let (ks, kill) = evaluate st.kill_switch s.inventory (metrics_of st p) p.manual_kill in
      let q = quote_prices model mid s.inventory sigma p.time_remaining in
      let (s', command) = decide s kill (price_to_ticks q.bid) (price_to_ticks q.ask) in
      (record { shadow = s'; vol_est = vol; kill_switch = ks; last_mid = mid }, command)

  -- The commands that some passes hand over.
  unfoldable pub passes : Strategy F → List (Pass F) → List (Option StrategyCommand)
  passes st [] = []
  passes st (p ∷ ps) = let (st', c) = pass st p in c ∷ passes st' ps
