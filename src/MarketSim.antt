-- ===== src/MarketSim.antt =====
-- engine/src/market_sim.rs: the exchange thread. What it asks the outside for is a parameter: `now n`
-- is what the n-th call of `now_nanos` returns, `lost s` says whether the packet of the sequence
-- number `s` is held back or fails to go out, and a `Round` has the outcomes of the other random draws,
-- the price walk in ticks, and the commands that have come in.
pub mod Keeps
pub mod Safe
pub mod Log
pub mod Loss
pub mod Numbers
pub mod Gaps
pub mod Tracked
pub mod Ours
pub mod Quoted
pub mod Withdraw
mod GapTests
mod Tests
pub mod QuoteTests
use high_frequency_market_ma.Prelude.{
  ℕ, zero, suc, ◌-◌, Bool, true, false, Option, none, some, List, [], ◌∷◌, ◌++◌, map, replicate,
  set, ltb, if◌then◌else◌,
}
use mathlib.Core.Option
use high_frequency_market_ma.Prelude.Int.{ℤ, pos, ◌+ℤ◌, ◌-ℤ◌, max_ℤ}
use high_frequency_market_ma.Prelude.Word.{add_u64, sub_u64, wrap_i64}
use high_frequency_market_ma.Types.{
  Price, Qty, OrderId, Side, bid, ask, Fill, MarketEvent, add, cancel, trade, FeedPacket,
  StrategyCommand, quote, cancel_all, BookResync,
}
use high_frequency_market_ma.OrderBook.{
  OrderBook, new, submit_limit_order, cancel_order, execute_market_order,
}
use high_frequency_market_ma.OrderBook.Mirror.{export_resync}

-- The sequence number of the next event, and what has gone out.
pub record FeedSender : Type 0 where
  pub seq : ℕ
  pub sent : List FeedPacket

-- The book with what every handler passes along: the feed, the last identifier and how often the
-- clock was read.
pub record Exchange : Type 0 where
  pub book : OrderBook
  pub feed : FeedSender
  pub id_gen : OrderId
  pub reads : ℕ

abbrev pub Slots : Type 0
Slots = List (Option (OrderId × Price))

pub record Sim : Type 0 where
  pub exchange : Exchange
  pub bid_slots : Slots
  pub ask_slots : Slots
  pub our_bid_id : Option OrderId
  pub our_ask_id : Option OrderId
  pub our_bid_price : Price
  pub our_ask_price : Price
  pub resync : BookResync

abbrev pub fill_to_trade_event : Fill → MarketEvent
fill_to_trade_event f =
    trade f.resting_order_id f.resting_is_ours f.side_of_resting_order f.price f.qty f.ts_nanos

-- `fills.iter().map(|f| f.qty).sum()`
unfoldable pub sum_qty : List Fill → Qty
sum_qty [] = 0
sum_qty (f ∷ fs) = add_u64 f.qty (sum_qty fs)

-- What is read at a level; there is one slot for each.
abbrev pub slot : Slots → ℕ → Option (OrderId × Price)
slot [] i = none
slot (s ∷ ss) zero = s
slot (s ∷ ss) (suc i) = slot ss i

abbrev pub background_price : Side → Price → ℕ → Price
background_price bid mid_ticks lvl = wrap_i64 (mid_ticks -ℤ pos (suc lvl))
background_price ask mid_ticks lvl = wrap_i64 (mid_ticks +ℤ pos (suc lvl))

abbrev pub safe_ask_price : Price → Price → Price
safe_ask_price bid_price ask_price = max_ℤ ask_price (wrap_i64 (bid_price +ℤ pos 1))

-- The price of a quote is set where some of it has come to rest.
abbrev pub resting_price : Option OrderId → Price → Price → Price
resting_price none new_price old_price = old_price
resting_price (some id) new_price old_price = new_price

module _ (now : ℕ → ℕ) (lost : ℕ → Bool) where
  -- `FeedSender::emit`, and `emit` for each of some events
  unfoldable pub emit : FeedSender → MarketEvent → FeedSender
  emit feed event = record {
    seq = add_u64 feed.seq 1;
    sent =
        if lost feed.seq
        then feed.sent
        else feed.sent ++ (record { seq = feed.seq; event = event }) ∷ [];
  }

  unfoldable pub emit_each : FeedSender → List MarketEvent → FeedSender
  emit_each feed [] = feed
  emit_each feed (e ∷ es) = emit_each (emit feed e) es

  -- `if book.cancel_order(…) { feed.emit(MarketEvent::Cancel { … }) }`
  unfoldable pub cancel_and_emit : Exchange → Side → Price → OrderId → Exchange
  cancel_and_emit x side price id =
      let (book, found) = cancel_order x.book side price id in
      if found
      then record x {
        book = book;
        feed = emit x.feed (cancel id side price (now x.reads));
        reads = suc x.reads;
      }
      else record x { book = book }

  -- A new limit order with its events, and its identifier if some of it has come to rest.
  unfoldable pub submit_and_emit : Exchange → Side → Price → Qty → Bool → Exchange × Option OrderId
  submit_and_emit x side price qty is_ours =
      let id = add_u64 x.id_gen 1 in
      let (book, fills) = submit_limit_order x.book id side price qty (now x.reads) is_ours in
      let filled = sum_qty fills in
      let feed = emit_each x.feed (map fill_to_trade_event fills) in
      if ltb filled qty
      then (
        record {
          book = book;
          feed = emit feed (add id side price (sub_u64 qty filled) (now (suc x.reads)) is_ours);
          id_gen = id;
          reads = suc (suc x.reads);
        },
        some id,
      )
      else (record { book = book; feed = feed; id_gen = id; reads = suc x.reads }, none)

  -- `take()` on a slot or on the identifier of a quote, and the cancellation.
  unfoldable pub cancel_existing : Exchange → Side → Option (OrderId × Price) → Exchange
  cancel_existing x side none = x
  cancel_existing x side (some (id, price)) = cancel_and_emit x side price id

  module _ (background_level_qty : Qty) where
    -- The slot that is left: none if the order was filled at once.
    unfoldable pub place_background : Sim → Side → ℕ → Price → Sim
    place_background s bid lvl mid_ticks =
        let price = background_price bid mid_ticks lvl in
        let x = cancel_existing s.exchange bid (slot s.bid_slots lvl) in
        let (x', id) = submit_and_emit x bid price background_level_qty false in
        record s {
          exchange = x';
          bid_slots = set s.bid_slots lvl (Option.map (λ i. (i, price)) id);
        }
    place_background s ask lvl mid_ticks =
        let price = background_price ask mid_ticks lvl in
        let x = cancel_existing s.exchange ask (slot s.ask_slots lvl) in
        let (x', id) = submit_and_emit x ask price background_level_qty false in
        record s {
          exchange = x';
          ask_slots = set s.ask_slots lvl (Option.map (λ i. (i, price)) id);
        }

    -- The levels from `lvl` on that are refreshed, each on either side or both.
    unfoldable pub refresh : Sim → ℕ → Price → List (Bool × Bool) → Sim
    refresh s lvl mid_ticks [] = s
    refresh s lvl mid_ticks ((bids, asks) ∷ draws) =
        let s₁ = if bids then place_background s bid lvl mid_ticks else s in
        let s₂ = if asks then place_background s₁ ask lvl mid_ticks else s₁ in
        refresh s₂ (suc lvl) mid_ticks draws

  -- `our_bid_id.take()` and `our_ask_id.take()` with their cancellations
  unfoldable pub cancel_quotes : Sim → Sim
  cancel_quotes s =
      let x =
        cancel_existing s.exchange bid (Option.map (λ i. (i, s.our_bid_price)) s.our_bid_id) in
      record s {
        exchange = cancel_existing x ask (Option.map (λ i. (i, s.our_ask_price)) s.our_ask_id);
        our_bid_id = none;
        our_ask_id = none;
      }

  unfoldable pub handle_command : Sim → StrategyCommand → Sim
  handle_command s cancel_all = cancel_quotes s
  handle_command s (quote bid_price bid_qty ask_price ask_qty) =
      let c = cancel_quotes s in
      let (x₁, bid_id) = submit_and_emit c.exchange bid bid_price bid_qty true in
      let safe = safe_ask_price bid_price ask_price in
      let (x₂, ask_id) = submit_and_emit x₁ ask safe ask_qty true in
      record c {
        exchange = x₂;
        our_bid_id = bid_id;
        our_bid_price = resting_price bid_id bid_price c.our_bid_price;
        our_ask_id = ask_id;
        our_ask_price = resting_price ask_id safe c.our_ask_price;
      }

  unfoldable pub handle_commands : Sim → List StrategyCommand → Sim
  handle_commands s [] = s
  handle_commands s (c ∷ cs) = handle_commands (handle_command s c) cs

  unfoldable pub noise_order : Exchange → Side → Qty → Exchange
  noise_order x side qty =
      let (book, fills) = execute_market_order x.book side qty (now x.reads) in
      record x {
        book = book;
        feed = emit_each x.feed (map fill_to_trade_event fills);
        reads = suc x.reads;
      }

unfoldable pub publish_resync : Sim → Sim
publish_resync s = record s {
  resync = record (export_resync s.exchange.book) { seq_at_snapshot = s.exchange.feed.seq };
}

-- The outcomes of one round: the walk in ticks, the levels refreshed, the commands that are popped,
-- the noise order's side if there is one, and whether the interval for a snapshot has elapsed.
pub record Round : Type 0 where
  pub mid_ticks : Price
  pub refreshed : List (Bool × Bool)
  pub commands : List StrategyCommand
  pub noise : Option Side
  pub publishes : Bool

abbrev pub empty_sim : ℕ → Sim
empty_sim levels = record {
  exchange = record { book = new; feed = record { seq = 0; sent = [] }; id_gen = 0; reads = 0 };
  bid_slots = replicate levels none;
  ask_slots = replicate levels none;
  our_bid_id = none;
  our_ask_id = none;
  our_bid_price = pos 0;
  our_ask_price = pos 0;
  resync = record { bids = []; asks = []; seq_at_snapshot = 0 };
}

module _ (now : ℕ → ℕ) (lost : ℕ → Bool) (background_level_qty noise_order_qty : Qty) where
  abbrev pub noise_round : Sim → Option Side → Sim
  noise_round s none = s
  noise_round s (some side) = record s {
    exchange = noise_order now lost s.exchange side noise_order_qty;
  }

  -- One round of the `while` loop.
  unfoldable pub step : Sim → Round → Sim
  step s r =
      let s₁ = refresh now lost background_level_qty s 0 r.mid_ticks r.refreshed in
      let s₂ = handle_commands now lost s₁ r.commands in
      let s₃ = noise_round s₂ r.noise in if r.publishes then publish_resync s₃ else s₃

  unfoldable pub steps : Sim → List Round → Sim
  steps s [] = s
  steps s (r ∷ rs) = steps (step s r) rs

  -- Every level is placed on both sides before the first round, and a first snapshot is published.
  unfoldable pub run_sim : ℕ → Price → List Round → Sim
  run_sim levels start_ticks rs =
      let placed =
        refresh now lost background_level_qty (empty_sim levels) 0 start_ticks
          (replicate levels (true, true)) in
      steps (publish_resync placed) rs
