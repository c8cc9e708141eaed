-- ===== src/Types.antt =====
-- engine/src/types.rs: the types that the threads of the engine share. A price is a whole number of
-- ticks (i64); quantities, identifiers, times and sequence numbers are u64.
use high_frequency_market_ma.Prelude.{ℕ, Bool, List}
use high_frequency_market_ma.Prelude.Int.{ℤ}

abbrev pub Price : Type 0
Price = ℤ

abbrev pub Qty : Type 0
Qty = ℕ

abbrev pub OrderId : Type 0
OrderId = ℕ

pub data Side : Type 0 where
  bid ask : Side

abbrev pub opposite : Side → Side
opposite bid = ask
opposite ask = bid

pub record Order : Type 0 where
  pub id : OrderId
  pub side : Side
  pub price : Price
  pub qty : Qty
  pub ts_nanos : ℕ
  pub is_ours : Bool

pub record Fill : Type 0 where
  pub resting_order_id : OrderId
  pub resting_is_ours : Bool
  pub side_of_resting_order : Side
  pub price : Price
  pub qty : Qty
  pub ts_nanos : ℕ

-- `add order_id side price qty ts_nanos is_ours`, `cancel order_id side price ts_nanos`, and
-- `trade resting_order_id resting_is_ours side_of_resting_order price qty ts_nanos`.
pub data MarketEvent : Type 0 where
  add : OrderId → Side → Price → Qty → ℕ → Bool → MarketEvent
  cancel : OrderId → Side → Price → ℕ → MarketEvent
  trade : OrderId → Bool → Side → Price → Qty → ℕ → MarketEvent

pub record FeedPacket : Type 0 where
  pub seq : ℕ
  pub event : MarketEvent

-- `quote bid_price bid_qty ask_price ask_qty`
pub data StrategyCommand : Type 0 where
  quote : Price → Qty → Price → Qty → StrategyCommand
  cancel_all : StrategyCommand

-- One resting order of a snapshot: (id, price, qty, is_ours).
abbrev pub ResyncEntry : Type 0
ResyncEntry = OrderId × Price × Qty × Bool

pub record BookResync : Type 0 where
  pub bids : List ResyncEntry
  pub asks : List ResyncEntry
  pub seq_at_snapshot : ℕ

pub record SeqEvent : Type 0 where
  pub seq : ℕ
  pub event : MarketEvent
