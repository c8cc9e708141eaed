-- ===== src/Strategy/Stale.antt =====
-- Events that a snapshot of engine/src/market_sim.rs covers, and that the strategy of
-- engine/src/main.rs finds in its ring behind it.
use high_frequency_market_ma.Prelude.{
  ℕ, ◌+◌, ◌<◌, ◌≡◌, refl, sym, ap, ◌∙◌, Bool, true, not, ◌||◌, [], ◌∷◌, map, is_empty, sum_by,
  sum_by-append, arith,
}
use high_frequency_market_ma.Float.{Float}
use high_frequency_market_ma.Types.{Price, Qty, OrderId, Side, bid, ask, SeqEvent, add}
use high_frequency_market_ma.OrderBook.{
  OrderBook, Queue, Levels, book_of, set_book, insert_resting_order,
}
use high_frequency_market_ma.OrderBook.Mirror.{flat}
use high_frequency_market_ma.OrderBook.Queues.{qty_of}
use high_frequency_market_ma.OrderBook.Totals.{resting}
use high_frequency_market_ma.OrderBook.Sides.{resting-push_order}
use high_frequency_market_ma.OrderBook.Valid.{IsValid, IsValid-book_of}
use high_frequency_market_ma.OrderBook.Resync.{restamp, restamp_levels}
use high_frequency_market_ma.MarketSim.{Sim, publish_resync}
use high_frequency_market_ma.MarketSim.Log.{timeless, insert-timeless}
use high_frequency_market_ma.Strategy.{Shadow, apply_to_book, apply_event, drain, pull_resync}
use high_frequency_market_ma.Strategy.Follow.{our_part-book}
use high_frequency_market_ma.Strategy.Heal.{pull_resync-heals}

qty_of-restamp : (t : ℕ) (q : Queue) → sum_by qty_of (map (restamp t) q) ≡ sum_by qty_of q
qty_of-restamp t [] = refl
qty_of-restamp t (o ∷ q) = ap (λ n. o.qty + n) (qty_of-restamp t q)

resting-restamp : (t : ℕ) (m : Levels) → resting (restamp_levels t m) ≡ resting m
resting-restamp t [] = refl
resting-restamp t ((p, q) ∷ m) = omega (
  arith,
  sum_by-append qty_of (map (restamp t) q) (flat (restamp_levels t m)),
  sum_by-append qty_of q (flat m),
  qty_of-restamp t q,
  resting-restamp t m,
)

resting-timeless :
    (side : Side) (b : OrderBook) → resting (book_of side (timeless b)) ≡ resting (book_of side b)
resting-timeless bid b = resting-restamp 0 b.bids
resting-timeless ask b = resting-restamp 0 b.asks

resting-same :
    (side : Side) (a b : OrderBook)
    → timeless a ≡ timeless b
    → resting (book_of side a) ≡ resting (book_of side b)
resting-same side a b e =
    sym (resting-timeless side a) ∙ ap (λ z. resting (book_of side z)) e ∙ resting-timeless side b

book_of-set_book : (side : Side) (m : Levels) (b : OrderBook) → book_of side (set_book side m b) ≡ m
book_of-set_book bid m b = refl
book_of-set_book ask m b = refl

resting-insert_resting_order :
    {b : OrderBook} (id : OrderId) (side : Side) (price : Price) (qty : Qty) (t : ℕ) (ours : Bool)
    → IsValid b
    → resting (book_of side (insert_resting_order b id side price qty t ours))
      ≡ resting (book_of side b) + qty
unfolding insert_resting_order
resting-insert_resting_order {b} id side price qty t ours v =
    ap resting (book_of-set_book side _ b)
    ∙ resting-push_order _ (book_of side b) (IsValid-book_of side v).sorted

module _ {ℓ} {F : Type ℓ} ⦃f : Float F⦄ where
  -- Where the feed handler has counted more losses than the strategy knew of, and the snapshot
  -- of the exchange's well-formed book is not empty and has a higher sequence number than all
  -- that the strategy has applied, pulling it replaces the shadow book, and the event of a new
  -- order that has a lower sequence number than the snapshot is applied all the same when it
  -- comes out of the ring afterwards: its side of the shadow book then has that order's
  -- quantity on top of what rests at the exchange, where the order may be already.
  pub drain-stale :
      (s : Shadow F) (x : Sim) (lost ts : ℕ) (seq : ℕ) (id : OrderId) (side : Side) (price : Price)
      (qty : Qty) (t : ℕ) (ours : Bool)
      → IsValid x.exchange.book
      → s.last_known_lost_events < lost
      → s.highest_seq_applied < x.exchange.feed.seq
      → (not (is_empty (publish_resync x).resync.bids)
          || not (is_empty (publish_resync x).resync.asks))
        ≡ true
      → seq < x.exchange.feed.seq
      → let s' = pull_resync s lost (publish_resync x).resync ts in
        let e : SeqEvent = record { seq = seq; event = add id side price qty t ours } in
        (seq < s'.highest_seq_applied)
        × (resting (book_of side (drain s' (e ∷ [])).shadow_book)
            ≡ resting (book_of side x.exchange.book) + qty)
  unfolding drain apply_event apply_to_book
  drain-stale s x lost ts seq id side price qty t ours v more newer full covered =
      let s' = pull_resync s lost (publish_resync x).resync ts in
      let (same, number, _) = pull_resync-heals s x lost ts v more newer full in
      (
        omega (arith, number),
        ap (λ b. resting (book_of side b)) (our_part-book _ (add id side price qty t ours))
            ∙ resting-same side _ _
                (insert-timeless s'.shadow_book x.exchange.book id side price qty t t ours same)
            ∙ resting-insert_resting_order id side price qty t ours v,
      )
