-- ===== src/MarketSim/Log.antt =====
-- The feed of engine/src/market_sim.rs against its book, but for the times of the orders.
use high_frequency_market_ma.Prelude.{
  ℕ, suc, ◌-◌, ◌^◌, ◌%◌, ◌<◌, ◌≡◌, refl, sym, ap, subst, ◌∙◌, Bool, false, List, [], ◌∷◌, ◌++◌, map,
  map-append, append_assoc, ltb, Bool-cases, All, inl, inr, arith,
}
use high_frequency_market_ma.Prelude.Word.{add_u64, sub_u64}
use high_frequency_market_ma.Types.{
  Price, Qty, OrderId, Side, Fill, MarketEvent, add, cancel, FeedPacket,
}
use high_frequency_market_ma.OrderBook.{
  OrderBook, new, insert_resting_order, submit_limit_order, cancel_order, execute_market_order,
}
use high_frequency_market_ma.OrderBook.Mirror.{apply_trade}
use high_frequency_market_ma.OrderBook.Queues.{filled}
use high_frequency_market_ma.OrderBook.Valid.{IsValid}
use high_frequency_market_ma.OrderBook.Cancel.{cancel_order-IsValid}
use high_frequency_market_ma.OrderBook.Removed.{cancel_order-Removed}
use high_frequency_market_ma.OrderBook.Submit.{
  submit_limit_order-IsValid, submit_limit_order-filled,
}
use high_frequency_market_ma.OrderBook.Market.{execute_market_order-IsValid}
use high_frequency_market_ma.OrderBook.Replay.{
  replay_fills, replay-submit_limit_order, replay-execute_market_order,
}
use high_frequency_market_ma.OrderBook.Resync.{restamp_book}
use high_frequency_market_ma.OrderBook.Restamp.{
  insert_resting_order-restamp, cancel_order-restamp, apply_trade-restamp,
}
use high_frequency_market_ma.Strategy.{apply_to_book, apply_each}
use high_frequency_market_ma.MarketSim.{
  FeedSender, Exchange, Round, fill_to_trade_event, sum_qty, emit, emit_each, cancel_and_emit,
  submit_and_emit, noise_order, run_sim,
}
use high_frequency_market_ma.MarketSim.Keeps.{Keeps, CommandFits, run_sim-Keeps}

-- The book but for the times of its orders.
abbrev pub timeless : OrderBook → OrderBook
timeless = restamp_book 0

abbrev pub no_loss : ℕ → Bool
no_loss seq = false

abbrev pub events : List FeedPacket → List MarketEvent
events = map (λ (p : FeedPacket). p.event)

apply_each-append :
    (xs ys : List MarketEvent) (b : OrderBook)
    → apply_each b (xs ++ ys) ≡ apply_each (apply_each b xs) ys
unfolding apply_each
apply_each-append [] ys b = refl
apply_each-append (e ∷ xs) ys b = apply_each-append xs ys (apply_to_book b e)

-- The sum that the code takes is the exact one as long as it fits.
pub sum_qty_lem : (fs : List Fill) → sum_qty fs ≡ filled fs % 2 ^ 64
unfolding sum_qty
sum_qty_lem [] = refl
sum_qty_lem (f ∷ fs) = omega (arith, sum_qty_lem fs)

-- What a feed has sent behind some packets takes one book to another, but for the times.
pub record Since (before : List FeedPacket) (b₀ : OrderBook) (feed : FeedSender) (b : OrderBook)
    : Type 0 where
  pub after : List FeedPacket
  pub log : feed.sent ≡ before ++ after
  pub same : timeless (apply_each b₀ (events after)) ≡ timeless b

pub record Logged (before : List FeedPacket) (b₀ : OrderBook) (x : Exchange) : Type 0 where
  pub valid : IsValid x.book
  pub since : Since before b₀ x.feed x.book

-- A cancellation, a trade, and an order that comes to rest, on books that differ in their times alone.
cancel-timeless :
    (a b : OrderBook) (side : Side) (price : Price) (id : OrderId)
    → timeless a ≡ timeless b
    → timeless (cancel_order a side price id).0 ≡ timeless (cancel_order b side price id).0
cancel-timeless a b side price id e =
    cancel_order-restamp 0 a side price id
    ∙ ap (λ z. (cancel_order z side price id).0) e
    ∙ sym (cancel_order-restamp 0 b side price id)

trade-timeless :
    (a b : OrderBook) (side : Side) (price : Price) (id : OrderId) (qty : Qty)
    → timeless a ≡ timeless b
    → timeless (apply_trade a side price id qty) ≡ timeless (apply_trade b side price id qty)
trade-timeless a b side price id qty e =
    apply_trade-restamp 0 a side price id qty
    ∙ ap (λ z. apply_trade z side price id qty) e
    ∙ sym (apply_trade-restamp 0 b side price id qty)

pub insert-timeless :
    (a b : OrderBook) (id : OrderId) (side : Side) (price : Price) (qty s t : ℕ) (ours : Bool)
    → timeless a ≡ timeless b
    → timeless (insert_resting_order a id side price qty s ours)
      ≡ timeless (insert_resting_order b id side price qty t ours)
insert-timeless a b id side price qty s t ours e =
    insert_resting_order-restamp 0 a id side price qty s ours
    ∙ ap (λ z. insert_resting_order z id side price qty 0 ours) e
    ∙ sym (insert_resting_order-restamp 0 b id side price qty t ours)

module _ (now : ℕ → ℕ) (before : List FeedPacket) (b₀ : OrderBook) where
  -- An event that does to a book what was done to the exchange's.
  Since-emit :
      {feed : FeedSender} {b : OrderBook} (e : MarketEvent) (b' : OrderBook)
      → ((a : OrderBook) → timeless a ≡ timeless b → timeless (apply_to_book a e) ≡ timeless b')
      → Since before b₀ feed b
      → Since before b₀ (emit now no_loss feed e) b'
  unfolding emit apply_each
  Since-emit {feed} e b' does h =
      let packet : FeedPacket = record { seq = feed.seq; event = e } in
      record {
        after = h.after ++ packet ∷ [];
        log = ap (λ l. l ++ packet ∷ []) h.log ∙ append_assoc before h.after (packet ∷ []);
        same =
            ap (λ es. timeless (apply_each b₀ es))
              (map-append (λ (p : FeedPacket). p.event) h.after (packet ∷ []))
            ∙ ap timeless (apply_each-append (events h.after) (e ∷ []) b₀)
            ∙ does (apply_each b₀ (events h.after)) h.same;
      }

  -- The trades of a list of fills.
  Since-trades :
      (fs : List Fill) {feed : FeedSender} {b : OrderBook}
      → Since before b₀ feed b
      → Since before b₀
          (emit_each now no_loss feed (map fill_to_trade_event fs))
          (replay_fills fs b)
  unfolding emit_each replay_fills apply_to_book
  Since-trades [] h = h
  Since-trades (f ∷ fs) {b = b} h = Since-trades fs (
      Since-emit (fill_to_trade_event f) _
        (λ a e. trade-timeless a b f.side_of_resting_order f.price f.resting_order_id f.qty e) h)

  cancel_and_emit-Logged :
      (x : Exchange) (side : Side) (price : Price) (id : OrderId)
      → Logged before b₀ x
      → Logged before b₀ (cancel_and_emit now no_loss x side price id)
  unfolding cancel_and_emit apply_to_book
  cancel_and_emit-Logged x side price id l =
      let valid = cancel_order-IsValid side price id l.valid in
      elim ((cancel_order-Removed side price id l.valid).1) [
        | inl (found, _) ↦ rw found (record {
          valid = valid;
          since =
              Since-emit (cancel id side price (now x.reads)) _
                (λ a e. cancel-timeless a x.book side price id e) l.since;
        })
        | inr (missing, kept, _) ↦
            rw missing
              (record { valid = valid; since = subst (Since before b₀ x.feed) (sym kept) l.since })
      ]

  submit_and_emit-Logged :
      (x : Exchange) (side : Side) (price : Price) (qty : Qty) (ours : Bool)
      → qty < 2 ^ 64
      → Logged before b₀ x
      → Logged before b₀ (submit_and_emit now no_loss x side price qty ours).0
  unfolding submit_and_emit apply_to_book
  submit_and_emit-Logged x side price qty ours fits l =
      let id = add_u64 x.id_gen 1 in
      let ts = now x.reads in
      let fills = (submit_limit_order x.book id side price qty ts ours).1 in
      let valid = submit_limit_order-IsValid side price qty ts l.valid id ours in
      let small = submit_limit_order-filled side price qty ts l.valid id ours in
      let sum : sum_qty fills ≡ filled fills = omega (arith, sum_qty_lem fills, small) in
      let left : sub_u64 qty (filled fills) ≡ qty - filled fills = omega (arith, small) in
      let matched = replay-submit_limit_order id side price qty ts ours l.valid in
      let feed = emit_each now no_loss x.feed (map fill_to_trade_event fills) in
      let traded = Since-trades fills l.since in
      elim (Bool-cases (ltb (filled fills) qty)) [
        | inl e ↦
            let rest = qty - filled fills in
            rw (sum, left, e)
              (record {
                valid = valid;
                since =
                    Since-emit (add id side price rest (now (suc x.reads)) ours) _
                      (λ a same.
                        insert-timeless a (replay_fills fills x.book) id side price rest _ ts ours
                          same
                        ∙ ap timeless (rw e at matched))
                      traded;
              })
        | inr e ↦
            rw (sum, e)
              (record {
                valid = valid;
                since = subst (Since before b₀ feed) (rw e at matched) traded;
              })
      ]

  noise_order-Logged :
      (x : Exchange) (side : Side) (qty : Qty)
      → Logged before b₀ x
      → Logged before b₀ (noise_order now no_loss x side qty)
  unfolding noise_order
  noise_order-Logged x side qty l =
      let ts = now x.reads in
      record {
        valid = execute_market_order-IsValid side qty ts l.valid;
        since =
            subst (Since before b₀ _) (replay-execute_market_order side qty ts l.valid)
              (Since-trades (execute_market_order x.book side qty ts).1 l.since);
      }

  pub logged : Keeps now no_loss (λ _ qty. qty < 2 ^ 64) (Logged before b₀)
  logged = record {
    cancels = cancel_and_emit-Logged;
    submits = submit_and_emit-Logged;
    trades = noise_order-Logged;
  }

-- Where no packet is lost and the quantities of background orders and commands are below 2 ^ 64,
-- the events that the exchange sends, applied to an empty book, give its book, but for the times
-- of the orders.
pub run_sim-replays :
    (now : ℕ → ℕ) (background_qty noise_qty : Qty) (levels : ℕ) (start : Price) (rs : List Round)
    → background_qty < 2 ^ 64
    → All (λ r. All (CommandFits (λ _ qty. qty < 2 ^ 64)) r.commands) rs
    → let x = (run_sim now no_loss background_qty noise_qty levels start rs).exchange in
      timeless (apply_each new (events x.feed.sent)) ≡ timeless x.book
unfolding apply_each
run_sim-replays now background_qty noise_qty levels start rs small fits =
    let end =
      run_sim-Keeps now no_loss (logged now [] new) background_qty noise_qty small levels start rs
        fits
        (record {
          valid = record {
            bids = record { sorted = tt; levels = tt };
            asks = record { sorted = tt; levels = tt };
          };
          since = record { after = []; log = refl; same = refl };
        }) in
    ap (λ l. timeless (apply_each new (events l))) end.since.log ∙ end.since.same
