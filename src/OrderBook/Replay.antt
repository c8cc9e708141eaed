-- ===== src/OrderBook/Replay.antt =====
-- The two readings of engine/src/orderbook.rs: matching, and applying by `apply_trade` the trades
-- that another book reports.
use high_frequency_market_ma.Prelude.{
  ℕ, zero, suc, ◌-◌, ◌≤◌, ◌≡◌, refl, sym, subst, ap, ◌∙◌, Bool, false, some, none, List, [], ◌∷◌,
  ◌++◌, length, is_empty, All, All-map, leb, ltb, ◌==◌, if◌then◌else◌, Bool-cases, inl, inr, arith,
  ==_self, le→leb, is_empty→nil,
}
use high_frequency_market_ma.TreeMap.{get}
use high_frequency_market_ma.TreeMap.Order.{IsSorted}
use high_frequency_market_ma.Types.{Price, Qty, OrderId, Side, bid, ask, opposite, Order, Fill}
use high_frequency_market_ma.OrderBook.{
  OrderBook, Queue, Levels, Sweep, book_of, set_book, put_level, position, insert_resting_order,
  submit_limit_order, execute_market_order,
}
use high_frequency_market_ma.OrderBook.Mirror.{trade_at, trade_queue, apply_trade}
use high_frequency_market_ma.OrderBook.Queues.{sweep, filled}
use high_frequency_market_ma.OrderBook.Ends.{
  priority, top, top-cases, priority-top, priority-nil, length-top, IsSorted-top, get-top,
  put_level-top, IsSorted-top_set, All-top, priority-injective,
}
use high_frequency_market_ma.OrderBook.Walk.{walk, Agrees}
use high_frequency_market_ma.OrderBook.Valid.{IsSide, IsValid, IsValid-book_of}
use high_frequency_market_ma.OrderBook.Totals.{Accepted}
use high_frequency_market_ma.OrderBook.Submit.{submitted, submitted-Agrees, submitted-IsSwept}
use high_frequency_market_ma.OrderBook.Priority.{book_of-set_book}
use high_frequency_market_ma.OrderBook.Market.{executed-Agrees, executed-IsSwept}

-- One side of the book after a trade, and after the trades that a list of fills reports.
pub trade_levels : Price → OrderId → Qty → Levels → Levels
trade_levels price id qty m = elim (get m price) [
  | none ↦ m
  | some queue ↦ put_level price (trade_queue id qty queue) m
]

pub replay_levels : List Fill → Levels → Levels
replay_levels [] m = m
replay_levels (f ∷ fs) m = replay_levels fs (trade_levels f.price f.resting_order_id f.qty m)

replay_levels-append :
    (xs ys : List Fill) (m : Levels)
    → replay_levels (xs ++ ys) m ≡ replay_levels ys (replay_levels xs m)
unfolding replay_levels
replay_levels-append [] ys m = refl
replay_levels-append (f ∷ xs) ys m = replay_levels-append xs ys _

-- A trade with the order at the front of the best level.
trade_levels-top :
    (side : Side) (p : Price) (o : Order) (q : Queue) (rest : Levels) (n : ℕ)
    → IsSorted (top side (p, o ∷ q) rest)
    → let q' = if leb o.qty n then q else record o { qty = o.qty - n } ∷ q in
      trade_levels p o.id n (top side (p, o ∷ q) rest)
      ≡ (if is_empty q' then rest else top side (p, q') rest)
unfolding trade_levels trade_queue position trade_at
trade_levels-top side p o q rest n s =
    rw (trade_levels, get-top p (o ∷ q) rest side s, trade_queue, position, ==_self o.id)
      (put_level-top p (o ∷ q) rest _ side s)

trade_levels-whole :
    (side : Side) (p : Price) (o : Order) (q : Queue) (rest : Levels)
    → IsSorted (top side (p, o ∷ q) rest)
    → trade_levels p o.id o.qty (top side (p, o ∷ q) rest)
      ≡ (if is_empty q then rest else top side (p, q) rest)
trade_levels-whole side p o q rest s =
    trade_levels-top side p o q rest o.qty s ∙ rw (le→leb o.qty o.qty (omega arith))

-- Replaying what `sweep` fills leaves what `sweep` leaves.
replay-sweep :
    (rs side : Side) (p : Price) (ts : ℕ) (q : Queue) (rest : Levels) (r : ℕ)
    → IsSorted (top side (p, q) rest)
    → is_empty q ≡ false
    → let a = sweep rs p ts q r in
      replay_levels a.fills (top side (p, q) rest)
      ≡ (if is_empty a.queue then rest else top side (p, a.queue) rest)
unfolding replay_levels sweep
replay-sweep rs side p ts [] rest r s n = cc
replay-sweep rs side p ts (o ∷ q) rest r s n = elim (Bool-cases (r == 0)) [
  | inl e ↦ rw e
  | inr e ↦ rw e (elim (Bool-cases (leb o.qty r)) [
    | inl c ↦ rw c (
        ap (replay_levels (sweep rs p ts q (r - o.qty)).fills)
          (trade_levels-whole side p o q rest s)
        ∙ elim (Bool-cases (is_empty q)) [
          | inl t ↦ rw (t, is_empty→nil q t)
          | inr f ↦ rw f (
              replay-sweep rs side p ts q rest (r - o.qty)
                (IsSorted-top_set p (o ∷ q) rest q side s) f)
        ])
    | inr c ↦ rw (c, trade_levels-top side p o q rest r s, c)
  ])
]

-- Replaying what `walk` fills leaves what `walk` leaves.
replay-walk :
    (rs side : Side) (ok : Price → Bool) (ts n : ℕ) (m : Levels) (r : ℕ)
    → length m ≤ n
    → IsSorted m
    → All (λ e. is_empty e.1 ≡ false) m
    → let w = walk rs ok ts (priority side m) r in
      priority side (replay_levels w.fills m) ≡ w.levels
unfolding walk replay_levels
replay-walk rs side ok ts zero m r h s full = elim (top-cases side m) [
  | inl e ↦ rw (e, priority-nil side) (priority-nil side)
  | inr (p, q, rest, e) ↦ absurd (omega (arith, length-top side (p, q) rest, ap length e))
]
replay-walk rs side ok ts (suc n) m r h s full = elim (top-cases side m) [
  | inl e ↦ rw (e, priority-nil side) (priority-nil side)
  | inr (p, q, rest, e) ↦
      let s' = subst IsSorted e s in
      let full' =
        All-top (λ x. is_empty x.1 ≡ false) side (p, q) rest
          (subst (All λ x. is_empty x.1 ≡ false) e full) in
      let a = sweep rs p ts q r in
      let level = replay-sweep rs side p ts q rest r s' full'.0 in
      rw (e, priority-top side (p, q) rest)
        (elim (Bool-cases (r == 0)) [
          | inl z ↦ rw z (priority-top side (p, q) rest)
          | inr z ↦ rw z (elim (Bool-cases (ok p)) [
            | inl c ↦ rw c (elim (Bool-cases (is_empty a.queue)) [
              | inl t ↦
                  let emptied : replay_levels a.fills (top side (p, q) rest) ≡ rest =
                    level ∙ rw t in
                  rw (t, replay_levels-append, emptied)
                    (replay-walk rs side ok ts n rest a.remaining
                      (omega (arith, length-top side (p, q) rest, ap length e))
                      (IsSorted-top p q rest side s') full'.1)
              | inr f ↦
                  let left : replay_levels a.fills (top side (p, q) rest)
                      ≡ top side (p, a.queue) rest =
                    level ∙ rw f in
                  rw (f, left) (priority-top side (p, a.queue) rest)
            ])
            | inr c ↦ rw c (priority-top side (p, q) rest)
          ])
        ])
]

-- The trades that a list of fills reports, applied one after the other to a book.
unfoldable pub replay_fills : List Fill → OrderBook → OrderBook
replay_fills [] b = b
replay_fills (f ∷ fs) b =
    replay_fills fs (apply_trade b f.side_of_resting_order f.price f.resting_order_id f.qty)

apply_trade-trade_levels :
    (b : OrderBook) (side : Side) (price : Price) (id : OrderId) (qty : Qty)
    → apply_trade b side price id qty ≡ set_book side (trade_levels price id qty (book_of side b)) b
unfolding apply_trade trade_levels
apply_trade-trade_levels b bid price id qty = ground arith
apply_trade-trade_levels b ask price id qty = ground arith

set_book-set_book :
    (side : Side) (m n : Levels) (b : OrderBook)
    → set_book side m (set_book side n b) ≡ set_book side m b
set_book-set_book bid m n b = refl
set_book-set_book ask m n b = refl

set_book_self : (side : Side) (b : OrderBook) → b ≡ set_book side (book_of side b) b
set_book_self bid b = refl
set_book_self ask b = refl

replay_fills-replay_levels :
    (rs : Side) (fs : List Fill) (b : OrderBook)
    → All (λ f. f.side_of_resting_order ≡ rs) fs
    → replay_fills fs b ≡ set_book rs (replay_levels fs (book_of rs b)) b
unfolding replay_fills replay_levels
replay_fills-replay_levels rs [] b h = set_book_self rs b
replay_fills-replay_levels rs (f ∷ fs) b h =
    let m = trade_levels f.price f.resting_order_id f.qty (book_of rs b) in
    rw (h.0, apply_trade-trade_levels b rs f.price f.resting_order_id f.qty)
      (replay_fills-replay_levels rs fs (set_book rs m b) h.1
        ∙ rw (book_of-set_book rs m b) (set_book-set_book rs _ m b))

-- A book that replays the fills of a sweep comes to the side that the sweep left.
replay-Agrees :
    (side rs : Side) (ok : Price → Bool) (ts : ℕ) (b : OrderBook) (qty : Qty) (s : Sweep)
    → IsSide rs (book_of rs b)
    → Agrees side [] (walk rs ok ts (priority side (book_of rs b)) qty) s
    → All (Accepted rs ok) s.fills
    → replay_fills s.fills b ≡ set_book rs s.levels b
replay-Agrees side rs ok ts b qty s v a acc =
    let m = book_of rs b in
    let same : replay_levels s.fills m ≡ s.levels = priority-injective side _ _ (
      rw a.fills (
        replay-walk rs side ok ts (length m) m qty (omega arith) v.sorted
          (All-map _ _ m (λ e l. l.filled) v.levels)
        ∙ sym a.levels)) in
    replay_fills-replay_levels rs s.fills b (All-map _ _ s.fills (λ f x. x.2) acc)
    ∙ ap (λ n. set_book rs n b) same

-- A well-formed book that applies the trades which a market order on it reports, in their order,
-- becomes the book that executed it.
pub replay-execute_market_order :
    {b : OrderBook} (side : Side) (qty : Qty) (ts : ℕ)
    → IsValid b
    → let (b', fills) = execute_market_order b side qty ts in replay_fills fills b ≡ b'
unfolding execute_market_order
replay-execute_market_order {b} side qty ts v =
    replay-Agrees side (opposite side) _ ts b qty _ (IsValid-book_of (opposite side) v)
      (executed-Agrees side qty ts v) (executed-IsSwept side qty ts v).accepted

-- A well-formed book that applies the trades which a limit order on it reports, in their order,
-- and then adds what the fills leave of the order, becomes the book that matched it.
pub replay-submit_limit_order :
    {b : OrderBook} (id : OrderId) (side : Side) (price : Price) (qty : Qty) (ts : ℕ) (ours : Bool)
    → IsValid b
    → let (b', fills) = submit_limit_order b id side price qty ts ours in
      let traded = replay_fills fills b in
      (if ltb (filled fills) qty
        then insert_resting_order traded id side price (qty - filled fills) ts ours
        else traded)
      ≡ b'
unfolding submit_limit_order
replay-submit_limit_order {b} id side price qty ts ours v =
    let s = submitted b side price qty ts in
    let w = submitted-IsSwept side price qty ts v in
    let traded =
      replay-Agrees side (opposite side) _ ts b qty s (IsValid-book_of (opposite side) v)
        (submitted-Agrees side price qty ts v) w.accepted in
    let rest : qty - filled s.fills ≡ s.remaining = omega (arith, w.taken) in
    let test : ltb (filled s.fills) qty ≡ ltb 0 s.remaining = ground (arith, w.taken) in
    rw (traded, rest, test)
