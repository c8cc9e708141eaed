-- ===== src/Strategy/Heal.antt =====
-- The snapshot that the strategy of engine/src/main.rs pulls, against the exchange that published
-- it.
use high_frequency_market_ma.Prelude.{
  ℕ, ◌<◌, ◌≡◌, refl, ap, ap₂, ◌∙◌, true, ◌&&◌, ◌||◌, not, ◌⊎◌, inl, inr, [], ◌∷◌, map, is_empty,
  ltb, lt→ltb, Bool-cases, arith,
}
use high_frequency_market_ma.Float.{Float}
use high_frequency_market_ma.Types.{BookResync}
use high_frequency_market_ma.OrderBook.{OrderBook, Queue, Levels}
use high_frequency_market_ma.OrderBook.Mirror.{export_resync, rebuild_from_resync}
use high_frequency_market_ma.OrderBook.Valid.{IsValid}
use high_frequency_market_ma.OrderBook.Resync.{
  restamp, restamp_levels, restamp_book, rebuild_from_resync-export_resync,
}
use high_frequency_market_ma.MarketSim.{Sim, publish_resync}
use high_frequency_market_ma.MarketSim.Log.{timeless}
use high_frequency_market_ma.Strategy.{Shadow, is_applicable, apply_resync, pull_resync}

restamp_twice : (s t : ℕ) (q : Queue) → map (restamp s) (map (restamp t) q) ≡ map (restamp s) q
restamp_twice s t [] = refl
restamp_twice s t (o ∷ q) = ap (◌∷◌ (restamp s o)) (restamp_twice s t q)

restamp_levels_twice :
    (s t : ℕ) (m : Levels) → restamp_levels s (restamp_levels t m) ≡ restamp_levels s m
restamp_levels_twice s t [] = refl
restamp_levels_twice s t ((p, q) ∷ m) =
    ap₂ (λ z n. (p, z) ∷ n) (restamp_twice s t q) (restamp_levels_twice s t m)

timeless-restamp_book : (t : ℕ) (b : OrderBook) → timeless (restamp_book t b) ≡ timeless b
timeless-restamp_book t b =
    ap₂ (λ m n. record { bids = m; asks = n }) (restamp_levels_twice 0 t b.bids)
      (restamp_levels_twice 0 t b.asks)

rebuilt :
    (old : OrderBook) (x : Sim) (ts : ℕ)
    → IsValid x.exchange.book
    → timeless (rebuild_from_resync old (publish_resync x).resync ts) ≡ timeless x.exchange.book
unfolding publish_resync rebuild_from_resync export_resync
rebuilt old x ts v =
    ap timeless (rebuild_from_resync-export_resync old ts v)
    ∙ timeless-restamp_book ts x.exchange.book

module _ {ℓ} {F : Type ℓ} ⦃f : Float F⦄ where
  -- Where the feed handler has counted more losses than the strategy knew of, and the snapshot
  -- of the exchange's well-formed book is not empty and has a higher sequence number than all
  -- that the strategy has applied, pulling it gives the shadow book the exchange's orders
  -- whatever it had before, but for their times, and takes over the sequence number and the
  -- count.
  pub pull_resync-heals :
      (s : Shadow F) (x : Sim) (lost ts : ℕ)
      → IsValid x.exchange.book
      → s.last_known_lost_events < lost
      → s.highest_seq_applied < x.exchange.feed.seq
      → (not (is_empty (publish_resync x).resync.bids)
          || not (is_empty (publish_resync x).resync.asks))
        ≡ true
      → let s' = pull_resync s lost (publish_resync x).resync ts in
        (timeless s'.shadow_book ≡ timeless x.exchange.book)
        × (s'.highest_seq_applied ≡ x.exchange.feed.seq)
        × (s'.last_known_lost_events ≡ lost)
  unfolding pull_resync apply_resync
  pull_resync-heals s x lost ts v more newer full =
      let snap = (publish_resync x).resync in
      let seq : snap.seq_at_snapshot ≡ x.exchange.feed.seq = unfold publish_resync in refl in
      let test : ltb s.highest_seq_applied snap.seq_at_snapshot ≡ true =
        rw seq (lt→ltb _ _ newer) in
      let gate : is_applicable s snap ≡ true = ap₂ ◌&&◌ test full in
      rw (pull_resync, lt→ltb _ _ more, gate) (rebuilt s.shadow_book x ts v, seq, refl)

  -- Pulling a snapshot leaves the shadow book and the highest applied sequence number as they
  -- are, or raises that number.
  pub pull_resync-advances :
      (s : Shadow F) (lost : ℕ) (snap : BookResync) (ts : ℕ)
      → let s' = pull_resync s lost snap ts in
        (s'.shadow_book ≡ s.shadow_book) × (s'.highest_seq_applied ≡ s.highest_seq_applied)
        ⊎ (s.highest_seq_applied < s'.highest_seq_applied)
  unfolding pull_resync apply_resync
  pull_resync-advances s lost snap ts = elim (Bool-cases (ltb s.last_known_lost_events lost)) [
    | inr e ↦ rw (pull_resync, e) (inl (refl, refl))
    | inl e ↦ elim (Bool-cases (is_applicable s snap)) [
      | inr g ↦ rw (pull_resync, e, g) (inl (refl, refl))
      | inl g ↦ rw (pull_resync, e, g) (inr (ground (arith, g)))
    ]
  ]
