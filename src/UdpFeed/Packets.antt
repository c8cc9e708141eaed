-- ===== src/UdpFeed/Packets.antt =====
-- The feed handler of engine/src/udp_feed.rs packet by packet: what timeouts, errors and datagrams
-- that do not decode leave no trace of.
use high_frequency_market_ma.Prelude.{
  ℕ, ◌≡◌, refl, Option, none, some, List, [], ◌∷◌, map, ap, take, Option-cases, inl, inr,
}
use high_frequency_market_ma.Types.{FeedPacket}
use high_frequency_market_ma.UdpFeed.{
  Handler, Received, timed_out, failed, datagram, handle_packet, round, run_feed,
}

unfoldable pub handle_packets : Handler → List FeedPacket → Handler
handle_packets h [] = h
handle_packets h (p ∷ ps) = handle_packets (handle_packet h p) ps

module _ (decode : List ℕ → Option FeedPacket) where
  -- The packets that the handler gets to see.
  unfoldable pub decoded : List Received → List FeedPacket
  decoded [] = []
  decoded (timed_out ∷ rs) = decoded rs
  decoded (failed ∷ rs) = decoded rs
  decoded (datagram bytes ∷ rs) = elim (decode (take 2048 bytes)) [
    | none ↦ decoded rs
    | some p ↦ p ∷ decoded rs
  ]

  pub run_feed-handle_packets :
      (h : Handler) (rs : List Received) → run_feed decode h rs ≡ handle_packets h (decoded rs)
  unfolding run_feed round decoded handle_packets
  run_feed-handle_packets h [] = refl
  run_feed-handle_packets h (timed_out ∷ rs) = run_feed-handle_packets h rs
  run_feed-handle_packets h (failed ∷ rs) = run_feed-handle_packets h rs
  run_feed-handle_packets h (datagram bytes ∷ rs) = elim (Option-cases (decode (take 2048 bytes))) [
    | inl n ↦ rw (decoded, round, n) (run_feed-handle_packets h rs)
    | inr (p, e) ↦ rw (decoded, round, e) (run_feed-handle_packets (handle_packet h p) rs)
  ]

-- The datagrams of some packets, which decode to them.
pub decoded-datagrams :
    (encode : FeedPacket → List ℕ) (decode : List ℕ → Option FeedPacket) (ps : List FeedPacket)
    → ((p : FeedPacket) → decode (take 2048 (encode p)) ≡ some p)
    → decoded decode (map (λ p. datagram (encode p)) ps) ≡ ps
unfolding decoded
decoded-datagrams encode decode [] inverse = refl
decoded-datagrams encode decode (p ∷ ps) inverse =
    rw (inverse p) (ap (λ l. p ∷ l) (decoded-datagrams encode decode ps inverse))
