-- ===== src/UdpFeed/Forward.antt =====
-- What engine/src/udp_feed.rs passes on to the ring.
use high_frequency_market_ma.Prelude.{
  ℕ, ◌+◌, ◌-◌, ◌^◌, ◌<◌, ◌≡◌, refl, ap, ◌∙◌, Option, List, [], ◌∷◌, ◌++◌, map, length, length-map,
  take, arith,
}
use high_frequency_market_ma.Prelude.Word.{add_u64}
use high_frequency_market_ma.Types.{FeedPacket, SeqEvent}
use high_frequency_market_ma.RingBuffer.Queue.{Holds}
use high_frequency_market_ma.RingBuffer.Burst.{try_push_each, try_push_each-Burst}
use high_frequency_market_ma.UdpFeed.{Received, Handler, track, handle_packet, run_feed}
use high_frequency_market_ma.UdpFeed.Packets.{handle_packets, decoded, run_feed-handle_packets}

abbrev pub seq_event : FeedPacket → SeqEvent
seq_event p = record { seq = p.seq; event = p.event }

handle_packets-out :
    (ps : List FeedPacket) (h : Handler)
    → (handle_packets h ps).out ≡ try_push_each h.out (map seq_event ps)
unfolding handle_packets handle_packet try_push_each
handle_packets-out [] h = refl
handle_packets-out (p ∷ ps) h = handle_packets-out ps (handle_packet h p)

received_lem :
    (p : FeedPacket) (h : Handler)
    → (handle_packet h p).health.packets_received ≡ add_u64 h.health.packets_received 1
unfolding handle_packet track
received_lem p h = ground arith

handle_packets-received :
    (ps : List FeedPacket) (h : Handler)
    → h.health.packets_received < 2 ^ 64
    → (handle_packets h ps).health.packets_received ≡ add_u64 h.health.packets_received (length ps)
unfolding handle_packets
handle_packets-received [] h lt = omega arith
handle_packets-received (p ∷ ps) h lt =
    let one = received_lem p h in
    omega (arith, one, handle_packets-received ps (handle_packet h p) (omega (arith, one)))

-- While nothing is taken out of a ring with n free slots, the first n packets that are decoded
-- come to stand in it behind what it holds, whatever their sequence numbers; the ring counts the
-- others, and the handler counts all as received. Both counts wrap at 2 ^ 64.
pub run_feed-Holds :
    (decode : List ℕ → Option FeedPacket) (rs : List Received) (h : Handler) {k : ℕ} (n : ℕ)
    {q : List SeqEvent}
    → Holds k h.out q
    → n + length q ≡ 2 ^ k
    → h.out.dropped < 2 ^ 64
    → h.health.packets_received < 2 ^ 64
    → let h' = run_feed decode h rs in
      let ps = decoded decode rs in
      Holds k h'.out (q ++ take n (map seq_event ps))
      × (h'.out.dropped ≡ add_u64 h.out.dropped (length ps - n))
      × (h'.health.packets_received ≡ add_u64 h.health.packets_received (length ps))
run_feed-Holds decode rs h n {q} holds free d g =
    let ps = decoded decode rs in
    let b = try_push_each-Burst (map seq_event ps) n h.out holds free d in
    rw (run_feed-handle_packets decode h rs, handle_packets-out ps h)
      (
        b.holds,
        b.dropped ∙ ap (λ l. add_u64 h.out.dropped (l - n)) (length-map seq_event ps),
        handle_packets-received ps h g,
      )
