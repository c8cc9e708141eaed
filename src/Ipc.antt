-- ===== src/Ipc.antt =====
-- engine/src/ipc.rs: the server that publishes snapshots to monitors and listens to them for the kill
-- command. What the sockets and the locks return is an argument; a text is the list of its codes.
pub mod Command
pub mod Kill
pub mod Lines
pub mod Samples
mod Tests
use Prim.Native.String.{String}
use high_frequency_market_ma.Prelude.{
  ℕ, zero, suc, ◌+◌, Bool, true, false, ◌&&◌, ◌||◌, Option, none, some, List, [], ◌∷◌, ◌++◌, map,
  reverse, take, unwrap_or, leb, ◌==◌, if◌then◌else◌,
}
use high_frequency_market_ma.Prelude.Int.{ℤ}
use high_frequency_market_ma.Types.{Qty}

abbrev pub Text : Type 0
Text = List ℕ

pub record Snapshot {ℓ} (F : Type ℓ) : Type ℓ where
  pub ts_ms : ℕ
  pub mid : F
  pub our_bid : Option F
  pub our_ask : Option F
  pub inventory : ℤ
  pub cash : F
  pub unrealized_pnl : F
  pub sigma : F
  pub var_95 : F
  pub es_95 : F
  pub killed : Bool
  pub kill_reason : Option String
  pub bid_depth : List (F × Qty)
  pub ask_depth : List (F × Qty)
  pub trades_count : ℕ
  pub feed_packets_received : ℕ
  pub feed_gaps_detected : ℕ
  pub feed_events_lost : ℕ
  pub ring_dropped : ℕ

-- `char::is_whitespace`, the White_Space property of Unicode.
unfoldable pub is_whitespace : ℕ → Bool
is_whitespace c =
    (leb 9 c && leb c 13)
    || c == 32
    || c == 0x85
    || c == 0xA0
    || c == 0x1680
    || (leb 0x2000 c && leb c 0x200A)
    || c == 0x2028
    || c == 0x2029
    || c == 0x202F
    || c == 0x205F
    || c == 0x3000

unfoldable pub trim_start : Text → Text
trim_start [] = []
trim_start (c ∷ cs) = let trimmed = trim_start cs in if is_whitespace c then trimmed else c ∷ cs

unfoldable pub trim : Text → Text
trim l = reverse (trim_start (reverse (trim_start l)))

abbrev pub to_ascii_lowercase : ℕ → ℕ
to_ascii_lowercase c = if leb 65 c && leb c 90 then c + 32 else c

unfoldable pub eq_ignore_ascii_case : Text → Text → Bool
eq_ignore_ascii_case [] [] = true
eq_ignore_ascii_case [] (d ∷ ds) = false
eq_ignore_ascii_case (c ∷ cs) [] = false
eq_ignore_ascii_case (c ∷ cs) (d ∷ ds) =
    (to_ascii_lowercase c == to_ascii_lowercase d) && eq_ignore_ascii_case cs ds

-- "KILL"
abbrev pub kill_word : Text
kill_word = 75 ∷ 73 ∷ 76 ∷ 76 ∷ []

-- What `read_line` returns: `Ok(0)`, `Ok(n)` with the line, or `Err`.
pub data ReadLine : Type 0 where
  closed : ReadLine
  line : Text → ReadLine
  failed : ReadLine

-- The loop of the reader thread, over what it reads and the shutdown flag that it then sees; on the
-- flag of the manual kill.
unfoldable pub read_loop : List (ReadLine × Bool) → Bool → Bool
read_loop [] manual_kill = manual_kill
read_loop ((closed, shutdown) ∷ rs) manual_kill = manual_kill
read_loop ((failed, shutdown) ∷ rs) manual_kill = manual_kill
read_loop ((line l, shutdown) ∷ rs) manual_kill =
    let manual_kill' = if eq_ignore_ascii_case (trim l) kill_word then true else manual_kill in
    let rest = read_loop rs manual_kill' in if shutdown then manual_kill' else rest

-- What `write_all` does: it writes all of its bytes, or fails behind some of them.
pub data Written : Type 0 where
  whole : Written
  broken : ℕ → Written

abbrev pub written_part : Written → Text → Text
written_part whole bytes = bytes
written_part (broken n) bytes = take n bytes

-- A round of the writer's loop: the shutdown flag, the snapshot that it finds, and its two writes.
pub record WriteRound {ℓ} (S : Type ℓ) : Type ℓ where
  pub shutdown : Bool
  pub snapshot : S
  pub payload_write : Written
  pub newline_write : Written

-- What goes out with a payload and behind it. A newline is one byte: where it fails, it is not sent.
abbrev pub after_newline : Written → Text → Text
after_newline whole rest = 10 ∷ rest
after_newline (broken n) rest = []

abbrev pub after_payload : Text → Written → Written → Text → Text
after_payload bytes whole newline_write rest = bytes ++ after_newline newline_write rest
after_payload bytes (broken n) newline_write rest = take n bytes

module _ {ℓ} (S : Type ℓ) where
  -- What a connected monitor does, and what becomes of its socket.
  pub record Client : Type ℓ where
    pub cloned : Bool
    pub reads : List (ReadLine × Bool)
    pub writes : List (WriteRound S)

  pub data Accept : Type ℓ where
    connected : Client → Accept
    would_block : Accept
    refused : Accept

module _ {ℓ} {S : Type ℓ} (to_string : S → Option Text) where
  abbrev pub payload : S → Text
  payload s = unwrap_or (to_string s) []

  -- The bytes that the writer's loop sends.
  unfoldable pub write_loop : List (WriteRound S) → Text
  write_loop [] = []
  write_loop (r ∷ rs) =
      let rest = write_loop rs in
      if r.shutdown
      then []
      else after_payload (payload r.snapshot) r.payload_write r.newline_write rest

  -- `handle_client`, on the flag of the manual kill, with the bytes that it sends.
  unfoldable pub handle_client : Client S → Bool → Bool × Text
  handle_client c manual_kill =
      if c.cloned then (read_loop c.reads manual_kill, write_loop c.writes) else (manual_kill, [])

  -- The loop of `run_server`, over the shutdown flag that it sees and what `accept` returns. The
  -- clients' threads only ever raise the flag of the manual kill, so that their order is nothing to it.
  unfoldable pub accept_loop : List (Bool × Accept S) → Bool → Bool × List Text
  accept_loop [] manual_kill = (manual_kill, [])
  accept_loop ((true, a) ∷ rs) manual_kill = (manual_kill, [])
  accept_loop ((false, connected c) ∷ rs) manual_kill =
      let (killed, sent) = handle_client c manual_kill in
      let (killed', others) = accept_loop rs killed in (killed', sent ∷ others)
  accept_loop ((false, would_block) ∷ rs) manual_kill = accept_loop rs manual_kill
  accept_loop ((false, refused) ∷ rs) manual_kill = accept_loop rs manual_kill

  -- `run_server`; where it cannot bind its address, it returns.
  unfoldable pub run_server : Bool → List (Bool × Accept S) → Bool → Bool × List Text
  run_server bound rounds manual_kill =
      if bound then accept_loop rounds manual_kill else (manual_kill, [])
