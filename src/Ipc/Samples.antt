-- ===== src/Ipc/Samples.antt =====
-- Monitors that connect to the server of engine/src/ipc.rs, for tests.
use high_frequency_market_ma.Prelude.{
  ℕ, zero, suc, inl, inr, refl, Bool, true, false, Option, none, some, List, [], ◌∷◌,
}
use high_frequency_market_ma.Ipc.{
  Text, is_whitespace, line, failed, whole, broken, WriteRound, Client, Accept, connected,
  would_block, refused,
}
use high_frequency_market_ma.Ipc.Command.{IsKill}
use high_frequency_market_ma.Ipc.Kill.{now, later, Accepted, first, further, Kills}

-- A snapshot is a number, and the text of it a pair of braces; 0 is one that cannot be printed.
abbrev pub print_braces : ℕ → Option Text
print_braces zero = none
print_braces (suc n) = some (123 ∷ 125 ∷ [])

-- "ping\n" and " kIlL\r\n"
abbrev pub ping : Text
ping = 112 ∷ 105 ∷ 110 ∷ 103 ∷ 10 ∷ []

abbrev pub mixed_kill : Text
mixed_kill = 32 ∷ 107 ∷ 73 ∷ 108 ∷ 76 ∷ 13 ∷ 10 ∷ []

-- The third write of this monitor fails behind its first byte.
abbrev pub three_writes : List (WriteRound ℕ)
three_writes =
    record { shutdown = false; snapshot = 1; payload_write = whole; newline_write = whole }
    ∷ record { shutdown = false; snapshot = 0; payload_write = whole; newline_write = whole }
    ∷ record { shutdown = false; snapshot = 2; payload_write = broken 1; newline_write = whole }
    ∷ record { shutdown = false; snapshot = 3; payload_write = whole; newline_write = whole }
    ∷ []

abbrev pub killing_client : Client ℕ
killing_client = record {
  cloned = true;
  reads = (line ping, false) ∷ (line mixed_kill, false) ∷ (failed, false) ∷ [];
  writes = three_writes;
}

abbrev pub two_clients : List (Bool × Accept ℕ)
two_clients = (false, would_block) ∷ (false, connected killing_client) ∷ (true, refused) ∷ []

mixed_kill-IsKill : IsKill mixed_kill
unfolding is_whitespace
mixed_kill-IsKill = (
  32 ∷ [],
  107,
  73,
  108,
  76,
  13 ∷ 10 ∷ [],
  refl,
  (refl, tt),
  (refl, (refl, tt)),
  inr refl,
  inl refl,
  inr refl,
  inl refl,
)

pub killing_client-Kills : Kills killing_client
killing_client-Kills = record {
  cloned = refl;
  text = mixed_kill;
  heard = later now;
  command = mixed_kill-IsKill;
}

pub killing_client-Accepted : Accepted two_clients killing_client
killing_client-Accepted = further first
