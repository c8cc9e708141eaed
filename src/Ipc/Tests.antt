-- ===== src/Ipc/Tests.antt =====
-- Runs of the monitor server of engine/src/ipc.rs, and the theorems about it at two clients.
use high_frequency_market_ma.Prelude.{
  ℕ, zero, suc, All, ◌≡◌, ◌≢◌, ◌⊎◌, ◌↔◌, refl, true, false, [], ◌∷◌, map, arith,
}
use high_frequency_market_ma.Ipc.{
  is_whitespace, trim_start, trim, eq_ignore_ascii_case, closed, line, read_loop, payload,
  write_loop, Client, handle_client, accept_loop, run_server,
}
use high_frequency_market_ma.Ipc.Kill.{Accepted, Kills, run_server-kill}
use high_frequency_market_ma.Ipc.Samples.{print_braces, ping, mixed_kill, three_writes, two_clients}
use high_frequency_market_ma.Ipc.Lines.{read_lines, published, read_lines-write_loop}

trims : trim mixed_kill ≡ 107 ∷ 73 ∷ 108 ∷ 76 ∷ []
unfolding trim trim_start is_whitespace
trims = refl

not_killed :
    read_loop ((line ping, false) ∷ (closed, false) ∷ (line mixed_kill, false) ∷ []) false ≡ false
unfolding read_loop eq_ignore_ascii_case trim trim_start is_whitespace
not_killed = refl

sends : (run_server print_braces true two_clients false).1 ≡ (123 ∷ 125 ∷ 10 ∷ 10 ∷ 123 ∷ []) ∷ []
unfolding run_server accept_loop handle_client write_loop
sends = refl

run_server-kill_example :
    ((run_server print_braces true two_clients false).0 ≡ true)
    ↔ ((false ≡ true) ⊎ ((true ≡ true) × (c : Client ℕ) × Accepted two_clients c × Kills c))
run_server-kill_example = run_server-kill print_braces true two_clients false

print_braces-compact : (n : ℕ) → All (λ c. c ≢ 10) (payload print_braces n)
print_braces-compact zero = tt
print_braces-compact (suc n) = (λ e. omega arith, (λ e. omega arith, tt))

read_lines-write_loop_example :
    read_lines [] (write_loop print_braces three_writes)
    ≡ map (payload print_braces) (published three_writes)
read_lines-write_loop_example = read_lines-write_loop print_braces print_braces-compact three_writes
