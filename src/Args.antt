-- ===== src/Args.antt =====
-- The arguments of engine/src/main.rs: what `main` runs. An argument is the list of its codes.
pub mod Numeral
pub mod Flags
mod Tests
use high_frequency_market_ma.Prelude.{
  ℕ, zero, suc, ◌+◌, ◌-◌, ◌*◌, ◌^◌, Bool, true, false, ◌&&◌, Option, none, some, List, [], ◌∷◌,
  get_elem?, ltb, leb, ◌==◌, if◌then◌else◌, ◌>>=◌,
}
use mathlib.Core.Option
use high_frequency_market_ma.Ipc.{Text}

-- "--bench" and "--duration"
abbrev pub bench_flag : Text
bench_flag = 45 ∷ 45 ∷ 98 ∷ 101 ∷ 110 ∷ 99 ∷ 104 ∷ []

abbrev pub duration_flag : Text
duration_flag = 45 ∷ 45 ∷ 100 ∷ 117 ∷ 114 ∷ 97 ∷ 116 ∷ 105 ∷ 111 ∷ 110 ∷ []

unfoldable pub eq_text : Text → Text → Bool
eq_text [] [] = true
eq_text [] (d ∷ ds) = false
eq_text (c ∷ cs) [] = false
eq_text (c ∷ cs) (d ∷ ds) = c == d && eq_text cs ds

-- `args.iter().position(|a| a == flag)`
unfoldable pub position_of : Text → List Text → Option ℕ
position_of flag [] = none
position_of flag (a ∷ rest) =
    if eq_text a flag then some 0 else Option.map suc (position_of flag rest)

-- The digits behind a number that is read already; the product and the sum are checked.
unfoldable pub parse_digits : ℕ → Text → Option ℕ
parse_digits read [] = some read
parse_digits read (c ∷ cs) =
    let next = read * 10 + (c - 48) in
    let rest = parse_digits next cs in
    if leb 48 c && leb c 57 then (if ltb next (2 ^ 64) then rest else none) else none

-- `parse::<u64>().ok()`: a plus sign is allowed, and there is at least one digit.
abbrev pub parse_unsigned : Text → Option ℕ
parse_unsigned [] = none
parse_unsigned (c ∷ cs) = parse_digits 0 (c ∷ cs)

unfoldable pub parse_u64 : Text → Option ℕ
parse_u64 [] = none
parse_u64 (c ∷ cs) = if c == 43 then parse_unsigned cs else parse_unsigned (c ∷ cs)

unfoldable pub value_after : Text → List Text → Option ℕ
value_after flag args = do i ← position_of flag args; s ← get_elem? args (i + 1); parse_u64 s

-- The benchmark with a number of messages, or the engine, which may stop after some seconds.
pub data Mode : Type 0 where
  benchmark : ℕ → Mode
  engine : Option ℕ → Mode

abbrev pub unless_bench : Option ℕ → Option ℕ → Mode
unless_bench (some n) duration_secs = benchmark n
unless_bench none duration_secs = engine duration_secs

unfoldable pub main_mode : List Text → Mode
main_mode args = unless_bench (value_after bench_flag args) (value_after duration_flag args)
