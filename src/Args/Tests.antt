-- ===== src/Args/Tests.antt =====
-- Command lines of engine/src/main.rs, and the theorem about them at one.
use high_frequency_market_ma.Prelude.{ℕ, ◌≡◌, ◌↔◌, refl, some, none, List, [], ◌∷◌}
use high_frequency_market_ma.Ipc.{Text}
use high_frequency_market_ma.Args.{
  bench_flag, duration_flag, eq_text, position_of, parse_digits, parse_u64, value_after, benchmark,
  engine, main_mode,
}
use high_frequency_market_ma.Args.Flags.{Gives, main_mode-chooses}

-- "mm_engine", "+12", "12s" and 2 ^ 64 in decimal
abbrev program : Text
program = 109 ∷ 109 ∷ 95 ∷ 101 ∷ 110 ∷ 103 ∷ 105 ∷ 110 ∷ 101 ∷ []

abbrev plus_twelve : Text
plus_twelve = 43 ∷ 49 ∷ 50 ∷ []

abbrev seconds : Text
seconds = 49 ∷ 50 ∷ 115 ∷ []

abbrev too_large : Text
too_large =
    49 ∷ 56 ∷ 52 ∷ 52 ∷ 54 ∷ 55 ∷ 52 ∷ 52 ∷ 48 ∷ 55 ∷ 51 ∷ 55 ∷ 48 ∷ 57 ∷ 53 ∷ 53 ∷ 49 ∷ 54 ∷ 49
    ∷ 54 ∷ []

benches : main_mode (program ∷ bench_flag ∷ plus_twelve ∷ []) ≡ benchmark 12
unfolding main_mode value_after position_of eq_text parse_u64 parse_digits
benches = refl

-- A number that cannot be read is passed over.
falls_through :
    main_mode (program ∷ bench_flag ∷ too_large ∷ duration_flag ∷ plus_twelve ∷ [])
    ≡ engine (some 12)
unfolding main_mode value_after position_of eq_text parse_u64 parse_digits
falls_through = refl

endless : main_mode (program ∷ duration_flag ∷ seconds ∷ []) ≡ engine none
unfolding main_mode value_after position_of eq_text parse_u64 parse_digits
endless = refl

abbrev bench_twelve : List Text
bench_twelve = program ∷ bench_flag ∷ plus_twelve ∷ []

main_mode-chooses_example :
    ((main_mode bench_twelve ≡ benchmark 12) ↔ Gives bench_flag bench_twelve 12)
    × ((main_mode bench_twelve ≡ engine (some 12))
        ↔ (((m : ℕ) → ¬ Gives bench_flag bench_twelve m) × Gives duration_flag bench_twelve 12))
main_mode-chooses_example = main_mode-chooses bench_twelve 12
