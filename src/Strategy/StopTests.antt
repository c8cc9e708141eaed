-- ===== src/Strategy/StopTests.antt =====
-- A kill command that reaches the book of the exchange: the strategy of engine/src/main.rs has sent a
-- quote, which rests, when it reads the flag.
use high_frequency_market_ma.Prelude.{◌≡◌, refl, ap, ap₂, true, false, some, [], ◌∷◌, All, arith}
use high_frequency_market_ma.Prelude.Int.{ℤ, pos}
use high_frequency_market_ma.Float.Whole.{whole}
use high_frequency_market_ma.Types.{quote, cancel_all}
use high_frequency_market_ma.OrderBook.Mirror.{flat}
use high_frequency_market_ma.MarketSim.Log.{no_loss}
use high_frequency_market_ma.MarketSim.Quoted.{commands_of}
use high_frequency_market_ma.MarketSim.QuoteTests.{
  clock, quoted_and_cancelled, exchange_after, cancelled-reads, cancelled-fits,
}
use high_frequency_market_ma.Ipc.{run_server}
use high_frequency_market_ma.Ipc.Samples.{
  print_braces, two_clients, killing_client, killing_client-Accepted, killing_client-Kills,
}
use high_frequency_market_ma.Strategy.{Pass, passes}
use high_frequency_market_ma.Strategy.Stop.{passes-run_server}
use high_frequency_market_ma.Strategy.Withdraw.{IsRun, Popped, run_server-withdraws}
use high_frequency_market_ma.Strategy.Tests.{first_strategy, quiet_pass}

abbrev killed_pass : Pass ℤ
killed_pass = record quiet_pass { manual_kill = (run_server print_braces true two_clients false).0 }

cancelled-IsRun : IsRun clock no_loss 20 3 1 (pos 10000) quoted_and_cancelled
cancelled-IsRun = record {
  small = omega arith;
  fits = cancelled-fits;
  in_time = omega (arith, cancelled-reads);
}

-- The command of the second pass is still in the ring.
cancelled-Popped :
    Popped quoted_and_cancelled (passes first_strategy (killed_pass ∷ quiet_pass ∷ []))
unfolding commands_of passes
cancelled-Popped =
    let sent =
      passes-run_server print_braces two_clients killing_client first_strategy killed_pass
        (quiet_pass ∷ []) killing_client-Accepted killing_client-Kills refl in
    record {
      old = quote (pos 9998) 5 (pos 10002) 5 ∷ [];
      first = cancel_all;
      rest = [];
      unread = some cancel_all ∷ [];
      popped = refl;
      in_order = ap₂ ◌∷◌ sent.0 (ap (λ c. c ∷ []) sent.1.0);
    }

run_server-withdraws_example :
    All (λ o. o.is_ours ≡ false) (flat (exchange_after quoted_and_cancelled).book.bids)
    × All (λ o. o.is_ours ≡ false) (flat (exchange_after quoted_and_cancelled).book.asks)
run_server-withdraws_example =
    run_server-withdraws print_braces two_clients killing_client first_strategy killed_pass
      (quiet_pass ∷ []) clock no_loss 20 3 1 (pos 10000) quoted_and_cancelled
      killing_client-Accepted killing_client-Kills refl cancelled-IsRun cancelled-Popped
