-- ===== src/Strategy/Stop.antt =====
-- From the kill command of a monitor, in engine/src/ipc.rs, to what the strategy of
-- engine/src/main.rs sends.
use high_frequency_market_ma.Prelude.{
  ◌≡◌, refl, ap, ◌∙◌, Bool, true, false, Option, some, Option-cases, List, ◌∷◌, All, inl, inr,
}
use high_frequency_market_ma.Prelude.Int.{ℤ}
use high_frequency_market_ma.Float.{Float}
use high_frequency_market_ma.Types.{cancel_all}
use high_frequency_market_ma.Risk.{KillReason, KillSwitch, RiskMetrics, manual, evaluate}
use high_frequency_market_ma.Risk.Latch.{evaluate-latched, evaluate-armed}
use high_frequency_market_ma.Ipc.{Text, Accept, Client, run_server}
use high_frequency_market_ma.Ipc.Kill.{Accepted, Kills, run_server-kill}
use high_frequency_market_ma.Strategy.{Strategy, Pass, shadow_of, metrics_of, pass, passes}
use high_frequency_market_ma.Strategy.Decide.{decide-kill, passes-latched}

module _ {ℓ} {F : Type ℓ} ⦃f : Float F⦄ where
  -- An evaluation under the manual kill leaves the switch triggered, for the reason it returns.
  evaluate-manual :
      (ks : KillSwitch F) (i : ℤ) (m : RiskMetrics F) (k : Bool)
      → k ≡ true
      → (r : KillReason) × ((evaluate ks i m k).1 ≡ some r)
        × ((evaluate ks i m k).0.triggered ≡ some r)
  evaluate-manual ks i m k raised = elim (Option-cases ks.triggered) [
    | inl armed ↦
        let e = evaluate-armed ks i m k armed in
        (manual, ap (λ z. z.1) e ∙ rw raised refl, ap (λ z. z.0.triggered) e ∙ rw raised refl)
    | inr (r, latched) ↦
        let e = evaluate-latched ks i m k latched in
        (r, ap (λ z. z.1) e, ap (λ z. z.0.triggered) e ∙ latched)
  ]

  passes-manual :
      (st : Strategy F) (p : Pass F) (ps : List (Pass F))
      → p.manual_kill ≡ true
      → All (λ c. c ≡ some cancel_all) (passes st (p ∷ ps))
  unfolding passes pass
  passes-manual st p ps raised =
      let (r, kill, latched) =
        evaluate-manual st.kill_switch (shadow_of st p).inventory (metrics_of st p) p.manual_kill
          raised in
      (decide-kill (shadow_of st p) _ _ _ kill, passes-latched ps (pass st p).0 latched)

  -- Once a client that the monitor server accepted and whose socket it could clone has sent the
  -- kill command, a pass of the strategy that reads the flag, and every later pass, sends a
  -- cancellation of all quotes, whatever the feed, the snapshots and the clock bring.
  pub passes-run_server {κ} :
      {S : Type κ} (to_string : S → Option Text) (rounds : List (Bool × Accept S)) (c : Client S)
      (st : Strategy F) (p : Pass F) (ps : List (Pass F))
      → Accepted rounds c
      → Kills c
      → p.manual_kill ≡ (run_server to_string true rounds false).0
      → All (λ c. c ≡ some cancel_all) (passes st (p ∷ ps))
  passes-run_server to_string rounds c st p ps a k read =
      passes-manual st p ps
        (read ∙ (run_server-kill to_string true rounds false).1 (inr (refl, c, a, k)))
