-- ===== src/Risk/CircuitBreaker/Percent.antt =====
-- The configured MaxDrawdownPercent.
use opensqt_market_maker.Common.{◌≡◌, refl, ap, List, [], ◌∷◌, arith, ◌∙◌}
use opensqt_market_maker.Common.Int.{ℤ}
use opensqt_market_maker.Num.{Num}
use opensqt_market_maker.Risk.CircuitBreaker.{
  CircuitBreaker, Call, trades, asks, resets, opens, cooled_down, step, run,
}

module _ (n : Num) (percent : n.D) where
  open n use {D}

  abbrev pub with_percent : CircuitBreaker D → CircuitBreaker D
  with_percent cb = record cb { config = record (cb.config) { max_drawdown_percent = percent } }

  step-with_percent :
      (now : ℤ) (c : Call n) (cb : CircuitBreaker D)
      → step n now c (with_percent cb) ≡ with_percent (step n now c cb)
  unfolding step cooled_down
  step-with_percent now (trades pnl) cb = ground arith
  step-with_percent now asks cb = ground arith
  step-with_percent now resets cb = refl
  step-with_percent now opens cb = refl

  -- The drawdown percentage plays no part: under any calls, a breaker with another percentage in
  -- its configuration goes through the same states, but for that field.
  pub run-with_percent :
      (cs : List (ℤ × Call n)) (cb : CircuitBreaker D)
      → run n cs (with_percent cb) ≡ with_percent (run n cs cb)
  unfolding run
  run-with_percent [] cb = refl
  run-with_percent ((now, c) ∷ cs) cb =
      ap (run n cs) (step-with_percent now c cb) ∙ run-with_percent cs (step n now c cb)
