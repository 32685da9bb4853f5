-- ===== src/Risk/CircuitBreaker/Cooldown.antt =====
-- How long a tripped breaker blocks trading.
use opensqt_market_maker.Common.{◌≡◌, refl, true, false, not, List, [], ◌∷◌, arith}
use opensqt_market_maker.Common.Int.{ℤ, pos}
use opensqt_market_maker.Num.{Num}
use opensqt_market_maker.Risk.CircuitBreaker.{
  circuit_closed, circuit_open, CircuitBreaker, record_trade, cooled_down, is_tripped, step, run,
}
use opensqt_market_maker.Risk.CircuitBreaker.Thresholds.{trade_calls}

module _ (n : Num) where
  open n use {D, zero}

  -- What trades leave alone in an open breaker.
  record StillOpen (cb after : CircuitBreaker D) : Type 0 where
    state : after.state ≡ circuit_open
    since : after.last_tripped ≡ cb.last_tripped
    config : after.config ≡ cb.config

  record_trade-StillOpen :
      (now : ℤ) (pnl : D) (cb after : CircuitBreaker D)
      → StillOpen cb after
      → StillOpen cb (record_trade n now pnl after)
  unfolding record_trade
  record_trade-StillOpen now pnl cb after s = ground arith

  run-StillOpen :
      (ts : List (ℤ × D)) (cb after : CircuitBreaker D)
      → StillOpen cb after
      → StillOpen cb (run n (trade_calls n ts) after)
  unfolding run step
  run-StillOpen [] cb after s = s
  run-StillOpen ((now, pnl) ∷ ts) cb after s =
      run-StillOpen ts cb _ (record_trade-StillOpen now pnl cb after s)

  -- Of an open breaker, after any trades, IsTripped answers no exactly when the cooldown that
  -- counts from the trip is over; it then closes the breaker with its counters at zero, and
  -- otherwise leaves the breaker as the trades left it.
  pub is_tripped_until_cooldown :
      (ts : List (ℤ × D)) (cb : CircuitBreaker D) (now : ℤ)
      → cb.state ≡ circuit_open
      → let after = run n (trade_calls n ts) cb in
        ((is_tripped n now after).1 ≡ not (cooled_down n now cb))
        × (cooled_down n now cb ≡ false → (is_tripped n now after).0 ≡ after)
        × (cooled_down n now cb ≡ true
            → (is_tripped n now after).0 ≡ record after {
              state = circuit_closed;
              consecutive_losses = pos 0;
              total_pnl = zero;
            })
  unfolding is_tripped cooled_down
  is_tripped_until_cooldown ts cb now open_now =
      let s = run-StillOpen ts cb cb (record { state = open_now; since = refl; config = refl }) in
      (ground arith, λ e. ground arith, λ e. ground arith)
