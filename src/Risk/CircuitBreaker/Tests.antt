-- ===== src/Risk/CircuitBreaker/Tests.antt =====
-- The breaker on decimals that count tenths.
use opensqt_market_maker.Common.{◌≡◌, refl, List, [], ◌∷◌, arith, false}
use opensqt_market_maker.Common.Int.{ℤ, pos, negsuc, ◌+ℤ◌, ◌-ℤ◌}
use opensqt_market_maker.Common.Words.{to_i64}
use opensqt_market_maker.Num.Fixed.{fixed}
use opensqt_market_maker.Risk.CircuitBreaker.{
  circuit_open, CircuitConfig, CircuitBreaker, Call, trades, opens, new_circuit_breaker,
  cooled_down, is_tripped, step, run,
}
use opensqt_market_maker.Risk.CircuitBreaker.Thresholds.{
  IsValidConfig, WithinLimits, new-IsGuarded, trade_calls, run-WithinLimits, losing_run_trips,
}
use opensqt_market_maker.Risk.CircuitBreaker.Cooldown.{is_tripped_until_cooldown}
use opensqt_market_maker.Risk.CircuitBreaker.Percent.{with_percent, run-with_percent}

-- Two losses in a row, a drawdown of 5, a cooldown of 100.
abbrev config : CircuitConfig ℤ
config = record {
  max_consecutive_losses = pos 2;
  max_drawdown_amount = pos 50;
  max_drawdown_percent = pos 1;
  cooldown_period = pos 100;
}

abbrev fresh : CircuitBreaker ℤ
fresh = new_circuit_breaker fixed (pos 0) config

config-IsValidConfig : IsValidConfig fixed config
config-IsValidConfig = record { losses_fit = omega arith; drawdown_limit = refl }

abbrev mixed : List (ℤ × Call fixed)
mixed = (pos 1, trades (negsuc 9)) ∷ (pos 2, trades (pos 5)) ∷ (pos 3, trades (negsuc 9)) ∷ []

run-WithinLimits_example :
    WithinLimits fixed (run fixed mixed (new_circuit_breaker fixed (pos 0) config))
run-WithinLimits_example =
    run-WithinLimits fixed (pos 0) config mixed config-IsValidConfig
      (unfold run step new_circuit_breaker ◌+ℤ◌ to_i64 in refl)

abbrev losses : List (ℤ × ℤ)
losses = (pos 1, negsuc 9) ∷ (pos 2, negsuc 4) ∷ []

losing_run_trips_example : (run fixed (trade_calls fixed losses) fresh).state ≡ circuit_open
losing_run_trips_example =
    losing_run_trips fixed losses fresh (new-IsGuarded fixed (pos 0) config config-IsValidConfig)
      (unfold new_circuit_breaker in omega arith) (refl, (refl, tt))
      (unfold new_circuit_breaker in omega arith)

-- The breaker after it was tripped by hand at time 10.
abbrev tripped : CircuitBreaker ℤ
tripped = step fixed (pos 10) opens fresh

is_tripped_until_cooldown_example :
    (is_tripped fixed (pos 200) (run fixed (trade_calls fixed losses) tripped)).1 ≡ false
unfolding step cooled_down new_circuit_breaker ◌-ℤ◌
is_tripped_until_cooldown_example =
    (is_tripped_until_cooldown fixed losses tripped (pos 200) refl).0

run-with_percent_example :
    run fixed mixed (with_percent fixed (pos 7) fresh)
    ≡ with_percent fixed (pos 7) (run fixed mixed fresh)
run-with_percent_example = run-with_percent fixed (pos 7) mixed fresh
