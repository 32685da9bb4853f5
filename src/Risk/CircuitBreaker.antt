-- ===== src/Risk/CircuitBreaker.antt =====
-- market_maker/internal/risk/circuit_breaker.go. The clock is the argument `now`, in nanoseconds;
-- the gauges that telemetry keeps are left out, as nothing reads them back.
pub mod Thresholds
pub mod Cooldown
pub mod Percent
mod Tests
use Prim.Native.Nat.{Ordering}
use opensqt_market_maker.Common.{
  ℕ, Bool, true, false, not, ◌&&◌, List, [], ◌∷◌, String, if◌then◌else◌, Option,
}
use opensqt_market_maker.Common.Int.{ℤ, pos, ◌+ℤ◌, ◌-ℤ◌, ltb_ℤ, leb_ℤ}
use opensqt_market_maker.Common.Words.{to_i64, to_i32}
use opensqt_market_maker.Num.{Num, less_than, is_zero, is_negative}
use opensqt_market_maker.Pb.Convert.{from_go_decimal}

pub data CircuitState : Type 0 where
  circuit_closed circuit_open : CircuitState

pub record CircuitConfig (D : Type 0) : Type 0 where
  pub max_consecutive_losses : ℤ
  pub max_drawdown_amount : D
  pub max_drawdown_percent : D
  pub cooldown_period : ℤ

pub record CircuitBreaker (D : Type 0) : Type 0 where
  pub state : CircuitState
  pub config : CircuitConfig D
  pub consecutive_losses : ℤ
  pub total_pnl : D
  pub last_tripped : ℤ

-- pb.CircuitBreakerStatus
pub record CircuitBreakerStatus : Type 0 where
  pub is_open : Bool
  pub losses : ℤ
  pub pnl : Option String
  pub opened_at : ℤ

abbrev pub is_circuit_open : CircuitState → Bool
is_circuit_open circuit_open = true
is_circuit_open circuit_closed = false

module _ (n : Num) where
  open n use {D, zero, add, neg}

  -- The zero time.Time is `zero_time`.
  unfoldable pub new_circuit_breaker : ℤ → CircuitConfig D → CircuitBreaker D
  new_circuit_breaker zero_time config = record {
    state = circuit_closed;
    config = config;
    consecutive_losses = pos 0;
    total_pnl = zero;
    last_tripped = zero_time;
  }

  unfoldable pub trip : ℤ → CircuitBreaker D → CircuitBreaker D
  trip now cb = record cb { state = circuit_open; last_tripped = now }

  unfoldable pub check_thresholds : ℤ → CircuitBreaker D → CircuitBreaker D
  unfolding trip
  check_thresholds now cb =
      if is_circuit_open cb.state
      then cb
      else if ltb_ℤ (pos 0) c.max_consecutive_losses
          && leb_ℤ c.max_consecutive_losses cb.consecutive_losses
      then trip now cb
      else if not (is_zero n c.max_drawdown_amount)
          && less_than n cb.total_pnl (neg c.max_drawdown_amount)
      then trip now cb
      else cb
    where
      c : CircuitConfig D
      c = cb.config

  unfoldable pub record_trade : ℤ → D → CircuitBreaker D → CircuitBreaker D
  unfolding check_thresholds
  record_trade now pnl cb = check_thresholds now (record cb {
    consecutive_losses =
        if is_negative n pnl then to_i64 (cb.consecutive_losses +ℤ pos 1) else pos 0;
    total_pnl = add cb.total_pnl pnl;
  })

  unfoldable pub reset : CircuitBreaker D → CircuitBreaker D
  reset cb = record cb { state = circuit_closed; consecutive_losses = pos 0; total_pnl = zero }

  -- time.Since(cb.lastTripped) > cb.config.CooldownPeriod, with a cooldown configured.
  unfoldable pub cooled_down : ℤ → CircuitBreaker D → Bool
  cooled_down now cb =
      ltb_ℤ (pos 0) cb.config.cooldown_period
      && ltb_ℤ cb.config.cooldown_period (now -ℤ cb.last_tripped)

  unfoldable pub is_tripped : ℤ → CircuitBreaker D → CircuitBreaker D × Bool
  unfolding reset
  is_tripped now cb =
      if is_circuit_open cb.state
      then (if cooled_down now cb then (reset cb, false) else (cb, true))
      else (cb, false)

  -- Open
  unfoldable pub open_circuit : ℤ → CircuitBreaker D → CircuitBreaker D
  unfolding trip
  open_circuit now cb = trip now cb

  -- cb.lastTripped.Unix() is `unix` of the time.
  unfoldable pub get_status : (ℤ → ℤ) → CircuitBreaker D → CircuitBreakerStatus
  get_status unix cb = record {
    is_open = is_circuit_open cb.state;
    losses = to_i32 cb.consecutive_losses;
    pnl = from_go_decimal n cb.total_pnl;
    opened_at = unix cb.last_tripped;
  }

  -- The calls that other components make, each at its time.
  pub data Call : Type 0 where
    trades : D → Call
    asks resets opens : Call

  unfoldable pub step : ℤ → Call → CircuitBreaker D → CircuitBreaker D
  unfolding record_trade is_tripped reset open_circuit
  step now (trades pnl) cb = record_trade now pnl cb
  step now asks cb = (is_tripped now cb).0
  step now resets cb = reset cb
  step now opens cb = open_circuit now cb

  unfoldable pub run : List (ℤ × Call) → CircuitBreaker D → CircuitBreaker D
  run [] cb = cb
  run ((now, c) ∷ cs) cb = run cs (step now c cb)
