-- ===== src/Risk/CircuitBreaker/Thresholds.antt =====
-- When the breaker trips.
use opensqt_market_maker.Common.{
  ℕ, suc, ◌+◌, ◌≤◌, ◌<◌, ◌≡◌, refl, Bool, true, false, List, [], ◌∷◌, arith, map, length, All,
  if◌then◌else◌,
}
use opensqt_market_maker.Common.Int.{ℤ, pos, negsuc, pos_part, neg_part, ◌+ℤ◌}
use opensqt_market_maker.Common.Words.{to_i64, max_i64}
use opensqt_market_maker.Num.{Num, less_than, is_zero, is_negative}
use opensqt_market_maker.Risk.CircuitBreaker.{
  circuit_closed, circuit_open, CircuitConfig, CircuitBreaker, Call, trades, asks, resets, opens,
  new_circuit_breaker, check_thresholds, record_trade, step, run,
}

module _ (n : Num) where
  open n use {D, zero, neg, cmp}

  -- A limit on losses that an int holds, and a drawdown limit that is no negative amount.
  pub record IsValidConfig (c : CircuitConfig D) : Type 0 where
    pub losses_fit : pos_part c.max_consecutive_losses ≤ max_i64
    pub drawdown_limit : less_than n zero (neg c.max_drawdown_amount) ≡ false

  -- Each limit that is set is respected: fewer losses in a row than allowed, and a total that is
  -- not below the drawdown.
  pub record WithinLimits (cb : CircuitBreaker D) : Type 0 where
    pub few_losses :
        0 < pos_part cb.config.max_consecutive_losses
        → (neg_part cb.consecutive_losses ≡ 0)
          × (pos_part cb.consecutive_losses < pos_part cb.config.max_consecutive_losses)
    pub small_drawdown :
        is_zero n cb.config.max_drawdown_amount ≡ false
        → less_than n cb.total_pnl (neg cb.config.max_drawdown_amount) ≡ false

  -- The limits are valid, and a closed breaker is within them.
  pub record IsGuarded (cb : CircuitBreaker D) : Type 0 where
    pub valid : IsValidConfig cb.config
    pub within : cb.state ≡ circuit_closed → WithinLimits cb

  pub new-IsGuarded :
      (t : ℤ) (c : CircuitConfig D) → IsValidConfig c → IsGuarded (new_circuit_breaker n t c)
  unfolding new_circuit_breaker
  new-IsGuarded t c v = record { valid = v; within = λ _. ground arith }

  fits : (a : ℕ) → a < max_i64 → to_i64 (pos a +ℤ pos 1) ≡ pos (suc a)
  unfolding to_i64 ◌+ℤ◌
  fits a h = ground arith

  check_thresholds-IsGuarded :
      (now : ℤ) (cb : CircuitBreaker D)
      → IsValidConfig cb.config
      → (cb.state ≡ circuit_closed
          → 0 < pos_part cb.config.max_consecutive_losses
          → neg_part cb.consecutive_losses ≡ 0)
      → IsGuarded (check_thresholds n now cb)
  unfolding check_thresholds
  check_thresholds-IsGuarded now cb v h = record {
    valid = ground arith;
    within = λ e. ground arith;
  }

  record_trade-IsGuarded :
      (now : ℤ) (pnl : D) (cb : CircuitBreaker D)
      → IsGuarded cb
      → IsGuarded (record_trade n now pnl cb)
  unfolding record_trade
  record_trade-IsGuarded now pnl cb g = check_thresholds-IsGuarded now _ g.valid (λ closed limited.
      counted (is_negative n pnl) cb.consecutive_losses ((g.within closed).few_losses limited)
        g.valid.losses_fit)
    where
      counted :
          {m : ℕ} (b : Bool) (l : ℤ)
          → (neg_part l ≡ 0) × (pos_part l < m)
          → m ≤ max_i64
          → neg_part (if b then to_i64 (l +ℤ pos 1) else pos 0) ≡ 0
      counted true (pos a) h k = rw (fits a (omega arith))
      counted true (negsuc a) h k = absurd (omega arith)
      counted false l h k = refl

  step-IsGuarded :
      (now : ℤ) (c : Call n) (cb : CircuitBreaker D) → IsGuarded cb → IsGuarded (step n now c cb)
  unfolding step
  step-IsGuarded now (trades pnl) cb g = record_trade-IsGuarded now pnl cb g
  step-IsGuarded now asks cb g = record {
    valid = ground arith;
    within = λ e. ground (arith, g.within);
  }
  step-IsGuarded now resets cb g = record { valid = g.valid; within = λ e. ground arith }
  step-IsGuarded now opens cb g = record { valid = g.valid; within = λ e. ground arith }

  run-IsGuarded :
      (cs : List (ℤ × Call n)) (cb : CircuitBreaker D) → IsGuarded cb → IsGuarded (run n cs cb)
  unfolding run
  run-IsGuarded [] cb g = g
  run-IsGuarded ((now, c) ∷ cs) cb g = run-IsGuarded cs _ (step-IsGuarded now c cb g)

  -- Whatever calls a new breaker has had, at whatever times, if it is closed then the losses in a
  -- row are fewer than the limit, where one is set, and the total is not below the negated
  -- drawdown amount, where one is set. The configured drawdown is no negative amount.
  pub run-WithinLimits :
      (t : ℤ) (c : CircuitConfig D) (cs : List (ℤ × Call n))
      → IsValidConfig c
      → (run n cs (new_circuit_breaker n t c)).state ≡ circuit_closed
      → WithinLimits (run n cs (new_circuit_breaker n t c))
  run-WithinLimits t c cs v closed = (run-IsGuarded cs _ (new-IsGuarded t c v)).within closed

  record_trade-config :
      (now : ℤ) (pnl : D) (cb : CircuitBreaker D) → (record_trade n now pnl cb).config ≡ cb.config
  unfolding record_trade
  record_trade-config now pnl cb = ground arith

  -- A loss opens the breaker, or counts one more.
  record_trade_loss :
      (now : ℤ) (pnl : D) (cb : CircuitBreaker D)
      → is_negative n pnl ≡ true
      → IsGuarded cb
      → 0 < pos_part cb.config.max_consecutive_losses
      → (record_trade n now pnl cb).state ≡ circuit_closed
      → (cb.state ≡ circuit_closed)
        × (pos_part (record_trade n now pnl cb).consecutive_losses
            ≡ suc (pos_part cb.consecutive_losses))
  unfolding record_trade
  record_trade_loss now pnl cb loss g limited e =
      let closed : cb.state ≡ circuit_closed = ground arith in
      (closed, ground (arith, counts cb.consecutive_losses ((g.within closed).few_losses limited)))
    where
      counts :
          (l : ℤ)
          → (neg_part l ≡ 0) × (pos_part l < pos_part cb.config.max_consecutive_losses)
          → pos_part (to_i64 (l +ℤ pos 1)) ≡ suc (pos_part l)
      counts (pos a) h = rw (fits a (omega (arith, g.valid.losses_fit)))
      counts (negsuc a) h = absurd (omega arith)

  -- Each trade with the time it is recorded at.
  abbrev pub trade_calls : List (ℤ × D) → List (ℤ × Call n)
  trade_calls = map (λ t. (t.0, trades t.1))

  losing_run_opens :
      (ts : List (ℤ × D)) (cb : CircuitBreaker D)
      → IsGuarded cb
      → 0 < pos_part cb.config.max_consecutive_losses
      → All (λ t. is_negative n t.1 ≡ true) ts
      → (cb.state ≡ circuit_closed
          → pos_part cb.config.max_consecutive_losses ≤ pos_part cb.consecutive_losses + length ts)
      → (run n (trade_calls ts) cb).state ≡ circuit_open
  unfolding run step
  losing_run_opens [] cb g limited losing enough = ground (arith, g.within, enough)
  losing_run_opens ((now, pnl) ∷ ts) cb g limited losing enough =
      losing_run_opens ts (record_trade n now pnl cb) (record_trade-IsGuarded now pnl cb g)
        (rw (record_trade-config now pnl cb) limited) losing.1
        (λ closed.
          let (was, count) = record_trade_loss now pnl cb losing.0 g limited closed in
          rw (record_trade-config now pnl cb, count) (omega (arith, enough was)))

  -- A breaker that is guarded and has a limit on losses is open after as many losing trades in a
  -- row as are left to the limit, whatever the amounts and times.
  pub losing_run_trips :
      (ts : List (ℤ × D)) (cb : CircuitBreaker D)
      → IsGuarded cb
      → 0 < pos_part cb.config.max_consecutive_losses
      → All (λ t. is_negative n t.1 ≡ true) ts
      → pos_part cb.config.max_consecutive_losses ≤ pos_part cb.consecutive_losses + length ts
      → (run n (trade_calls ts) cb).state ≡ circuit_open
  losing_run_trips ts cb g limited losing enough =
      losing_run_opens ts cb g limited losing (λ _. enough)
