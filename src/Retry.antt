-- ===== src/Retry.antt =====
-- market_maker/pkg/retry/retry.go: Do. The function that is tried and the context answer by the number
-- of the attempt; a duration is an int64 of nanoseconds.
pub mod Attempts
mod Tests
use opensqt_market_maker.Common.{
  ℕ, zero, suc, Bool, true, false, Option, none, some, List, [], ◌∷◌, if◌then◌else◌,
}
use opensqt_market_maker.Common.Int.{ℤ, pos, negsuc, ◌*ℤ◌, ltb_ℤ}
use opensqt_market_maker.Common.Words.{to_i64}

pub record RetryPolicy : Type 0 where
  pub max_attempts : ℤ
  pub initial_backoff : ℤ
  pub max_backoff : ℤ

abbrev pub min : ℤ → ℤ → ℤ
min a b = if ltb_ℤ a b then a else b

-- What a call has done: how often it called the function, how long it waited before each further
-- attempt, and the error that it returned.
pub record Done (E : Type 0) : Type 0 where
  pub calls : ℕ
  pub waits : List ℤ
  pub error : Option E

module _ {E : Type 0} where
  abbrev pub add_wait : ℤ → Done E → Done E
  add_wait t d = record d { waits = t ∷ d.waits }

  module _ (policy : RetryPolicy) (is_transient : E → Bool) (fn : ℕ → Option E)
      (ctx : ℕ → Option E) where
    -- What ends the loop after the error `e` of attempt `k`, if attempts are left: an error that is
    -- not transient, or a context that is done during the wait.
    unfoldable pub after_failure : E → ℕ → Option E
    after_failure e k = if is_transient e then ctx k else some e

    -- The loop from attempt `k` on, with `left` attempts left and the last error so far.
    unfoldable pub attempt_from : ℕ → ℕ → ℤ → Option E → Done E
    attempt_from zero k backoff last = record { calls = k; waits = []; error = last }
    attempt_from (suc zero) k backoff last = record { calls = suc k; waits = []; error = fn k }
    attempt_from (suc (suc left)) k backoff last =
        let rest =
          attempt_from (suc left) (suc k) (min (to_i64 (backoff *ℤ pos 2)) policy.max_backoff)
            (fn k) in
        elim (fn k) [
          | none ↦ record { calls = suc k; waits = []; error = none }
          | some e ↦ elim (after_failure e k) [
            | some r ↦ record { calls = suc k; waits = []; error = some r }
            | none ↦ add_wait backoff rest
          ]
        ]

    -- How often the loop's condition holds: `attempt < MaxAttempts`.
    abbrev pub rounds : ℤ → ℕ
    rounds (pos k) = k
    rounds (negsuc k) = 0

    unfoldable pub do_retry : Done E
    unfolding attempt_from after_failure
    do_retry = attempt_from (rounds policy.max_attempts) 0 policy.initial_backoff none
