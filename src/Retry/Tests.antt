-- ===== src/Retry/Tests.antt =====
-- Functions that fail at first.
use opensqt_market_maker.Common.{ℕ, zero, suc, ◌≡◌, refl, true, Option, none, some, [], ◌∷◌, String}
use opensqt_market_maker.Common.Int.{pos, ◌*ℤ◌}
use opensqt_market_maker.Common.Words.{to_i64}
use opensqt_market_maker.Retry.{RetryPolicy, do_retry, attempt_from, after_failure}
use opensqt_market_maker.Retry.Attempts.{IsAnswer, do_retry-IsAnswer}

-- Five attempts, with waits of 100, 200 and then 300 at most.
abbrev policy : RetryPolicy
policy = record { max_attempts = pos 5; initial_backoff = pos 100; max_backoff = pos 300 }

-- The fourth call succeeds.
abbrev fn : ℕ → Option String
fn zero = some "timeout"
fn (suc zero) = some "timeout"
fn (suc (suc zero)) = some "timeout"
fn (suc (suc (suc k))) = none

run :
    do_retry policy (λ _. true) fn (λ _. none)
    ≡ record { calls = 4; waits = pos 100 ∷ pos 200 ∷ pos 300 ∷ []; error = none }
unfolding do_retry attempt_from after_failure to_i64 ◌*ℤ◌
run = refl

do_retry-IsAnswer_example :
    IsAnswer policy (λ _. true) fn (λ _. none) 0 5 (do_retry policy (λ _. true) fn (λ _. none))
do_retry-IsAnswer_example = do_retry-IsAnswer policy (λ _. true) fn (λ _. none) 4 refl refl
