-- ===== src/Retry/Attempts.antt =====
-- How often Do tries, and what it returns.
use opensqt_market_maker.Common.{
  ℕ, zero, suc, ◌+◌, ◌≤◌, ◌≡◌, ◌≢◌, refl, subst, sym, ap, ◌⊎◌, inl, inr, Bool, true, Option, none,
  some, [], arith, length, All, Option-cases,
}
use opensqt_market_maker.Common.Int.{ℤ, pos, leb_ℤ, ◌*ℤ◌}
use opensqt_market_maker.Common.Words.{to_i64}
use opensqt_market_maker.Retry.{
  RetryPolicy, Done, add_wait, min, after_failure, attempt_from, rounds, do_retry,
}

module _ {E : Type 0} (policy : RetryPolicy) (is_transient : E → Bool) (fn : ℕ → Option E)
    (ctx : ℕ → Option E) where
  -- The cases of an attempt after which others may follow.
  succeeds :
      (left k : ℕ) (backoff : ℤ) (last : Option E)
      → fn k ≡ none
      → attempt_from policy is_transient fn ctx (suc (suc left)) k backoff last
        ≡ record { calls = suc k; waits = []; error = none }
  unfolding attempt_from
  succeeds left k backoff last e = rw (e, attempt_from) refl

  stops :
      (left k : ℕ) (backoff : ℤ) (last : Option E) (e r : E)
      → fn k ≡ some e
      → after_failure policy is_transient fn ctx e k ≡ some r
      → attempt_from policy is_transient fn ctx (suc (suc left)) k backoff last
        ≡ record { calls = suc k; waits = []; error = some r }
  unfolding attempt_from
  stops left k backoff last e r f a = rw (f, a, attempt_from) refl

  goes_on :
      (left k : ℕ) (backoff : ℤ) (last : Option E) (e : E)
      → fn k ≡ some e
      → after_failure policy is_transient fn ctx e k ≡ none
      → attempt_from policy is_transient fn ctx (suc (suc left)) k backoff last
        ≡ add_wait backoff (
            attempt_from policy is_transient fn ctx
              (suc left)
              (suc k)
              (min (to_i64 (backoff *ℤ pos 2)) policy.max_backoff)
              (some e))
  unfolding attempt_from
  goes_on left k backoff last e f a =
      rw (f, a, attempt_from)
        (ap
          (λ x. add_wait backoff (
            attempt_from policy is_transient fn ctx (suc left) (suc k)
              (min (to_i64 (backoff *ℤ pos 2)) policy.max_backoff) x))
          f)

  -- What is returned is the answer of the last call, or the error of the context after it; a wait
  -- lies between two calls; and no wait is longer than the policy's.
  pub record IsAnswer (k bound : ℕ) (d : Done E) : Type 0 where
    pub last_call : ℕ
    pub is_last : d.calls ≡ suc last_call
    pub bounded : d.calls ≤ bound
    pub waited : length d.waits + suc k ≡ d.calls
    pub short : All (λ t. leb_ℤ t policy.max_backoff ≡ true) d.waits
    pub answer : (d.error ≡ fn last_call) ⊎ ((d.error ≡ ctx last_call) × (ctx last_call ≢ none))

  at_once :
      (k bound : ℕ) (r : Option E)
      → suc k ≤ bound
      → (r ≡ fn k) ⊎ ((r ≡ ctx k) × (ctx k ≢ none))
      → IsAnswer k bound (record { calls = suc k; waits = []; error = r })
  at_once k bound r h a = record {
    last_call = k;
    is_last = refl;
    bounded = h;
    waited = omega arith;
    short = tt;
    answer = a;
  }

  after_wait :
      (k bound : ℕ) (t : ℤ) (d : Done E)
      → leb_ℤ t policy.max_backoff ≡ true
      → IsAnswer (suc k) bound d
      → IsAnswer k bound (add_wait t d)
  after_wait k bound t d h w = record {
    last_call = w.last_call;
    is_last = w.is_last;
    bounded = w.bounded;
    waited = omega (arith, w.waited);
    short = (h, w.short);
    answer = w.answer;
  }

  min-le : (a b : ℤ) → leb_ℤ (min a b) b ≡ true
  min-le a b = ground arith

  failure-answer :
      (e r : E) (k : ℕ)
      → fn k ≡ some e
      → after_failure policy is_transient fn ctx e k ≡ some r
      → (some r ≡ fn k) ⊎ ((some r ≡ ctx k) × (ctx k ≢ none))
  unfolding after_failure
  failure-answer e r k f a = ground arith

  attempts-IsAnswer :
      (left k : ℕ) (backoff : ℤ) (last : Option E)
      → leb_ℤ backoff policy.max_backoff ≡ true
      → IsAnswer k
          (k + suc left)
          (attempt_from policy is_transient fn ctx (suc left) k backoff last)
  attempts-IsAnswer zero k backoff last h =
      unfold attempt_from in at_once k (k + 1) (fn k) (omega arith) (inl refl)
  attempts-IsAnswer (suc left) k backoff last h = elim (Option-cases (fn k)) [
    | inl f ↦
        rw (succeeds left k backoff last f)
          (at_once k (k + suc (suc left)) none (omega arith) (inl (sym f)))
    | inr (e, f) ↦ elim (Option-cases (after_failure policy is_transient fn ctx e k)) [
      | inr (r, a) ↦
          rw (stops left k backoff last e r f a)
            (at_once k (k + suc (suc left)) (some r) (omega arith) (failure-answer e r k f a))
      | inl a ↦
          let next_done =
            attempt_from policy is_transient fn ctx (suc left) (suc k)
              (min (to_i64 (backoff *ℤ pos 2)) policy.max_backoff) (some e) in
          let rest =
            attempts-IsAnswer left (suc k) (min (to_i64 (backoff *ℤ pos 2)) policy.max_backoff)
              (some e) (min-le (to_i64 (backoff *ℤ pos 2)) policy.max_backoff) in
          rw (goes_on left k backoff last e f a) (
            after_wait k (k + suc (suc left)) backoff next_done h
              (subst (λ b. IsAnswer (suc k) b next_done) (omega arith) rest))
    ]
  ]

  -- If at least one attempt is allowed and the first wait is not longer than the longest, Do calls
  -- the function at most as often as the policy says and returns the answer of its last call, or
  -- the error of the context that was done after it. It waits once between two calls, and never
  -- longer than the longest wait.
  pub do_retry-IsAnswer :
      (left : ℕ)
      → policy.max_attempts ≡ pos (suc left)
      → leb_ℤ policy.initial_backoff policy.max_backoff ≡ true
      → IsAnswer 0 (suc left) (do_retry policy is_transient fn ctx)
  unfolding do_retry
  do_retry-IsAnswer left e h =
      subst
        (λ a. IsAnswer 0 (suc left) (
          attempt_from policy is_transient fn ctx (rounds policy is_transient fn ctx a) 0
            policy.initial_backoff none))
        (sym e)
        (subst
          (λ b.
            IsAnswer 0 b
              (attempt_from policy is_transient fn ctx (suc left) 0 policy.initial_backoff none))
          (omega arith) (attempts-IsAnswer left 0 policy.initial_backoff none h))
