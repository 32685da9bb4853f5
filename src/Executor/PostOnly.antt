-- ===== src/Executor/PostOnly.antt =====
-- What follows the rejection of a post-only order.
use opensqt_market_maker.Common.{
  ℕ, zero, suc, ◌≡◌, refl, sym, ap, subst, ◌∙◌, inl, inr, Bool, true, false, none, List, [], ◌∷◌,
  ◌++◌, String, arith, All, All-append,
}
use mathlib.Core.List.{append_assoc}
use opensqt_market_maker.Pb.{PlaceOrderRequest}
use opensqt_market_maker.Executor.{
  err, Environment, OrderExecutor, again, is_fatal, is_post_only_error, limit_req, after_error,
  attempt, place_order_with_retry, place_order,
}
use opensqt_market_maker.Executor.Retry.{
  Next-cases, record_error-sent, attempt-sent, retry_returns, retry_again, retry_zero,
}

-- All that the exchange got is the request, any number of times.
abbrev pub SendsOnly : PlaceOrderRequest → List PlaceOrderRequest → OrderExecutor → Type 0
SendsOnly req before oe' =
    (new : List PlaceOrderRequest) × (oe'.sent ≡ new ++ before) × All (λ q. q ≡ req) new

module _ (env : Environment) where
  repeats_itself :
      (last : Bool) (req req' : PlaceOrderRequest) (oe : OrderExecutor)
      → req.post_only ≡ false
      → (attempt env last req oe).1 ≡ again req'
      → req' ≡ req
  unfolding attempt after_error
  repeats_itself last req req' oe p e = ground arith

  attempt-SendsOnly :
      (last : Bool) (req : PlaceOrderRequest) (oe : OrderExecutor)
      → SendsOnly req oe.sent (attempt env last req oe).0
  attempt-SendsOnly last req oe = elim (attempt-sent env last req oe) [
    | inl e ↦ ([], e, tt)
    | inr e ↦ (req ∷ [], e, (refl, tt))
  ]

  retry-SendsOnly :
      (left : ℕ) (req : PlaceOrderRequest) (oe : OrderExecutor)
      → req.post_only ≡ false
      → SendsOnly req oe.sent (place_order_with_retry env left req oe).0
  retry-SendsOnly zero req oe p = rw (retry_zero env req oe) (attempt-SendsOnly true req oe)
  retry-SendsOnly (suc left) req oe p =
      let (new, e, all) = attempt-SendsOnly false req oe in
      let oe1 = (attempt env false req oe).0 in
      elim (Next-cases (attempt env false req oe).1) [
        | inl (r, f) ↦
            subst (λ x. SendsOnly req oe.sent x.0) (sym (retry_returns env left req oe r f))
              (new, e, all)
        | inr (req', f) ↦
            let step =
              retry_again env left req req' oe f
              ∙ ap (λ q. place_order_with_retry env left q oe1)
                  (repeats_itself false req req' oe p f) in
            let (new', e', all') = retry-SendsOnly left req oe1 p in
            subst (λ x. SendsOnly req oe.sent x.0) (sym step)
              (
                new' ++ new,
                e' ∙ ap (λ x. new' ++ x) e ∙ sym (append_assoc new' new oe.sent),
                All-append (λ q. q ≡ req) new' new all' all,
              )
      ]

  rejected :
      (req : PlaceOrderRequest) (oe : OrderExecutor) (e : String)
      → req.post_only ≡ true
      → env.rate_limit oe.attempts ≡ none
      → env.place oe.attempts req ≡ err e
      → is_fatal e ≡ false
      → is_post_only_error e ≡ true
      → ((attempt env false req oe).1 ≡ again (limit_req req))
        × ((attempt env false req oe).0.sent ≡ req ∷ oe.sent)
  unfolding attempt after_error
  rejected req oe e p l r f x =
      rw (l, attempt, r, after_error, f, x, p) (refl, record_error-sent _ _)

  -- When the exchange rejects a post-only order for being post-only, and there are retries, all
  -- that it gets afterwards is the plain limit order in its place, which is not reduce-only either,
  -- whatever the rejected order was.
  pub post_only_falls_back :
      (req : PlaceOrderRequest) (oe : OrderExecutor) (e : String) (left : ℕ)
      → oe.max_retries ≡ suc left
      → req.post_only ≡ true
      → env.rate_limit oe.attempts ≡ none
      → env.place oe.attempts req ≡ err e
      → is_fatal e ≡ false
      → is_post_only_error e ≡ true
      → SendsOnly (limit_req req) (req ∷ oe.sent) (place_order env req oe).0
  unfolding place_order
  post_only_falls_back req oe e left m p l r f x =
      let (next, sent) = rejected req oe e p l r f x in
      let (new, s, all) = retry-SendsOnly left (limit_req req) (attempt env false req oe).0 refl in
      subst (λ t. SendsOnly (limit_req req) (req ∷ oe.sent) t.0)
        (sym (
          ap (λ k. place_order_with_retry env k req oe) m
          ∙ retry_again env left req (limit_req req) oe next))
        (new, s ∙ ap (λ t. new ++ t) sent, all)
