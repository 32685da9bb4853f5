-- ===== src/Executor/Retry.antt =====
-- What placeOrderWithRetry sends to the exchange, and what it returns.
use opensqt_market_maker.Common.{
  ℕ, zero, suc, ◌≤◌, ◌≡◌, ◌≢◌, refl, sym, ap, subst, ◌∙◌, ◌⊎◌, inl, inr, Bool, true, false, Option,
  List, [], ◌∷◌, ◌++◌, arith, All, All-append, length, length-append,
}
use mathlib.Core.List.{append_assoc}
use opensqt_market_maker.Common.Int.{ℤ}
use opensqt_market_maker.Pb.{PlaceOrderRequest, Order}
use opensqt_market_maker.Executor.{
  Outcome, ok, Environment, OrderExecutor, Next, return, again, record_error, limit_req,
  after_error, attempt, place_order_with_retry, place_order,
}

-- The requests are for one order: they agree on everything but the time in force and the flags
-- post-only and reduce-only.
pub record IsSameOrder (req q : PlaceOrderRequest) : Type 0 where
  pub symbol : q.symbol ≡ req.symbol
  pub side : q.side ≡ req.side
  pub type : q.type ≡ req.type
  pub quantity : q.quantity ≡ req.quantity
  pub price : q.price ≡ req.price
  pub client_order_id : q.client_order_id ≡ req.client_order_id
  pub use_margin : q.use_margin ≡ req.use_margin

same_self : (req : PlaceOrderRequest) → IsSameOrder req req
same_self req = record {
  symbol = refl;
  side = refl;
  type = refl;
  quantity = refl;
  price = refl;
  client_order_id = refl;
  use_margin = refl;
}

same_limit_req : (req q : PlaceOrderRequest) → IsSameOrder (limit_req req) q → IsSameOrder req q
same_limit_req req q s = record {
  symbol = s.symbol;
  side = s.side;
  type = s.type;
  quantity = s.quantity;
  price = s.price;
  client_order_id = s.client_order_id;
  use_margin = s.use_margin;
}

pub record_error-sent : (now : ℤ) (oe : OrderExecutor) → (record_error now oe).sent ≡ oe.sent
unfolding record_error
record_error-sent now oe = ground arith

pub Next-cases :
    (x : Next)
    → ((r : Outcome (Option Order)) × (x ≡ return r))
      ⊎ ((req : PlaceOrderRequest) × (x ≡ again req))
Next-cases (return r) = inl (r, refl)
Next-cases (again req) = inr (req, refl)

-- The exchange got at most `bound` more requests, and all of them are for one order.
abbrev pub Sends : PlaceOrderRequest → ℕ → OrderExecutor → OrderExecutor → Type 0
Sends req bound oe oe' =
    (new : List PlaceOrderRequest) × (oe'.sent ≡ new ++ oe.sent)
    × (length new ≤ bound)
    × All (IsSameOrder req) new

pub All-weaken :
    (P Q : PlaceOrderRequest → Type 0) (l : List PlaceOrderRequest)
    → ((q : PlaceOrderRequest) → P q → Q q)
    → All P l
    → All Q l
All-weaken P Q [] f h = tt
All-weaken P Q (q ∷ l) f h = (f q h.0, All-weaken P Q l f h.1)

more :
    (req : PlaceOrderRequest) (bound : ℕ) (oe oe1 oe2 : OrderExecutor)
    → Sends req 1 oe oe1
    → Sends req bound oe1 oe2
    → Sends req (suc bound) oe oe2
more req bound oe oe1 oe2 (new, e, l, a) (new', e', l', a') = (
  new' ++ new,
  e' ∙ ap (λ x. new' ++ x) e ∙ sym (append_assoc new' new oe.sent),
  omega (arith, length-append new' new, l, l'),
  All-append (IsSameOrder req) new' new a' a,
)

module _ (env : Environment) where
  -- An attempt sends the request, or nothing if the limiter refuses it.
  pub attempt-sent :
      (last : Bool) (req : PlaceOrderRequest) (oe : OrderExecutor)
      → let oe' = (attempt env last req oe).0 in (oe'.sent ≡ oe.sent) ⊎ (oe'.sent ≡ req ∷ oe.sent)
  unfolding attempt
  attempt-sent last req oe = ground (
    arith,
    record_error-sent (env.now oe.attempts)
        (record oe { attempts = suc oe.attempts; sent = req ∷ oe.sent }),
  )

  -- It goes on with the same request, or with the limit order in its place.
  attempt-next :
      (last : Bool) (req req' : PlaceOrderRequest) (oe : OrderExecutor)
      → (attempt env last req oe).1 ≡ again req'
      → (req' ≡ req) ⊎ (req' ≡ limit_req req)
  unfolding attempt after_error
  attempt-next last req req' oe e = ground arith

  -- What is reported of an attempt that ends with an answer.
  attempt-answer :
      (last : Bool) (req : PlaceOrderRequest) (oe : OrderExecutor) (order : Option Order)
      → (attempt env last req oe).1 ≡ return (ok order)
      → ((attempt env last req oe).0.sent ≡ req ∷ oe.sent) × (env.place oe.attempts req ≡ ok order)
  unfolding attempt after_error
  attempt-answer last req oe order e = ground arith

  attempt-last :
      (req req' : PlaceOrderRequest) (oe : OrderExecutor) → (attempt env true req oe).1 ≢ again req'
  unfolding attempt after_error
  attempt-last req req' oe = ground arith

  -- The steps of placeOrderWithRetry.
  pub retry_returns :
      (left : ℕ) (req : PlaceOrderRequest) (oe : OrderExecutor) (r : Outcome (Option Order))
      → (attempt env false req oe).1 ≡ return r
      → place_order_with_retry env (suc left) req oe ≡ ((attempt env false req oe).0, r)
  unfolding place_order_with_retry
  retry_returns left req oe r e = ground arith

  pub retry_again :
      (left : ℕ) (req req' : PlaceOrderRequest) (oe : OrderExecutor)
      → (attempt env false req oe).1 ≡ again req'
      → place_order_with_retry env (suc left) req oe
        ≡ place_order_with_retry env left req' (attempt env false req oe).0
  unfolding place_order_with_retry
  retry_again left req req' oe e = rw (e, place_order_with_retry) refl

  pub retry_zero :
      (req : PlaceOrderRequest) (oe : OrderExecutor)
      → (place_order_with_retry env zero req oe).0 ≡ (attempt env true req oe).0
  unfolding place_order_with_retry
  retry_zero req oe = ground arith

  attempt-Sends :
      (last : Bool) (req : PlaceOrderRequest) (oe : OrderExecutor)
      → Sends req 1 oe (attempt env last req oe).0
  attempt-Sends last req oe = elim (attempt-sent last req oe) [
    | inl e ↦ ([], e, omega arith, tt)
    | inr e ↦ (req ∷ [], e, omega arith, (same_self req, tt))
  ]

  retry-Sends :
      (left : ℕ) (req : PlaceOrderRequest) (oe : OrderExecutor)
      → Sends req (suc left) oe (place_order_with_retry env left req oe).0
  retry-Sends zero req oe = rw (retry_zero req oe) (attempt-Sends true req oe)
  retry-Sends (suc left) req oe =
      let first = attempt-Sends false req oe in
      let oe1 = (attempt env false req oe).0 in
      elim (Next-cases (attempt env false req oe).1) [
        | inl (r, e) ↦
            subst (λ x. Sends req (suc (suc left)) oe x.0) (sym (retry_returns left req oe r e))
              (first.0, first.1, omega (arith, first.2), first.3)
        | inr (req', e) ↦
            let rest = retry-Sends left req' oe1 in
            let same : All (IsSameOrder req) rest.0 =
              All-weaken (IsSameOrder req') (IsSameOrder req) rest.0
                (λ q h. elim (attempt-next false req req' oe e) [
                  | inl i ↦ subst (λ x. IsSameOrder x q) i h
                  | inr i ↦ same_limit_req req q (subst (λ x. IsSameOrder x q) i h)
                ])
                rest.3 in
            subst (λ x. Sends req (suc (suc left)) oe x.0) (sym (retry_again left req req' oe e))
              (more req (suc left) oe oe1 (place_order_with_retry env left req' oe1).0 first
                (rest.0, rest.1, rest.2, same))
      ]

  -- PlaceOrder returns after it has sent at most maxRetries + 1 requests, and all of them are for
  -- the order that was asked for: they agree in symbol, side, type, quantity, price, identifier and
  -- margin.
  pub place_order-Sends :
      (req : PlaceOrderRequest) (oe : OrderExecutor)
      → Sends req (suc oe.max_retries) oe (place_order env req oe).0
  unfolding place_order
  place_order-Sends req oe = retry-Sends oe.max_retries req oe

  -- The answer to the last request that was sent.
  abbrev pub LastAnswer : OrderExecutor → Option Order → Type 0
  LastAnswer oe order =
      (k : ℕ) × (q : PlaceOrderRequest) × (earlier : List PlaceOrderRequest) × (oe.sent
        ≡ q ∷ earlier)
      × (env.place k q ≡ ok order)

  retry_zero_answer :
      (req : PlaceOrderRequest) (oe : OrderExecutor) (order : Option Order)
      → (place_order_with_retry env zero req oe).1 ≡ ok order
      → (attempt env true req oe).1 ≡ return (ok order)
  unfolding place_order_with_retry
  retry_zero_answer req oe order e = ground arith

  retry-answer :
      (left : ℕ) (req : PlaceOrderRequest) (oe : OrderExecutor) (order : Option Order)
      → (place_order_with_retry env left req oe).1 ≡ ok order
      → LastAnswer (place_order_with_retry env left req oe).0 order
  retry-answer zero req oe order e =
      let a = attempt-answer true req oe order (retry_zero_answer req oe order e) in
      rw (retry_zero req oe) (oe.attempts, req, oe.sent, a.0, a.1)
  retry-answer (suc left) req oe order e = elim (Next-cases (attempt env false req oe).1) [
    | inl (r, f) ↦
        let same : r ≡ ok order = sym (ap (λ x. x.1) (retry_returns left req oe r f)) ∙ e in
        let a = attempt-answer false req oe order (f ∙ ap return same) in
        subst (λ x. LastAnswer x.0 order) (sym (retry_returns left req oe r f))
          (oe.attempts, req, oe.sent, a.0, a.1)
    | inr (req', f) ↦
        let step = retry_again left req req' oe f in
        subst (λ x. LastAnswer x.0 order) (sym step)
          (retry-answer left req' _ order (ap (λ x. x.1) (sym step) ∙ e))
  ]

  -- PlaceOrder reports an order only if the exchange answered the last request that it got with
  -- this order.
  pub place_order-answer :
      (req : PlaceOrderRequest) (oe : OrderExecutor) (order : Option Order)
      → (place_order env req oe).1 ≡ ok order
      → LastAnswer (place_order env req oe).0 order
  unfolding place_order
  place_order-answer req oe order e = retry-answer oe.max_retries req oe order e
