-- ===== src/Executor.antt =====
-- market_maker/internal/trading/order/executor.go: OrderExecutor. The exchange, the rate limiter, the
-- context and the clock answer through `Environment`, at the attempt that they are asked for: the
-- state counts the attempts of all calls. How long a delay takes is not modelled, only whether the
-- context ends it.
pub mod Retry
pub mod Errors
pub mod PostOnly
mod Tests
use opensqt_market_maker.Common.{
  ℕ, zero, suc, ◌+◌, ◌%◌, Bool, true, false, ◌&&◌, ◌||◌, Option, none, some, List, [], ◌∷◌, ◌++◌,
  String, if◌then◌else◌, ltb, leb, ◌==◌, length,
}
use Prim.Native.String.{◌++◌ as ◌+++◌}
use text.Mathlib.Text.{starts_with}
use opensqt_market_maker.Common.Int.{ℤ, pos, negsuc, ◌-ℤ◌, ltb_ℤ}
use opensqt_market_maker.Pb.{PlaceOrderRequest, Order}
use opensqt_market_maker.Pb.Enums.{gtc}

-- strings.Contains(s, t)
unfoldable pub contains : String → String → Bool
contains String.[] t = starts_with "" t
contains (String.◌∷◌ c s) t = starts_with (String.◌∷◌ c s) t || contains s t

pub data Outcome (A : Type 0) : Type 0 where
  ok : A → Outcome A
  err : String → Outcome A

pub record Environment : Type 0 where
  -- rateLimiter.Wait(ctx), with its error
  pub rate_limit : ℕ → Option String
  -- exchange.PlaceOrder and exchange.CancelOrder
  pub place : ℕ → PlaceOrderRequest → Outcome (Option Order)
  pub cancel : ℕ → ℤ → Option String
  -- ctx.Err(), if the context is done before the delay is over
  pub interrupted : ℕ → Option String
  pub now : ℕ → ℤ

pub record OrderExecutor : Type 0 where
  pub max_retries : ℕ
  pub error_timestamps : List ℤ
  pub error_index : ℕ
  pub error_capacity : ℕ
  pub attempts : ℕ  -- how many attempts have been made
  pub sent : List PlaceOrderRequest  -- the requests that the exchange has got, the last one first

unfoldable pub new_order_executor : OrderExecutor
new_order_executor = record {
  max_retries = 5;
  error_timestamps = [];
  error_index = 0;
  error_capacity = 1000;
  attempts = 0;
  sent = [];
}

-- timestamps[i] = t
unfoldable pub write_at : ℕ → ℤ → List ℤ → List ℤ
write_at i t [] = []
write_at zero t (x ∷ l) = t ∷ l
write_at (suc i) t (x ∷ l) = x ∷ write_at i t l

-- recordError: a ring buffer. A capacity of 0 becomes 1000.
unfoldable pub record_error : ℤ → OrderExecutor → OrderExecutor
unfolding write_at
record_error now oe =
    let capacity = if oe.error_capacity == 0 then 1000 else oe.error_capacity in
    if ltb (length oe.error_timestamps) capacity
    then record oe { error_capacity = capacity; error_timestamps = oe.error_timestamps ++ now ∷ [] }
    else record oe {
      error_capacity = capacity;
      error_timestamps = write_at oe.error_index now oe.error_timestamps;
      error_index = suc oe.error_index % capacity;
    }

-- timestamps[:capacity]
unfoldable pub take {ℓ} : {A : Type ℓ} → ℕ → List A → List A
take zero l = []
take (suc k) [] = []
take (suc k) (x ∷ l) = x ∷ take k l

-- A capacity that is not positive becomes 1000.
abbrev pub capacity_of : ℤ → ℕ
capacity_of (pos k) = if k == 0 then 1000 else k
capacity_of (negsuc k) = 1000

unfoldable pub set_error_capacity : ℤ → OrderExecutor → OrderExecutor
unfolding take
set_error_capacity requested oe =
    let capacity = capacity_of requested in
    record oe {
      error_timestamps =
          if ltb capacity (length oe.error_timestamps)
          then take capacity oe.error_timestamps
          else oe.error_timestamps;
      error_capacity = capacity;
      error_index = if leb capacity oe.error_index then 0 else oe.error_index;
    }

-- How many of the times are after the cutoff.
unfoldable pub count_after : ℤ → List ℤ → ℕ
count_after cutoff [] = 0
count_after cutoff (t ∷ l) =
    let rest = count_after cutoff l in if ltb_ℤ cutoff t then suc rest else rest

unfoldable pub get_recent_error_count : ℤ → ℤ → OrderExecutor → ℕ
unfolding count_after
get_recent_error_count now duration oe = count_after (now -ℤ duration) oe.error_timestamps

-- Five minutes in nanoseconds.
abbrev pub five_minutes : ℤ
five_minutes = pos 300000000000

-- CheckHealth, with the error of the executor's context. The text of a high error rate goes on
-- with the number, which is left out.
unfoldable pub check_health : Option String → ℤ → OrderExecutor → Option String
unfolding get_recent_error_count
check_health context_error now oe = elim context_error [
  | some e ↦ some "order executor context cancelled"
  | none ↦
      if ltb 50 (get_recent_error_count now five_minutes oe) then some "high error rate" else none
]

abbrev pub is_fatal : String → Bool
is_fatal e = contains e "insufficient funds" || contains e "margin" || contains e "INVALID_SYMBOL"

abbrev pub is_fatal_cancel : String → Bool
is_fatal_cancel e =
    contains e "ORDER_STATUS_FILLED" || contains e "already filled" || contains e "not found"

abbrev pub is_post_only_error : String → Bool
is_post_only_error e =
    contains e "postOnly"
    || contains e "POST_ONLY"
    || contains e "would execute immediately"
    || contains e "immediate execution"
    || contains e "market order"
    || contains e "51020"
    || contains e "170193"
    || contains e "170194"

-- The request that takes the place of a post-only one: it does not copy ReduceOnly.
abbrev pub limit_req : PlaceOrderRequest → PlaceOrderRequest
limit_req req = record {
  symbol = req.symbol;
  side = req.side;
  type = req.type;
  time_in_force = gtc;
  quantity = req.quantity;
  price = req.price;
  reduce_only = false;
  post_only = false;
  client_order_id = req.client_order_id;
  use_margin = req.use_margin;
}

-- What is to be done after an answer: return, or go on with a request.
pub data Next : Type 0 where
  return : Outcome (Option Order) → Next
  again : PlaceOrderRequest → Next

module _ (env : Environment) where
  -- The part of placeOrderWithRetry after the exchange's error `e`; `last` says that the attempts
  -- have reached maxRetries.
  unfoldable pub after_error : Bool → String → PlaceOrderRequest → ℕ → Next
  after_error last e req k =
      if last
      then return (err ("max retries exceeded: " +++ e))
      else if is_fatal e
      then return (err e)
      else if is_post_only_error e && req.post_only
      then again (limit_req req)
      else elim (env.interrupted k) [ some c ↦ return (err c) | none ↦ again req ]

  -- One attempt: the state after it, and what is to be done.
  unfoldable pub attempt : Bool → PlaceOrderRequest → OrderExecutor → OrderExecutor × Next
  attempt last req oe =
      let k = oe.attempts in
      let oe1 = record oe { attempts = suc k } in
      let oe2 = record oe1 { sent = req ∷ oe.sent } in
      elim (env.rate_limit k) [
        | some e ↦ (oe1, return (err ("rate limit wait failed: " +++ e)))
        | none ↦ elim (env.place k req) [
          | ok order ↦ (oe2, return (ok order))
          | err e ↦ (record_error (env.now k) oe2, after_error last e req k)
        ]
      ]

  -- placeOrderWithRetry, with `left` for maxRetries - attempt. (What follows an attempt that has
  -- none left is a return.)
  unfoldable pub place_order_with_retry :
      ℕ → PlaceOrderRequest → OrderExecutor → OrderExecutor × Outcome (Option Order)
  place_order_with_retry zero req oe =
      let (oe', next) = attempt true req oe in
      elim next [ return r ↦ (oe', r) | again req' ↦ (oe', err "") ]
  place_order_with_retry (suc left) req oe =
      let (oe', next) = attempt false req oe in
      elim next [ return r ↦ (oe', r) | again req' ↦ place_order_with_retry left req' oe' ]

  unfoldable pub place_order :
      PlaceOrderRequest → OrderExecutor → OrderExecutor × Outcome (Option Order)
  place_order req oe = place_order_with_retry oe.max_retries req oe

  -- What BatchPlaceOrders adds for one answer: the order, if there is one, or the margin error.
  unfoldable pub add_result : Outcome (Option Order) → List Order × Bool → List Order × Bool
  add_result (ok none) rest = rest
  add_result (ok (some o)) (orders, margin) = (o ∷ orders, margin)
  add_result (err e) (orders, margin) =
      (orders, (contains e "margin" || contains e "insufficient") || margin)

  unfoldable pub batch_place_orders :
      List PlaceOrderRequest → OrderExecutor → OrderExecutor × (List Order × Bool)
  batch_place_orders [] oe = (oe, ([], false))
  batch_place_orders (req ∷ reqs) oe =
      let (oe1, r) = place_order req oe in
      let (oe2, rest) = batch_place_orders reqs oe1 in (oe2, add_result r rest)

  -- The part of cancelOrderWithRetry after the exchange's error `e`: what it returns, or `none` if
  -- it goes on.
  unfoldable pub after_cancel_error : Bool → String → ℕ → Option String
  after_cancel_error last e k =
      if last
      then some ("max cancel retries exceeded: " +++ e)
      else if is_fatal_cancel e
      then some e
      else env.interrupted k

  -- One attempt: `ok` with the error that is returned, which is none after a success, or `err` if
  -- a further attempt follows.
  unfoldable pub cancel_attempt : Bool → ℤ → ℕ → Outcome (Option String)
  cancel_attempt last order_id k = elim (env.rate_limit k) [
    | some e ↦ ok (some ("rate limit wait failed: " +++ e))
    | none ↦ elim (env.cancel k order_id) [
      | none ↦ ok none
      | some e ↦ elim (after_cancel_error last e k) [ some r ↦ ok (some r) | none ↦ err e ]
    ]
  ]

  -- The number of attempts made by all calls, and the error.
  unfoldable pub cancel_order_with_retry : ℕ → ℤ → ℕ → ℕ × Option String
  cancel_order_with_retry zero order_id k = elim (cancel_attempt true order_id k) [
    | ok r ↦ (suc k, r)
    | err e ↦ (suc k, some e)
  ]
  cancel_order_with_retry (suc left) order_id k = elim (cancel_attempt false order_id k) [
    | ok r ↦ (suc k, r)
    | err e ↦ cancel_order_with_retry left order_id (suc k)
  ]

  -- BatchCancelOrders reports no error.
  unfoldable pub batch_cancel_orders : List ℤ → OrderExecutor → OrderExecutor
  batch_cancel_orders [] oe = oe
  batch_cancel_orders (order_id ∷ ids) oe =
      batch_cancel_orders ids
        (record oe { attempts = (cancel_order_with_retry oe.max_retries order_id oe.attempts).0 })
