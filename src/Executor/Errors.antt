-- ===== src/Executor/Errors.antt =====
-- The ring buffer of the errors, and the health that is read off it.
use opensqt_market_maker.Common.{
  ℕ, zero, suc, ◌≤◌, ◌<◌, ◌≡◌, ◌≢◌, refl, ap, Bool, true, false, Option, none, List, [], ◌∷◌, arith,
  ltb, ◌==◌, length, length-append, Bool-cases, inl, inr,
}
use opensqt_market_maker.Common.Int.{ℤ, pos, negsuc, ◌-ℤ◌}
use opensqt_market_maker.Pb.{PlaceOrderRequest, Order}
use opensqt_market_maker.Executor.{
  Outcome, Environment, OrderExecutor, Next, return, again, err, new_order_executor, write_at,
  record_error, take, capacity_of, set_error_capacity, count_after, get_recent_error_count,
  check_health, five_minutes, attempt, place_order_with_retry, place_order, batch_place_orders,
  batch_cancel_orders, cancel_order_with_retry,
}

-- The capacity is not 0, the buffer is no longer than it, and the write index lies in it.
pub record IsRing (oe : OrderExecutor) : Type 0 where
  pub capacity_set : oe.error_capacity ≢ 0
  pub short : length oe.error_timestamps ≤ oe.error_capacity
  pub index_in : oe.error_index < oe.error_capacity

length-write_at : (i : ℕ) (t : ℤ) (l : List ℤ) → length (write_at i t l) ≡ length l
unfolding write_at
length-write_at i t [] = refl
length-write_at zero t (x ∷ l) = refl
length-write_at (suc i) t (x ∷ l) = ap suc (length-write_at i t l)

length-take : (k : ℕ) (l : List ℤ) → length (take k l) ≤ k
unfolding take
length-take zero l = omega arith
length-take (suc k) [] = omega arith
length-take (suc k) (x ∷ l) = omega (arith, length-take k l)

count_after-le : (cutoff : ℤ) (l : List ℤ) → count_after cutoff l ≤ length l
unfolding count_after
count_after-le cutoff [] = omega arith
count_after-le cutoff (t ∷ l) = ground (arith, count_after-le cutoff l)

pub record_error-IsRing : (now : ℤ) (oe : OrderExecutor) → IsRing oe → IsRing (record_error now oe)
unfolding record_error
record_error-IsRing now oe w =
    let set : (oe.error_capacity == 0) ≡ false = ground (arith, w.capacity_set) in
    elim (Bool-cases (ltb (length oe.error_timestamps) oe.error_capacity)) [
      | inl e ↦
          rw (set, e)
            (record {
              capacity_set = w.capacity_set;
              short = ground (arith, length-append oe.error_timestamps (now ∷ []));
              index_in = w.index_in;
            })
      | inr e ↦
          rw (set, e)
            (record {
              capacity_set = w.capacity_set;
              short =
                  omega (arith, length-write_at oe.error_index now oe.error_timestamps, w.short);
              index_in = omega (arith, w.capacity_set);
            })
    ]

capacity_of-set : (requested : ℤ) → capacity_of requested ≢ 0
capacity_of-set (pos k) = ground arith
capacity_of-set (negsuc k) = ground arith

set_error_capacity-IsRing :
    (requested : ℤ) (oe : OrderExecutor) → IsRing oe → IsRing (set_error_capacity requested oe)
unfolding set_error_capacity
set_error_capacity-IsRing requested oe w = record {
  capacity_set = capacity_of-set requested;
  short = ground (arith, length-take (capacity_of requested) oe.error_timestamps);
  index_in = ground (arith, capacity_of-set requested);
}

-- The fields of the ring are the state's.
same-IsRing :
    (oe : OrderExecutor) (attempts : ℕ) (sent : List PlaceOrderRequest)
    → IsRing oe
    → IsRing (record oe { attempts = attempts; sent = sent })
same-IsRing oe attempts sent w = record {
  capacity_set = w.capacity_set;
  short = w.short;
  index_in = w.index_in;
}

module _ (env : Environment) where
  attempt-IsRing :
      (last : Bool) (req : PlaceOrderRequest) (oe : OrderExecutor)
      → IsRing oe
      → IsRing (attempt env last req oe).0
  unfolding attempt
  attempt-IsRing last req oe w =
      let k = oe.attempts in
      let tried = same-IsRing oe (suc k) oe.sent w in
      let sent = same-IsRing oe (suc k) (req ∷ oe.sent) w in
      let failed = record_error-IsRing (env.now k) _ sent in ground (arith, tried, sent, failed)

  place-IsRing :
      (left : ℕ) (req : PlaceOrderRequest) (oe : OrderExecutor)
      → IsRing oe
      → IsRing (place_order_with_retry env left req oe).0
  unfolding place_order_with_retry
  place-IsRing zero req oe w = go (attempt env true req oe) (attempt-IsRing true req oe w)
    where
      go :
          (a : OrderExecutor × Next)
          → IsRing a.0
          → IsRing
              (elim a.1 as (λ x. OrderExecutor × Outcome (Option Order)) [
                | return r ↦ (a.0, r)
                | again req' ↦ (a.0, err "")
              ]).0
      go (oe', return r) h = h
      go (oe', again req') h = h
  place-IsRing (suc left) req oe w =
      go (λ req' oe' h. place-IsRing left req' oe' h) (attempt env false req oe)
        (attempt-IsRing false req oe w)
    where
      go :
          ((req' : PlaceOrderRequest) (oe' : OrderExecutor)
            → IsRing oe'
            → IsRing (place_order_with_retry env left req' oe').0)
          → (a : OrderExecutor × Next) → IsRing a.0
          → IsRing
              (elim a.1 as (λ x. OrderExecutor × Outcome (Option Order)) [
                | return r ↦ (a.0, r)
                | again req' ↦ place_order_with_retry env left req' a.0
              ]).0
      go rest (oe', return r) h = h
      go rest (oe', again req') h = rest req' oe' h

  batch_place-IsRing :
      (reqs : List PlaceOrderRequest) (oe : OrderExecutor)
      → IsRing oe
      → IsRing (batch_place_orders env reqs oe).0
  unfolding batch_place_orders place_order
  batch_place-IsRing [] oe w = w
  batch_place-IsRing (req ∷ reqs) oe w =
      batch_place-IsRing reqs (place_order env req oe).0 (place-IsRing oe.max_retries req oe w)

  batch_cancel-IsRing :
      (ids : List ℤ) (oe : OrderExecutor) → IsRing oe → IsRing (batch_cancel_orders env ids oe)
  unfolding batch_cancel_orders
  batch_cancel-IsRing [] oe w = w
  batch_cancel-IsRing (id ∷ ids) oe w =
      batch_cancel-IsRing ids _
        (same-IsRing oe (cancel_order_with_retry env oe.max_retries id oe.attempts).0 oe.sent w)

-- A call that changes the executor; each call may meet another environment.
pub data Step : OrderExecutor → OrderExecutor → Type 0 where
  places :
      (env : Environment) (reqs : List PlaceOrderRequest) (oe : OrderExecutor)
      → Step oe (batch_place_orders env reqs oe).0
  places_one :
      (env : Environment) (req : PlaceOrderRequest) (oe : OrderExecutor)
      → Step oe (place_order env req oe).0
  cancels :
      (env : Environment) (ids : List ℤ) (oe : OrderExecutor)
      → Step oe (batch_cancel_orders env ids oe)
  resizes : (requested : ℤ) (oe : OrderExecutor) → Step oe (set_error_capacity requested oe)

pub data Reach (s : OrderExecutor) : OrderExecutor → Type 0 where
  here : Reach s s
  next : {t u : OrderExecutor} → Reach s t → Step t u → Reach s u

Step-IsRing : {oe oe' : OrderExecutor} → Step oe oe' → IsRing oe → IsRing oe'
unfolding place_order
Step-IsRing (places env reqs oe) w = batch_place-IsRing env reqs oe w
Step-IsRing (places_one env req oe) w = place-IsRing env oe.max_retries req oe w
Step-IsRing (cancels env ids oe) w = batch_cancel-IsRing env ids oe w
Step-IsRing (resizes requested oe) w = set_error_capacity-IsRing requested oe w

-- Whatever calls a new executor has had, and whatever the exchange answered, the buffer of the
-- errors is no longer than its capacity, which is not 0, and the write index lies in it.
pub Reach_new-IsRing : {oe : OrderExecutor} → Reach new_order_executor oe → IsRing oe
unfolding new_order_executor
Reach_new-IsRing here = record {
  capacity_set = omega arith;
  short = omega arith;
  index_in = omega arith;
}
Reach_new-IsRing (next r s) = Step-IsRing s (Reach_new-IsRing r)

-- With a capacity of 50 or less, CheckHealth never reports a high error rate, however many orders
-- have failed: while its context lives, the executor is healthy at every time.
pub small_capacity_healthy :
    (now : ℤ) {oe : OrderExecutor}
    → Reach new_order_executor oe
    → oe.error_capacity ≤ 50
    → check_health none now oe ≡ none
unfolding check_health get_recent_error_count
small_capacity_healthy now {oe} r small =
    let w = Reach_new-IsRing r in
    ground (arith, count_after-le (now -ℤ five_minutes) oe.error_timestamps, w.short)
