-- ===== src/Executor/Tests.antt =====
-- The executor against exchanges that answer by the number of the attempt.
use opensqt_market_maker.Common.{
  ℕ, zero, suc, ◌≡◌, refl, true, false, Option, none, some, [], ◌∷◌, arith,
}
use opensqt_market_maker.Common.Int.{pos}
use opensqt_market_maker.Pb.{PlaceOrderRequest, Order}
use opensqt_market_maker.Pb.Enums.{buy, limit, gtc}
use opensqt_market_maker.Executor.{
  Outcome, ok, err, Environment, OrderExecutor, new_order_executor, contains, limit_req,
  record_error, after_error, attempt, place_order_with_retry, place_order, set_error_capacity,
  check_health,
}
use opensqt_market_maker.Executor.Errors.{
  IsRing, Reach, here, next, places_one, resizes, Reach_new-IsRing, small_capacity_healthy,
}
use opensqt_market_maker.Executor.Retry.{Sends, LastAnswer, place_order-Sends, place_order-answer}
use opensqt_market_maker.Executor.PostOnly.{SendsOnly, post_only_falls_back}

abbrev req : PlaceOrderRequest
req = record {
  symbol = "BTCUSDT";
  side = buy;
  type = limit;
  time_in_force = gtc;
  quantity = some "1";
  price = some "100";
  reduce_only = true;
  post_only = true;
  client_order_id = "c7";
  use_margin = false;
}

-- The first request is rejected as post-only, the second one gets through.
abbrev answers : ℕ → PlaceOrderRequest → Outcome (Option Order)
answers zero q = err "POST_ONLY"
answers (suc k) q = ok none

abbrev env : Environment
env = record {
  rate_limit = λ _. none;
  place = answers;
  cancel = λ _ _. none;
  interrupted = λ _. none;
  now = λ _. pos 7;
}

-- Every request fails.
abbrev down : Environment
down = record env { place = λ _ _. err "timeout" }

sent : (place_order env req new_order_executor).0.sent ≡ limit_req req ∷ req ∷ []
unfolding place_order place_order_with_retry attempt after_error record_error new_order_executor
    contains
sent = refl

-- Six attempts in all.
gives_up :
    ((place_order down req new_order_executor).0.attempts ≡ 6)
    × ((place_order down req new_order_executor).1 ≡ err "max retries exceeded: timeout")
unfolding place_order place_order_with_retry attempt after_error record_error new_order_executor
    contains
gives_up = (refl, refl)

place_order-Sends_example :
    Sends req 6 new_order_executor (place_order down req new_order_executor).0
unfolding new_order_executor
place_order-Sends_example = place_order-Sends down req new_order_executor

place_order-answer_example : LastAnswer env (place_order env req new_order_executor).0 none
unfolding place_order place_order_with_retry attempt after_error record_error new_order_executor
    contains
place_order-answer_example = place_order-answer env req new_order_executor none refl

post_only_falls_back_example :
    SendsOnly (limit_req req) (req ∷ []) (place_order env req new_order_executor).0
unfolding new_order_executor contains
post_only_falls_back_example =
    post_only_falls_back env req new_order_executor "POST_ONLY" 4 refl refl refl refl refl refl

-- An executor with room for one error, that has failed six times.
abbrev small : OrderExecutor
small = set_error_capacity (pos 1) new_order_executor

abbrev failing : Reach new_order_executor (place_order down req small).0
failing = next (next here (resizes (pos 1) new_order_executor)) (places_one down req small)

Reach_new-IsRing_example : IsRing (place_order down req small).0
Reach_new-IsRing_example = Reach_new-IsRing failing

small_capacity_healthy_example : check_health none (pos 8) (place_order down req small).0 ≡ none
unfolding place_order place_order_with_retry attempt after_error record_error new_order_executor
    contains set_error_capacity
small_capacity_healthy_example = small_capacity_healthy (pos 8) failing (omega arith)
