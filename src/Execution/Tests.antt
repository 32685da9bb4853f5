-- ===== src/Execution/Tests.antt =====
-- Two steps on two exchanges, of which the second one rejects every order, on decimals that count
-- tenths.
use opensqt_market_maker.Common.{◌≡◌, refl, List, [], ◌∷◌, ◌++◌, some, true, false, String, In}
use opensqt_market_maker.Common.Int.{pos}
use opensqt_market_maker.Common.Assoc.{string_eq}
use opensqt_market_maker.Num.{is_zero}
use opensqt_market_maker.Num.Fixed.{fixed, read_ℤ, count_marks}
use opensqt_market_maker.Pb.{Order, PlaceOrderRequest}
use opensqt_market_maker.Pb.Convert.{to_go_decimal}
use opensqt_market_maker.Pb.Enums.{OrderSide, buy, sell, limit, gtc, new}
use opensqt_market_maker.Execution.{
  Step, ExecutedStep, Call, Answer, rejects, accepts, failed, has_exchange, execute,
  execute_parallel, compensate_all, compensations, compensation, compensation_qty, adjust_qty,
  collect_executed, any_rejected,
}
use opensqt_market_maker.Execution.Saga.{Saga, execute-Saga}
use opensqt_market_maker.Execution.Unfilled.{unfilled_reversed}

abbrev request : OrderSide → PlaceOrderRequest
request side = record {
  symbol = "BTC";
  side = side;
  type = limit;
  time_in_force = gtc;
  quantity = some "+11";
  price = some "+1";
  reduce_only = false;
  post_only = false;
  client_order_id = "";
  use_margin = false;
}

abbrev leg : String → Step
leg exchange = record {
  exchange = exchange;
  request = request buy;
  compensate = some (request sell);
}

-- An order that rests.
abbrev resting : Order
resting = record {
  order_id = pos 1;
  client_order_id = "";
  symbol = "BTC";
  side = buy;
  type = limit;
  price = some "+1";
  quantity = some "+11";
  executed_qty = some "+";
  status = new;
  created_at = pos 0;
}

abbrev exchanges : List String
exchanges = "a" ∷ "b" ∷ []

abbrev second_rejects : List Call → Answer
second_rejects (c ∷ []) = accepts (some resting)
second_rejects _ = rejects

execute-Saga_example :
    (made : List Call) × ((execute fixed exchanges second_rejects (leg "a" ∷ leg "b" ∷ []) []).0
      ≡ [] ++ made)
    × Saga fixed exchanges second_rejects []
        (leg "a" ∷ leg "b" ∷ [])
        []
        made
        (execute fixed exchanges second_rejects (leg "a" ∷ leg "b" ∷ []) []).1
execute-Saga_example = execute-Saga fixed exchanges second_rejects (leg "a" ∷ leg "b" ∷ []) []

-- The first step, whose order rests.
abbrev executed : List ExecutedStep
executed = record { step = leg "a"; order = some resting } ∷ []

unfilled_reversed_example :
    (undo : List Call) × (execute fixed exchanges second_rejects (leg "a" ∷ leg "b" ∷ []) []
      ≡ (("a", request buy) ∷ ("b", request buy) ∷ undo, failed))
    × ((e : ExecutedStep) (c : PlaceOrderRequest) (o : Order) (text : String)
        → In e executed
        → e.step.compensate ≡ some c
        → is_zero fixed (to_go_decimal fixed c.quantity) ≡ false
        → e.order ≡ some o
        → o.executed_qty ≡ some text
        → is_zero fixed (to_go_decimal fixed (some text)) ≡ true
        → In {A = Call} (e.step.exchange, c) undo)
unfolding has_exchange
unfilled_reversed_example =
    unfilled_reversed fixed exchanges second_rejects executed (leg "b") [] [] (refl, refl, tt) refl
      refl

-- The same in parallel, whichever answer comes first.
parallel_compensates :
    execute_parallel fixed ((leg "b", rejects) ∷ (leg "a", accepts (some resting)) ∷ []) []
    ≡ (("a", request sell) ∷ [], failed)
unfolding execute_parallel collect_executed any_rejected compensate_all compensations compensation
    compensation_qty adjust_qty to_go_decimal read_ℤ count_marks
parallel_compensates = refl
