-- ===== src/Execution.antt =====
-- market_maker/internal/trading/execution: executor.go and smart_executor.go. The exchanges are a
-- function of all calls of PlaceOrder so far, which answers the last one. A missing exchange is a nil
-- interface, on which the call panics.
pub mod Saga
pub mod Unfilled
mod Tests
use mathlib.Core.List.{reverse}
use opensqt_market_maker.Common.{
  Bool, true, false, ◌||◌, Option, none, some, List, [], ◌∷◌, ◌++◌, String, map, if◌then◌else◌,
}
use opensqt_market_maker.Common.Int.{ℤ}
use opensqt_market_maker.Common.Assoc.{string_eq}
use opensqt_market_maker.Num.{Num, is_zero}
use opensqt_market_maker.Pb.{Order, PbDecimal, PlaceOrderRequest}
use opensqt_market_maker.Pb.Convert.{to_go_decimal, from_go_decimal}

pub record Step : Type 0 where
  pub exchange : String
  pub request : PlaceOrderRequest
  pub compensate : Option PlaceOrderRequest

pub record ExecutedStep : Type 0 where
  pub step : Step
  pub order : Option Order

pub record BatchCancelStep : Type 0 where
  pub exchange : String
  pub symbol : String
  pub order_ids : List ℤ

-- A call of PlaceOrder, with the name of the exchange.
abbrev pub Call : Type 0
Call = String × PlaceOrderRequest

-- What PlaceOrder returns: an error, or an order, which may be nil.
pub data Answer : Type 0 where
  rejects : Answer
  accepts : Option Order → Answer

pub data Outcome : Type 0 where
  done failed panicked : Outcome

abbrev pub call_of : Step → Call
call_of s = (s.exchange, s.request)

unfoldable pub has_exchange : String → List String → Bool
has_exchange name [] = false
has_exchange name (e ∷ exchanges) = string_eq.beq e name || has_exchange name exchanges

module _ (n : Num) where
  -- The executed quantity, unless there is none.
  unfoldable pub adjust_qty : PbDecimal → PbDecimal → PbDecimal
  adjust_qty qty none = qty
  adjust_qty qty (some text) =
      let exec_qty = to_go_decimal n (some text) in
      if is_zero n exec_qty then qty else from_go_decimal n exec_qty

  unfoldable pub compensation_qty : PbDecimal → Option Order → PbDecimal
  unfolding adjust_qty
  compensation_qty qty none = qty
  compensation_qty qty (some o) = adjust_qty qty o.executed_qty

  -- The call that compensates a step, if there is one.
  unfoldable pub compensation : String → Option PlaceOrderRequest → Option Order → List Call
  unfolding compensation_qty
  compensation exchange none order = []
  compensation exchange (some orig) order =
      let qty = compensation_qty orig.quantity order in
      if is_zero n (to_go_decimal n qty)
      then []
      else (exchange, record orig { quantity = qty }) ∷ []

  -- The loop of compensateAll, on the steps from the last one backwards. An error is only logged.
  unfoldable pub compensations : List ExecutedStep → List Call
  unfolding compensation
  compensations [] = []
  compensations (e ∷ executed) =
      compensation e.step.exchange e.step.compensate e.order ++ compensations executed

  unfoldable pub compensate_all : List ExecutedStep → List Call → List Call
  compensate_all executed log = log ++ compensations (reverse executed)

  -- What a round of Execute does with the answer to its call: `next` is the rest of the loop.
  unfoldable pub after_answer :
      Answer
      → (Option Order → List Call × Outcome)
      → List ExecutedStep
      → List Call
      → List Call × Outcome
  unfolding compensate_all
  after_answer rejects next executed log = (compensate_all executed log, failed)
  after_answer (accepts order) next executed log = next order

  module _ (exchanges : List String) (env : List Call → Answer) where
    -- The loop of SequenceExecutor.Execute, with the steps executed so far and the calls made.
    unfoldable pub execute_from : List Step → List ExecutedStep → List Call → List Call × Outcome
    unfolding after_answer
    execute_from [] executed log = (log, done)
    execute_from (s ∷ steps) executed log =
        let log' = log ++ call_of s ∷ [] in
        let next : Option Order → List Call × Outcome =
          λ order. execute_from steps (executed ++ record { step = s; order = order } ∷ []) log' in
        let answered = after_answer (env log') next executed log' in
        if has_exchange s.exchange exchanges then answered else (log, panicked)

    unfoldable pub execute : List Step → List Call → List Call × Outcome
    unfolding execute_from
    execute steps log = execute_from steps [] log

  -- ParallelExecutor.Execute, from the results in the order in which they arrive on the channel, with
  -- the calls that the goroutines have made.
  unfoldable pub collect_executed : List (Step × Answer) → List ExecutedStep
  collect_executed [] = []
  collect_executed ((s, rejects) ∷ results) = collect_executed results
  collect_executed ((s, accepts order) ∷ results) =
      record { step = s; order = order } ∷ collect_executed results

  unfoldable pub any_rejected : List (Step × Answer) → Bool
  any_rejected [] = false
  any_rejected ((s, rejects) ∷ results) = true
  any_rejected ((s, accepts order) ∷ results) = any_rejected results

  unfoldable pub execute_parallel : List (Step × Answer) → List Call → List Call × Outcome
  unfolding collect_executed any_rejected
  execute_parallel results log =
      if any_rejected results
      then (compensate_all (collect_executed results) log, failed)
      else (log, done)

-- BatchCancel: the errors in the order in which they arrive, of which the last one is returned.
unfoldable pub last_error {ℓ} : {E : Type ℓ} → List (Option E) → Option E → Option E
last_error [] last = last
last_error (none ∷ results) last = last_error results last
last_error (some e ∷ results) last = last_error results (some e)

unfoldable pub cancel_one {ℓ} :
    {E : Type ℓ} → List String → E → (BatchCancelStep → Option E) → BatchCancelStep → Option E
cancel_one exchanges not_found cancel step =
    if has_exchange step.exchange exchanges then cancel step else some not_found

-- The steps in the order in which their answers arrive.
unfoldable pub batch_cancel {ℓ} :
    {E : Type ℓ} → List String → E → (BatchCancelStep → Option E) → List BatchCancelStep → Option E
unfolding last_error cancel_one
batch_cancel exchanges not_found cancel arrivals =
    last_error (map (cancel_one exchanges not_found cancel) arrivals) none
