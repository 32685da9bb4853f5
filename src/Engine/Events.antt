-- ===== src/Engine/Events.antt =====
-- What happens to a running engine: prices, each with the answers of the executor and of the monitor
-- in its round, and order updates. OnPriceUpdate holds the engine's mutex.
use opensqt_market_maker.Common.{ℕ, suc, ◌≡◌, refl, true, false, Option, List, [], ◌∷◌, arith}
use opensqt_market_maker.Common.Int.{ℤ}
use opensqt_market_maker.Num.{Num}
use opensqt_market_maker.Pb.{OrderAction, OrderUpdate, PbDecimal}
use opensqt_market_maker.Pb.Convert.{to_go_decimal}
use opensqt_market_maker.Pb.OrderId.{IdGen}
use opensqt_market_maker.Grid.Slots.{apply_action_results}
use opensqt_market_maker.Engine.{
  GridEngine, MonitorView, Executor, all_submitted, perform, execute, anchor_at, actions_for,
  save_state, after_execute, on_price_update, on_engine_order_update,
}

pub data Event (D F : Type 0) : Type 0 where
  priced : Executor → Option (MonitorView D F) → ℤ → PbDecimal → Event D F
  ordered : OrderUpdate → Event D F

-- The last price among the events, if there is one.
unfoldable pub last_price : {D F : Type 0} → PbDecimal → List (Event D F) → PbDecimal
last_price p [] = p
last_price p (priced ex monitor now q ∷ events) = last_price q events
last_price p (ordered u ∷ events) = last_price p events

module _ (n : Num) where
  open n use {D, F}

  unfoldable pub step : Event D F → GridEngine D F × IdGen → GridEngine D F × IdGen
  step (priced ex monitor now price) s = on_price_update n ex monitor now price s.0 s.1
  step (ordered u) s = (on_engine_order_update n u s.0, s.1)

  unfoldable pub run : List (Event D F) → GridEngine D F × IdGen → GridEngine D F × IdGen
  unfolding step
  run [] s = s
  run (event ∷ events) s = run events (step event s)

-- The tasks of all actions run.
abbrev pub IsTaken : Executor → Type 0
IsTaken ex = (i : ℕ) → ex.submits i ≡ true

taken_all :
    (ex : Executor) (i : ℕ) (actions : List OrderAction)
    → IsTaken ex
    → all_submitted ex i actions ≡ true
unfolding all_submitted
taken_all ex i [] t = refl
taken_all ex i (a ∷ actions) t = ground (arith, t i, taken_all ex (suc i) actions t)

module _ (n : Num) where
  open n use {D, F}

  -- A price update of an engine that does not wait, when all tasks run.
  pub price_taken :
      (ex : Executor) (monitor : Option (MonitorView D F)) (now : ℤ) (price : PbDecimal)
      (e : GridEngine D F) (g : IdGen)
      → IsTaken ex
      → e.waiting ≡ false
      → let p = to_go_decimal n price in
        let asked = actions_for n monitor p e g in
        on_price_update n ex monitor now price e g ≡ (
          save_state n now p (record e {
            anchor_price = anchor_at n p e;
            manager = apply_action_results n (perform ex 0 asked.0) e.manager;
          }),
          asked.1,
        )
  unfolding on_price_update execute after_execute
  price_taken ex monitor now price e g t w =
      let asked = actions_for n monitor (to_go_decimal n price) e g in
      rw (w, taken_all ex 0 asked.0 t) refl
