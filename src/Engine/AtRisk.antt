-- ===== src/Engine/AtRisk.antt =====
-- What the engine does with open buys while a risk is triggered.
use opensqt_market_maker.Common.{
  ℕ, suc, ◌≡◌, sym, ap, subst, inl, inr, true, false, none, some, List, [], ◌∷◌, String, get_elem?,
  In, All,
}
use opensqt_market_maker.Common.Int.{ℤ}
use opensqt_market_maker.Num.{Num}
use opensqt_market_maker.Pb.{OrderAction, PbDecimal}
use opensqt_market_maker.Pb.Convert.{to_go_decimal}
use opensqt_market_maker.Pb.Enums.{buy, locked}
use opensqt_market_maker.Pb.OrderId.{IdGen}
use opensqt_market_maker.Position.State.{Store}
use opensqt_market_maker.Position.Results.{OrderActionResult}
use opensqt_market_maker.Grid.{
  cancel_action, calculate_actions, skewed_price, calculate_inventory, calculate_effective_interval,
}
use opensqt_market_maker.Grid.Actions.{calculate_actions-IsSound}
use opensqt_market_maker.Grid.Kinds.{IsSound}
use opensqt_market_maker.Grid.Risk.{Holds, risk_cancels_buys}
use opensqt_market_maker.Grid.Slots.{apply_action_results}
use opensqt_market_maker.Engine.{
  GridEngine, MonitorView, Executor, call, perform, slot_of, get_grid_slots, view_of, anchor_at,
  actions_for, on_price_update, save_state,
}
use opensqt_market_maker.Engine.Events.{IsTaken, price_taken}

-- An action that is asked for is performed, and its answer is among the results.
perform-Holds :
    (ex : Executor) (i : ℕ) (actions : List OrderAction) (c : OrderAction)
    → Holds c actions
    → (j : ℕ) × In
        (record { action = c; order = (call ex j c).0; error = (call ex j c).1 })
        (perform ex i actions)
unfolding Holds perform
perform-Holds ex i [] c h = absurd h
perform-Holds ex i (a ∷ actions) c (inl e) = (
  i,
  inl (ap (λ x. record { action = x; order = (call ex i x).0; error = (call ex i x).1 }) (sym e)),
)
perform-Holds ex i (a ∷ actions) c (inr h) =
    let (j, found) = perform-Holds ex (suc i) actions c h in (j, inr found)

perform-All :
    (ex : Executor) (i : ℕ) (actions : List OrderAction) (P : OrderAction → Type 0)
    → All P actions
    → All (λ r. P r.action) (perform ex i actions)
unfolding perform
perform-All ex i [] P h = tt
perform-All ex i (a ∷ actions) P h = (h.0, perform-All ex (suc i) actions P h.1)

module _ (n : Num) where
  open n use {D, F}

  -- The copy of a slot that the strategy sees.
  place_of :
      (store : Store) (slots : List (String × ℕ)) (k : String) (a : ℕ)
      → In (k, a) slots
      → (i : ℕ) × (get_elem? (get_grid_slots n store slots) i ≡ some (slot_of n (store a)))
  unfolding get_grid_slots
  place_of store [] k a h = absurd h
  place_of store ((l, b) ∷ slots) k a (inl e) =
      (0, ap (λ (x : String × ℕ). some (slot_of n (store x.1))) (sym e))
  place_of store ((l, b) ∷ slots) k a (inr h) =
      let (i, found) = place_of store slots k a h in (suc i, found)

  -- What the strategy may ask for at the price, while a risk is triggered.
  abbrev pub AskedAtRisk : MonitorView D F → D → GridEngine D F → OrderAction → Type 0
  AskedAtRisk view p e =
      let slots = get_grid_slots n e.manager.store e.manager.slots in
      IsSound n e.config (skewed_price n e.config p (calculate_inventory n e.config slots n.zero))
        (calculate_effective_interval n e.config view.atr) view.volatility_factor true slots

  asked_at_risk :
      (view : MonitorView D F) (p : D) (e : GridEngine D F) (g : IdGen)
      → view.triggered ≡ true
      → All (AskedAtRisk view p e) (actions_for n (some view) p e g).0
  unfolding actions_for view_of
  asked_at_risk view p e g t =
      let slots = get_grid_slots n e.manager.store e.manager.slots in
      subst
        (λ r.
          All (AskedAtRisk view p e)
            (calculate_actions n e.config p (anchor_at n p e) view.atr view.volatility_factor r
              slots g).0)
        (sym t)
        (calculate_actions-IsSound n e.config p (anchor_at n p e) view.atr view.volatility_factor
          true slots g)

  cancels_asked :
      (view : MonitorView D F) (p : D) (e : GridEngine D F) (g : IdGen) (k : String) (a : ℕ)
      → In (k, a) e.manager.slots
      → view.triggered ≡ true
      → (e.manager.store a).slot_status ≡ locked
      → (e.manager.store a).order_side ≡ buy
      → Holds
          (cancel_action n e.config (slot_of n (e.manager.store a)))
          (actions_for n (some view) p e g).0
  unfolding actions_for view_of slot_of
  cancels_asked view p e g k a h t l b =
      let (i, found) = place_of e.manager.store e.manager.slots k a h in
      let s = slot_of n (e.manager.store a) in
      let slots = get_grid_slots n e.manager.store e.manager.slots in
      subst
        (λ r.
          Holds (cancel_action n e.config s)
            (calculate_actions n e.config p (anchor_at n p e) view.atr view.volatility_factor r
              slots g).0)
        (sym t)
        (risk_cancels_buys n e.config p (anchor_at n p e) view.atr view.volatility_factor slots g i
          s found l b)

  -- A price update while the monitor reports a risk, when the tasks of all actions run. The slots become what ApplyActionResults makes
  -- of the executor's answers; the actions that were executed are those that are allowed during a
  -- risk, so that none opens a buy; and the executor was asked to cancel the order of every slot
  -- that has a buy open, by its number.
  pub engine_cancels_buys :
      (ex : Executor) (view : MonitorView D F) (now : ℤ) (price : PbDecimal) (e : GridEngine D F)
      (g : IdGen)
      → view.triggered ≡ true
      → IsTaken ex
      → e.waiting ≡ false
      → (results : List OrderActionResult) × ((on_price_update n ex
            (some view)
            now
            price
            e
            g).0.manager
          ≡ apply_action_results n results e.manager)
        × All (λ r. AskedAtRisk view (to_go_decimal n price) e r.action) results
        × ((k : String) (a : ℕ)
            → In (k, a) e.manager.slots
            → (e.manager.store a).slot_status ≡ locked
            → (e.manager.store a).order_side ≡ buy
            → (j : ℕ) × In
                (record {
                  action = cancel_action n e.config (slot_of n (e.manager.store a));
                  order = none;
                  error =
                      ex.batch_cancel_orders j e.config.symbol
                        ((e.manager.store a).order_id ∷ [])
                        false;
                })
                results)
  unfolding save_state slot_of call
  engine_cancels_buys ex view now price e g t taken w =
      let p = to_go_decimal n price in
      let asked = (actions_for n (some view) p e g).0 in
      (
        perform ex 0 asked,
        ap (λ (x : GridEngine D F × IdGen). x.0.manager)
            (price_taken n ex (some view) now price e g taken w),
        perform-All ex 0 asked (AskedAtRisk view p e) (asked_at_risk view p e g t),
        λ k a h l b. perform-Holds ex 0 asked _ (cancels_asked view p e g k a h t l b),
      )
