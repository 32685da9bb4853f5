-- ===== src/Position/WellFormed/Results.antt =====
-- CalculateAdjustments and ApplyActionResults keep the maps well-formed.
use opensqt_market_maker.Common.{
  ℕ, ◌<◌, ◌≡◌, refl, Option, none, some, List, [], ◌∷◌, String, arith, Option-cases, Bool-cases,
  inl, inr,
}
use opensqt_market_maker.Common.Int.{ℤ}
use opensqt_market_maker.Common.Assoc.{lookup, string_eq, int_eq}
use opensqt_market_maker.Num.{Num}
use opensqt_market_maker.Num.Laws.{HasText}
use opensqt_market_maker.Pb.{Order, OrderAction, PlaceOrderRequest}
use opensqt_market_maker.Pb.Enums.{is_place}
use opensqt_market_maker.Pb.Convert.{to_go_decimal}
use opensqt_market_maker.Position.State.{SuperPositionManager, is_margin_locked}
use opensqt_market_maker.Position.Slots.{view_slots}
use opensqt_market_maker.Position.Updates.{released}
use opensqt_market_maker.Position.Results.{
  OrderActionResult, IStrategy, pending_slot, mark_request, mark_pending, mark_all, adjust_by,
  calculate_adjustments, collect_updates, failed_slot, apply_error, locked_slot, apply_placed,
  apply_canceled, apply_success, apply_result, apply_updates, apply_action_results,
}
use opensqt_market_maker.Position.WellFormed.Defs.{
  Below, IsWellFormed, Below-insert, Below-delete, lt_of_lookup,
}
use opensqt_market_maker.Position.WellFormed.Slots.{
  get_or_create_slot-IsWellFormed, get_or_create_slot-lt, insert_client-Below,
}
use opensqt_market_maker.Position.WellFormed.Updates.{write-IsWellFormed, delete_client-Below}

module _ (n : Num) where
  open n use {D, show}

  mark_request-IsWellFormed :
      (q : Option PlaceOrderRequest) (r : ℕ) (m : SuperPositionManager D)
      → r < m.fresh
      → IsWellFormed n m
      → IsWellFormed n (mark_request n q r m)
  unfolding mark_request
  mark_request-IsWellFormed none r m lt w = w
  mark_request-IsWellFormed (some q) r m lt w =
      let a = write-IsWellFormed n r (pending_slot n (m.store r) q) m refl w in
      record {
        keyed = a.keyed;
        distinct = w.distinct;
        known_slots = w.known_slots;
        known_orders = w.known_orders;
        known_clients = Below-insert m.fresh q.client_order_id r m.client_omap lt w.known_clients;
      }

  mark_all-IsWellFormed :
      HasText n
      → (actions : List OrderAction) (m : SuperPositionManager D) → IsWellFormed n m
      → IsWellFormed n (mark_all n actions m)
  unfolding mark_all mark_pending
  mark_all-IsWellFormed t [] m w = w
  mark_all-IsWellFormed t (a ∷ actions) m w =
      mark_all-IsWellFormed t actions (mark_pending n a m) (elim (Bool-cases (is_place a.type)) [
        | inl e ↦
            let price = to_go_decimal n a.price in
            rw (e, mark_pending)
              (mark_request-IsWellFormed a.request _ _ (get_or_create_slot-lt n price m w)
                (get_or_create_slot-IsWellFormed n t price m w))
        | inr e ↦ rw (e, mark_pending) w
      ])

  adjust_by-IsWellFormed :
      HasText n
      → (o : Option (List OrderAction)) (m : SuperPositionManager D) → IsWellFormed n m
      → IsWellFormed n (adjust_by n o m).0
  unfolding adjust_by
  adjust_by-IsWellFormed t none m w = w
  adjust_by-IsWellFormed t (some actions) m w = mark_all-IsWellFormed t actions m w

  pub calculate_adjustments-IsWellFormed :
      HasText n
      → (now : ℤ) (strategy : Option (IStrategy n)) (price : D) (m : SuperPositionManager D)
      → IsWellFormed n m
      → IsWellFormed n (calculate_adjustments n now strategy price m).0
  unfolding calculate_adjustments
  calculate_adjustments-IsWellFormed t now none price m w = ground (arith, w)
  calculate_adjustments-IsWellFormed t now (some strategy) price m w =
      elim (Bool-cases (is_margin_locked n now m)) [
        | inl e ↦ rw (e, calculate_adjustments) w
        | inr e ↦
            rw (e, calculate_adjustments)
              (adjust_by-IsWellFormed t (strategy (view_slots m.store m.slots) m.anchor_price price)
                m w)
      ]

  -- The slots that a batch of results is for are in use.
  AllBelow : ℕ → List (ℕ × OrderActionResult) → Type 0
  AllBelow fresh [] = Unit
  AllBelow fresh ((r, res) ∷ updates) = (r < fresh) × AllBelow fresh updates

  collect_updates-AllBelow :
      (results : List OrderActionResult) (fresh : ℕ) (slots : List (String × ℕ))
      → Below fresh slots
      → AllBelow fresh (collect_updates n results slots)
  unfolding collect_updates AllBelow
  collect_updates-AllBelow [] fresh slots b = tt
  collect_updates-AllBelow (res ∷ results) fresh slots b =
      let key = show (to_go_decimal n res.action.price) in
      let rest = collect_updates-AllBelow results fresh slots b in
      elim (Option-cases (lookup key slots)) [
        | inl e ↦ rw (e, collect_updates) rest
        | inr (r, e) ↦ rw (e, collect_updates) (lt_of_lookup fresh key r slots b e, rest)
      ]

  apply_error-IsWellFormed :
      (q : Option PlaceOrderRequest) (r : ℕ) (m : SuperPositionManager D)
      → IsWellFormed n m
      → IsWellFormed n (apply_error n q r m)
  unfolding apply_error
  apply_error-IsWellFormed none r m w = w
  apply_error-IsWellFormed (some q) r m w = ground (
    arith,
    write-IsWellFormed n r (failed_slot n (m.store r)) m refl w,
    Below-delete m.fresh (m.store r).client_oid m.client_omap w.known_clients,
  )

  apply_placed-IsWellFormed :
      (o : Order) (r : ℕ) (m : SuperPositionManager D)
      → r < m.fresh
      → IsWellFormed n m
      → IsWellFormed n (apply_placed n o r m)
  unfolding apply_placed
  apply_placed-IsWellFormed o r m lt w =
      let s = locked_slot n (m.store r) o in
      let a = write-IsWellFormed n r s m refl w in
      record {
        keyed = a.keyed;
        distinct = w.distinct;
        known_slots = w.known_slots;
        known_orders = Below-insert m.fresh o.order_id r m.order_map lt w.known_orders;
        known_clients =
            insert_client-Below n m.fresh s.client_oid r m.client_omap lt w.known_clients;
      }

  apply_canceled-IsWellFormed :
      (id : ℤ) (r : ℕ) (m : SuperPositionManager D)
      → IsWellFormed n m
      → IsWellFormed n (apply_canceled n id r m)
  unfolding apply_canceled
  apply_canceled-IsWellFormed id r m w =
      let a = write-IsWellFormed n r (released n (m.store r)) m refl w in
      record {
        keyed = a.keyed;
        distinct = w.distinct;
        known_slots = w.known_slots;
        known_orders = Below-delete m.fresh id m.order_map w.known_orders;
        known_clients =
            delete_client-Below n m.fresh (m.store r).client_oid m.client_omap w.known_clients;
      }

  apply_success-IsWellFormed :
      (a : OrderAction) (order : Option Order) (r : ℕ) (m : SuperPositionManager D)
      → r < m.fresh
      → IsWellFormed n m
      → IsWellFormed n (apply_success n a order r m)
  unfolding apply_success
  apply_success-IsWellFormed a none r m lt w =
      ground (arith, apply_canceled-IsWellFormed a.order_id r m w, w)
  apply_success-IsWellFormed a (some o) r m lt w =
      ground (
        arith,
        apply_canceled-IsWellFormed a.order_id r m w,
        apply_placed-IsWellFormed o r m lt w,
        w,
      )

  -- A result moves no address.
  apply_result-fresh :
      (r : ℕ) (res : OrderActionResult) (m : SuperPositionManager D)
      → (apply_result n r res m).fresh ≡ m.fresh
  unfolding apply_result
  apply_result-fresh r res m = ground arith

  apply_result-IsWellFormed :
      (r : ℕ) (res : OrderActionResult) (m : SuperPositionManager D)
      → r < m.fresh
      → IsWellFormed n m
      → IsWellFormed n (apply_result n r res m)
  unfolding apply_result
  apply_result-IsWellFormed r res m lt w = elim (Option-cases res.error) [
    | inl e ↦ rw (e, apply_result) (apply_success-IsWellFormed res.action res.order r m lt w)
    | inr (x, e) ↦
        rw (e, apply_result) (ground (arith, apply_error-IsWellFormed res.action.request r m w, w))
  ]

  apply_updates-IsWellFormed :
      (updates : List (ℕ × OrderActionResult)) (m : SuperPositionManager D)
      → AllBelow m.fresh updates
      → IsWellFormed n m
      → IsWellFormed n (apply_updates n updates m)
  unfolding apply_updates AllBelow
  apply_updates-IsWellFormed [] m b w = w
  apply_updates-IsWellFormed ((r, res) ∷ updates) m b w =
      apply_updates-IsWellFormed updates (apply_result n r res m)
        (rw (apply_result-fresh r res m) b.1) (apply_result-IsWellFormed r res m b.0 w)

  pub apply_action_results-IsWellFormed :
      (results : List OrderActionResult) (m : SuperPositionManager D)
      → IsWellFormed n m
      → IsWellFormed n (apply_action_results n results m)
  unfolding apply_action_results
  apply_action_results-IsWellFormed results m w =
      apply_updates-IsWellFormed (collect_updates n results m.slots) m
        (collect_updates-AllBelow results m.fresh m.slots w.known_slots) w
