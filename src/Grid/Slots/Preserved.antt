-- ===== src/Grid/Slots/Preserved.antt =====
-- The operations of the slot manager preserve its invariant.
use opensqt_market_maker.Common.{
  ℕ, suc, ◌<◌, ◌≡◌, refl, ap, none, List, [], ◌∷◌, String, arith, length, Option-cases, Bool-cases,
  inl, inr,
}
use opensqt_market_maker.Common.Int.{ℤ}
use opensqt_market_maker.Common.Assoc.{lookup, insert, string_eq, int_eq}
use opensqt_market_maker.Num.{Num}
use opensqt_market_maker.Num.Laws.{HasText}
use opensqt_market_maker.Pb.{InventorySlot, Order, OrderUpdate}
use opensqt_market_maker.Pb.Enums.{
  OrderStatus, status_unspecified, new, partially_filled, filled, canceled, rejected, expired, free,
  is_place,
}
use opensqt_market_maker.Pb.Convert.{to_go_decimal, to-from_go_decimal}
use opensqt_market_maker.Position.State.{write}
use opensqt_market_maker.Position.Results.{OrderActionResult}
use opensqt_market_maker.Position.WellFormed.Defs.{
  Below-nil, Below-suc, Below-insert, Distinct-insert, Keyed-allocate, lt_of_lookup,
}
use opensqt_market_maker.Grid.Slots.{
  SlotManager, reset_slot_locked, notify_update, find_slot, handle_filled, dispatch_update,
  on_order_update, sync_order, sync_all, sync_orders, get_or_create_slot, allocate, created_slot,
  apply_result, apply_one, apply_action_results, position_of, synced_slot, placed_slot,
}
use opensqt_market_maker.Grid.Slots.Invariant.{
  IsConsistent, reset-IsConsistent, write-IsConsistent, listeners-IsConsistent, hold-IsConsistent,
}

length-insert_new {ℓ} :
    {V : Type ℓ} (k : String) (v : V) (m : List (String × V))
    → lookup k m ≡ none
    → length (insert k v m) ≡ suc (length m)
unfolding lookup insert
length-insert_new k v [] e = refl
length-insert_new k v ((j, w) ∷ m) e = ground (arith, length-insert_new k v m)

module _ (n : Num) where
  open n use {D, show}

  filled-IsConsistent :
      (u : OrderUpdate) (r : ℕ) (m : SlotManager)
      → IsConsistent n m
      → IsConsistent n (handle_filled n u r m)
  unfolding handle_filled notify_update
  filled-IsConsistent u r m w =
      let s = position_of n (m.store r) u in
      let m' = reset_slot_locked r (record m { store = write r s m.store }) in
      listeners-IsConsistent n m'.update_callbacks _ m' (
        reset-IsConsistent n r (record m { store = write r s m.store })
          (write-IsConsistent n r s m refl w))

  dispatch-IsConsistent :
      (u : OrderUpdate) (r : ℕ) (m : SlotManager) (status : OrderStatus)
      → IsConsistent n m
      → IsConsistent n (dispatch_update n status u r m)
  unfolding dispatch_update
  dispatch-IsConsistent u r m filled w = filled-IsConsistent u r m w
  dispatch-IsConsistent u r m canceled w = reset-IsConsistent n r m w
  dispatch-IsConsistent u r m status_unspecified w = w
  dispatch-IsConsistent u r m new w = w
  dispatch-IsConsistent u r m partially_filled w = w
  dispatch-IsConsistent u r m rejected w = w
  dispatch-IsConsistent u r m expired w = w

  pub on_order_update-IsConsistent :
      (u : OrderUpdate) (m : SlotManager)
      → IsConsistent n m
      → IsConsistent n (on_order_update n u m).0
  unfolding on_order_update
  on_order_update-IsConsistent u m w = elim (Option-cases (find_slot u m)) [
    | inl e ↦ rw (e, on_order_update) w
    | inr (r, e) ↦ rw (e, on_order_update) (dispatch-IsConsistent u r m u.status w)
  ]

  sync_order-IsConsistent :
      (o : Order) (m : SlotManager) → IsConsistent n m → IsConsistent n (sync_order n o m)
  unfolding sync_order
  sync_order-IsConsistent o m w =
      elim (Option-cases (lookup (show (to_go_decimal n o.price)) m.slots)) [
        | inl e ↦ rw (e, sync_order) w
        | inr (r, e) ↦
            rw (e, sync_order)
              (hold-IsConsistent n o.order_id o.client_order_id (synced_slot (m.store r) o) r m
                (lt_of_lookup m.fresh (show (to_go_decimal n o.price)) r m.slots w.known_slots e)
                refl w)
      ]

  sync_all-IsConsistent :
      (orders : List Order) (m : SlotManager)
      → IsConsistent n m
      → IsConsistent n (sync_all n orders m)
  unfolding sync_all
  sync_all-IsConsistent [] m w = w
  sync_all-IsConsistent (o ∷ orders) m w =
      sync_all-IsConsistent orders (sync_order n o m) (sync_order-IsConsistent o m w)

  pub sync_orders-IsConsistent :
      (orders : List Order) (m : SlotManager)
      → IsConsistent n m
      → IsConsistent n (sync_orders n orders m)
  unfolding sync_orders
  sync_orders-IsConsistent orders m w =
      sync_all-IsConsistent orders (record m { order_map = []; client_omap = [] })
        (record {
          keyed = w.keyed;
          distinct = w.distinct;
          known_slots = w.known_slots;
          known_orders = Below-nil ℤ m.fresh;
          known_clients = Below-nil String m.fresh;
          counted = w.counted;
        })

  allocate-IsConsistent :
      (key : String) (s : InventorySlot) (m : SlotManager)
      → show (to_go_decimal n s.price) ≡ key
      → lookup key m.slots ≡ none
      → IsConsistent n m
      → IsConsistent n (allocate n key s m)
  allocate-IsConsistent key s m e absent w = record {
    keyed = Keyed-allocate n m.fresh key s m.store m.slots e w.known_slots w.keyed;
    distinct = Distinct-insert key m.fresh m.slots w.known_slots w.distinct;
    known_slots =
        Below-insert (suc m.fresh) key m.fresh m.slots (omega arith)
          (Below-suc m.fresh m.slots w.known_slots);
    known_orders = Below-suc m.fresh m.order_map w.known_orders;
    known_clients = Below-suc m.fresh m.client_omap w.known_clients;
    counted = omega (arith, length-insert_new key m.fresh m.slots absent, w.counted);
  }

  pub get_or_create-IsConsistent :
      HasText n
      → (price : D) (m : SlotManager) → IsConsistent n m
      → let c = get_or_create_slot n price m in IsConsistent n c.1 × (c.0 < c.1.fresh)
  unfolding get_or_create_slot
  get_or_create-IsConsistent t price m w = elim (Option-cases (lookup (show price) m.slots)) [
    | inl e ↦
        rw (e, get_or_create_slot)
          (
            allocate-IsConsistent (show price) (created_slot n price) m
                (ap show (to-from_go_decimal n t price)) e w,
            omega arith,
          )
    | inr (r, e) ↦
        rw (e, get_or_create_slot) (w, lt_of_lookup m.fresh (show price) r m.slots w.known_slots e)
  ]

  apply_result-IsConsistent :
      (res : OrderActionResult) (r : ℕ) (m : SlotManager)
      → r < m.fresh
      → IsConsistent n m
      → IsConsistent n (apply_result n res r m)
  unfolding apply_result
  apply_result-IsConsistent res r m lt w =
      let freed = write-IsConsistent n r (record (m.store r) { slot_status = free }) m refl w in
      let placed = λ (o : Order).
        hold-IsConsistent n o.order_id o.client_order_id (placed_slot n (m.store r) o) r m lt refl
          w in
      elim (Option-cases res.error) [
        | inr (error, e) ↦ rw (e, apply_result) freed
        | inl e ↦ elim (Option-cases res.order) [
          | inl f ↦ rw (e, f, apply_result) w
          | inr (o, f) ↦ elim (Bool-cases (is_place res.action.type)) [
            | inl h ↦ rw (e, f, h, apply_result) (placed o)
            | inr h ↦ rw (e, f, h, apply_result) w
          ]
        ]
      ]

  pub apply_action_results-IsConsistent :
      HasText n
      → (results : List OrderActionResult) (m : SlotManager) → IsConsistent n m
      → IsConsistent n (apply_action_results n results m)
  unfolding apply_action_results apply_one
  apply_action_results-IsConsistent t [] m w = w
  apply_action_results-IsConsistent t (res ∷ results) m w =
      let c = get_or_create-IsConsistent t (to_go_decimal n res.action.price) m w in
      apply_action_results-IsConsistent t results (apply_one n res m)
        (apply_result-IsConsistent res _ _ c.1 c.0)
