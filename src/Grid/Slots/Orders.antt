-- ===== src/Grid/Slots/Orders.antt =====
-- Orders and slots of SlotManager: updates and SyncOrders.
use opensqt_market_maker.Common.{
  ℕ, ◌≡◌, ◌≢◌, refl, sym, ap, subst, ◌∙◌, ◌⊎◌, inl, inr, none, some, List, [], ◌∷◌, String, arith,
  All, Option-cases,
}
use opensqt_market_maker.Common.Int.{ℤ, pos}
use opensqt_market_maker.Common.Assoc.{
  lookup, delete, string_eq, int_eq, lookup-insert, lookup-delete_self,
}
use opensqt_market_maker.Num.{Num}
use opensqt_market_maker.Pb.{Order, OrderUpdate}
use opensqt_market_maker.Pb.Enums.{filled, canceled, free}
use opensqt_market_maker.Pb.Convert.{to_go_decimal}
use opensqt_market_maker.Position.State.{delete_client}
use opensqt_market_maker.Grid.Slots.{
  SlotManager, slot_not_found, find_slot, dispatch_update, on_order_update, sync_order, sync_all,
  sync_orders,
}

module _ (n : Num) where
  open n use {D, show}

  update_found :
      (u : OrderUpdate) (r : ℕ) (m : SlotManager)
      → find_slot u m ≡ some r
      → on_order_update n u m ≡ (dispatch_update n u.status u r m, none)
  unfolding on_order_update
  update_found u r m e = rw (e, on_order_update)

  update_lost :
      (u : OrderUpdate) (m : SlotManager)
      → find_slot u m ≡ none
      → on_order_update n u m ≡ (m, some slot_not_found)
  unfolding on_order_update
  update_lost u m e = rw (e, on_order_update)

  -- What a final update leaves of the order.
  releases :
      (u : OrderUpdate) (r : ℕ) (m : SlotManager)
      → (u.status ≡ filled) ⊎ (u.status ≡ canceled)
      → (m.store r).order_id ≡ u.order_id
      → (m.store r).client_oid ≡ u.client_order_id
      → let m' = dispatch_update n u.status u r m in
        ((m'.store r).order_id ≡ pos 0)
        × ((m'.store r).slot_status ≡ free)
        × (m'.order_map ≡ delete u.order_id m.order_map)
        × (m'.client_omap ≡ delete_client u.client_order_id m.client_omap)
  unfolding dispatch_update
  releases u r m (inl s) i c = rw s (ground arith)
  releases u r m (inr s) i c = rw s (ground arith)

  not_found :
      (u : OrderUpdate) (m m' : SlotManager)
      → m'.order_map ≡ delete u.order_id m.order_map
      → m'.client_omap ≡ delete_client u.client_order_id m.client_omap
      → find_slot u m' ≡ none
  unfolding find_slot delete_client
  not_found u m m' o c = ground (
    arith,
    lookup-delete_self u.order_id m.order_map,
    lookup-delete_self u.client_order_id m.client_omap,
  )

  -- The fill or the cancellation of the order that its slot holds frees the slot, and the same
  -- update, when it comes again, finds no slot and changes nothing.
  pub final_update_once :
      (u : OrderUpdate) (r : ℕ) (m : SlotManager)
      → find_slot u m ≡ some r
      → (u.status ≡ filled) ⊎ (u.status ≡ canceled)
      → (m.store r).order_id ≡ u.order_id
      → (m.store r).client_oid ≡ u.client_order_id
      → let m' = (on_order_update n u m).0 in
        ((m'.store r).order_id ≡ pos 0)
        × ((m'.store r).slot_status ≡ free)
        × (on_order_update n u m' ≡ (m', some slot_not_found))
  final_update_once u r m found s i c =
      let (id, status, orders, clients) = releases u r m s i c in
      let m' = dispatch_update n u.status u r m in
      subst
        (λ x.
          ((x.store r).order_id ≡ pos 0)
          × ((x.store r).slot_status ≡ free)
          × (on_order_update n u x ≡ (x, some slot_not_found)))
        (sym (ap (λ x. x.0) (update_found u r m found)))
        (id, status, update_lost u m' (not_found u m m' orders clients))

  -- None of the orders is at the price of the slot.
  abbrev pub Elsewhere : ℕ → List (String × ℕ) → List Order → Type 0
  Elsewhere r slots orders =
      All (λ (o : Order). lookup (show (to_go_decimal n o.price)) slots ≢ some r) orders

  sync_order-keeps :
      (o : Order) (r : ℕ) (id : ℤ) (m : SlotManager)
      → lookup (show (to_go_decimal n o.price)) m.slots ≢ some r
      → lookup id m.order_map ≢ some r
      → let m' = sync_order n o m in
        (m'.slots ≡ m.slots) × (m'.store r ≡ m.store r) × (lookup id m'.order_map ≢ some r)
  unfolding sync_order
  sync_order-keeps o r id m ne unmapped =
      elim (Option-cases (lookup (show (to_go_decimal n o.price)) m.slots)) [
        | inl e ↦ rw (e, sync_order) (refl, refl, unmapped)
        | inr (s, e) ↦
            let other : s ≢ r = λ x. ne (e ∙ ap some x) in
            rw (e, sync_order)
              (refl, ground arith, ground (arith, lookup-insert o.order_id id s m.order_map))
      ]

  sync_all-keeps :
      (orders : List Order) (r : ℕ) (id : ℤ) (m : SlotManager)
      → Elsewhere r m.slots orders
      → lookup id m.order_map ≢ some r
      → let m' = sync_all n orders m in (m'.store r ≡ m.store r) × (lookup id m'.order_map ≢ some r)
  unfolding sync_all
  sync_all-keeps [] r id m h unmapped = (refl, unmapped)
  sync_all-keeps (o ∷ orders) r id m h unmapped =
      let (slots, store, none_yet) = sync_order-keeps o r id m h.0 unmapped in
      let (store', none_then) =
        sync_all-keeps orders r id (sync_order n o m)
          (subst (λ l. Elsewhere r l orders) (sym slots) h.1) none_yet in
      (store' ∙ store, none_then)

  -- SyncOrders does not touch a slot at whose price no order is open, and no order's number leads
  -- to it afterwards: a slot that waits for an order which is gone stays as it was.
  pub sync_orders_strands :
      (orders : List Order) (r : ℕ) (id : ℤ) (m : SlotManager)
      → Elsewhere r m.slots orders
      → let m' = sync_orders n orders m in
        (m'.store r ≡ m.store r) × (lookup id m'.order_map ≢ some r)
  unfolding sync_orders lookup
  sync_orders_strands orders r id m h =
      sync_all-keeps orders r id (record m { order_map = []; client_omap = [] }) h (ground arith)
