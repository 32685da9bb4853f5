-- ===== src/Position/WellFormed/Updates.antt =====
-- OnOrderUpdate and cleanupProcessedUpdates keep the maps well-formed.
use opensqt_market_maker.Common.{ℕ, ◌≡◌, refl, List, String, arith, Option-cases, inl, inr}
use opensqt_market_maker.Common.Int.{ℤ}
use opensqt_market_maker.Common.Assoc.{string_eq, int_eq}
use opensqt_market_maker.Num.{Num}
use opensqt_market_maker.Pb.{InventorySlot, OrderUpdate}
use opensqt_market_maker.Pb.Enums.{
  OrderStatus, status_unspecified, new, partially_filled, filled, canceled, rejected, expired,
}
use opensqt_market_maker.Position.State.{SuperPositionManager, write, delete_client}
use opensqt_market_maker.Position.Updates.{
  find_slot, filled_slot, released, release_order, process_fill, dispatch_update, on_order_update,
  cleanup_processed_updates,
}
use opensqt_market_maker.Position.WellFormed.Defs.{Below, IsWellFormed, Below-delete, Keyed-write}

module _ (n : Num) where
  open n use {D}

  pub delete_client-Below :
      (fresh : ℕ) (k : String) (m : List (String × ℕ))
      → Below fresh m
      → Below fresh (delete_client k m)
  unfolding delete_client
  delete_client-Below fresh k m h = ground (arith, Below-delete fresh k m h)

  -- A slot is overwritten by one of the same price.
  pub write-IsWellFormed :
      (r : ℕ) (s : InventorySlot) (m : SuperPositionManager D)
      → s.price ≡ (m.store r).price
      → IsWellFormed n m
      → IsWellFormed n (record m { store = write r s m.store })
  write-IsWellFormed r s m e w = record {
    keyed = Keyed-write n r s m.store m.slots e w.keyed;
    distinct = w.distinct;
    known_slots = w.known_slots;
    known_orders = w.known_orders;
    known_clients = w.known_clients;
  }

  release_order-IsWellFormed :
      (now : ℤ) (u : OrderUpdate) (r : ℕ) (s : InventorySlot) (m : SuperPositionManager D)
      → s.price ≡ (m.store r).price
      → IsWellFormed n m
      → IsWellFormed n (release_order n now u r s m)
  release_order-IsWellFormed now u r s m e w = record {
    keyed = Keyed-write n r s m.store m.slots e w.keyed;
    distinct = w.distinct;
    known_slots = w.known_slots;
    known_orders = Below-delete m.fresh u.order_id m.order_map w.known_orders;
    known_clients = delete_client-Below m.fresh u.client_order_id m.client_omap w.known_clients;
  }

  process_fill-IsWellFormed :
      (now : ℤ) (u : OrderUpdate) (r : ℕ) (m : SuperPositionManager D)
      → IsWellFormed n m
      → IsWellFormed n (process_fill n now u r m)
  unfolding process_fill
  process_fill-IsWellFormed now u r m w =
      let a = release_order-IsWellFormed now u r (filled_slot n (m.store r) u) m refl w in
      record {
        keyed = a.keyed;
        distinct = a.distinct;
        known_slots = a.known_slots;
        known_orders = a.known_orders;
        known_clients = a.known_clients;
      }

  dispatch_update-IsWellFormed :
      (status : OrderStatus) (now : ℤ) (u : OrderUpdate) (r : ℕ) (m : SuperPositionManager D)
      → IsWellFormed n m
      → IsWellFormed n (dispatch_update n status now u r m)
  unfolding dispatch_update
  dispatch_update-IsWellFormed filled now u r m w =
      ground (arith, process_fill-IsWellFormed now u r m w)
  dispatch_update-IsWellFormed partially_filled now u r m w = ground (
    arith,
    write-IsWellFormed r (record (m.store r) { order_filled_qty = u.executed_qty }) m refl w,
  )
  dispatch_update-IsWellFormed canceled now u r m w =
      ground (arith, release_order-IsWellFormed now u r (released n (m.store r)) m refl w)
  dispatch_update-IsWellFormed status_unspecified now u r m w = w
  dispatch_update-IsWellFormed new now u r m w = w
  dispatch_update-IsWellFormed rejected now u r m w = w
  dispatch_update-IsWellFormed expired now u r m w = w

  pub on_order_update-IsWellFormed :
      (now : ℤ) (u : OrderUpdate) (m : SuperPositionManager D)
      → IsWellFormed n m
      → IsWellFormed n (on_order_update n now u m).0
  unfolding on_order_update
  on_order_update-IsWellFormed now u m w = elim (Option-cases (find_slot n u m)) [
    | inl e ↦ rw (e, on_order_update) w
    | inr (r, e) ↦ rw (e, on_order_update) (dispatch_update-IsWellFormed u.status now u r m w)
  ]

  pub cleanup-IsWellFormed :
      (now : ℤ) (m : SuperPositionManager D)
      → IsWellFormed n m
      → IsWellFormed n (cleanup_processed_updates n now m)
  unfolding cleanup_processed_updates
  cleanup-IsWellFormed now m w = record {
    keyed = w.keyed;
    distinct = w.distinct;
    known_slots = w.known_slots;
    known_orders = w.known_orders;
    known_clients = w.known_clients;
  }
