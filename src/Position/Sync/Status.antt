-- ===== src/Position/Sync/Status.antt =====
-- ForceSync changes no slot's status.
use opensqt_market_maker.Common.{ℕ, ◌≡◌, refl, List, [], ◌∷◌, String, arith, ==_iff}
use opensqt_market_maker.Num.{Num}
use opensqt_market_maker.Pb.{InventorySlot}
use opensqt_market_maker.Position.State.{SuperPositionManager, Store, write}
use opensqt_market_maker.Position.Sync.{
  fill_one, fill_slots, drain_one, drain_slots, sync_by, force_sync,
}

module _ (n : Num) (a : ℕ) where
  open n use {D}

  write-status :
      (r : ℕ) (s : InventorySlot) (store : Store)
      → s.slot_status ≡ (store r).slot_status
      → (write r s store a).slot_status ≡ (store a).slot_status
  write-status r s store e = ground (arith, ==_iff r a)

  fill_one-status :
      (q : D) (r : ℕ) (st : Store × D)
      → ((fill_one n q r st).0 a).slot_status ≡ (st.0 a).slot_status
  unfolding fill_one
  fill_one-status q r (store, remaining) = ground (arith, write-status r)

  fill_slots-status :
      (q : D) (slots : List (String × ℕ)) (st : Store × D)
      → ((fill_slots n q slots st).0 a).slot_status ≡ (st.0 a).slot_status
  unfolding fill_slots
  fill_slots-status q [] st = refl
  fill_slots-status q ((k, r) ∷ slots) st =
      ground (arith, fill_one-status q r st, fill_slots-status q slots (fill_one n q r st))

  drain_one-status :
      (r : ℕ) (st : Store × D) → ((drain_one n r st).0 a).slot_status ≡ (st.0 a).slot_status
  unfolding drain_one
  drain_one-status r (store, to_remove) = ground (arith, write-status r)

  drain_slots-status :
      (slots : List (String × ℕ)) (st : Store × D)
      → ((drain_slots n slots st).0 a).slot_status ≡ (st.0 a).slot_status
  unfolding drain_slots
  drain_slots-status [] st = refl
  drain_slots-status ((k, r) ∷ slots) st =
      ground (arith, drain_one-status r st, drain_slots-status slots (drain_one n r st))

  sync_by-status :
      (diff : D) (m : SuperPositionManager D)
      → ((sync_by n diff m).store a).slot_status ≡ (m.store a).slot_status
  unfolding sync_by
  sync_by-status diff m = ground (
    arith,
    fill_slots-status m.config.order_quantity m.slots (m.store, diff),
    drain_slots-status m.slots (m.store, n.abs diff),
  )

  pub force_sync-status :
      (size : D) (m : SuperPositionManager D)
      → ((force_sync n size m).store a).slot_status ≡ (m.store a).slot_status
  unfolding force_sync
  force_sync-status size m = sync_by-status _ m
