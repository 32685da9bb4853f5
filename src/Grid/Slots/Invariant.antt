-- ===== src/Grid/Slots/Invariant.antt =====
-- The invariant of SlotManager, and the changes of the state that keep it.
use opensqt_market_maker.Common.{ℕ, ◌<◌, ◌≡◌, refl, List, String, arith, length}
use opensqt_market_maker.Common.Int.{ℤ}
use opensqt_market_maker.Common.Assoc.{insert, string_eq, int_eq}
use opensqt_market_maker.Num.{Num}
use opensqt_market_maker.Pb.{InventorySlot, PbDecimal}
use opensqt_market_maker.Position.State.{write, insert_client, delete_client}
use opensqt_market_maker.Position.WellFormed.Defs.{
  Below, Distinct, Keyed, Below-insert, Below-delete, Keyed-write,
}
use opensqt_market_maker.Position.WellFormed.Slots.{insert_client-Below}
use opensqt_market_maker.Grid.Slots.{SlotManager, reset_slot_locked}

delete_client-Below :
    (fresh : ℕ) (k : String) (m : List (String × ℕ))
    → Below fresh m
    → Below fresh (delete_client k m)
unfolding delete_client
delete_client-Below fresh k m h = ground (arith, Below-delete fresh k m h)

module _ (n : Num) where
  open n use {D, show}

  -- Every slot stands under the text of its price at an address of its own that is in use, the
  -- indexes point to addresses in use, and the counter is the number of the slots.
  pub record IsConsistent (m : SlotManager) : Type 0 where
    pub keyed : Keyed n m.store m.slots
    pub distinct : Distinct m.slots
    pub known_slots : Below m.fresh m.slots
    pub known_orders : Below m.fresh m.order_map
    pub known_clients : Below m.fresh m.client_omap
    pub counted : m.total_slots ≡ length m.slots

  pub reset-IsConsistent :
      (r : ℕ) (m : SlotManager) → IsConsistent m → IsConsistent (reset_slot_locked r m)
  unfolding reset_slot_locked
  reset-IsConsistent r m w = record {
    keyed = Keyed-write n r _ m.store m.slots refl w.keyed;
    distinct = w.distinct;
    known_slots = w.known_slots;
    known_orders = Below-delete m.fresh (m.store r).order_id m.order_map w.known_orders;
    known_clients =
        delete_client-Below m.fresh (m.store r).client_oid m.client_omap w.known_clients;
    counted = w.counted;
  }

  -- A slot is overwritten by one of the same price.
  pub write-IsConsistent :
      (r : ℕ) (s : InventorySlot) (m : SlotManager)
      → s.price ≡ (m.store r).price
      → IsConsistent m
      → IsConsistent (record m { store = write r s m.store })
  write-IsConsistent r s m e w = record {
    keyed = Keyed-write n r s m.store m.slots e w.keyed;
    distinct = w.distinct;
    known_slots = w.known_slots;
    known_orders = w.known_orders;
    known_clients = w.known_clients;
    counted = w.counted;
  }

  -- The indexes take an order to a slot.
  pub index-IsConsistent :
      (order_id : ℤ) (client_oid : String) (r : ℕ) (m : SlotManager)
      → r < m.fresh
      → IsConsistent m
      → IsConsistent (record m {
        order_map = insert order_id r m.order_map;
        client_omap = insert_client client_oid r m.client_omap;
      })
  index-IsConsistent order_id client_oid r m lt w = record {
    keyed = w.keyed;
    distinct = w.distinct;
    known_slots = w.known_slots;
    known_orders = Below-insert m.fresh order_id r m.order_map lt w.known_orders;
    known_clients = insert_client-Below n m.fresh client_oid r m.client_omap lt w.known_clients;
    counted = w.counted;
  }

  -- The listeners and what they were sent do not matter.
  pub listeners-IsConsistent :
      (callbacks : List ℕ) (published : List (ℕ × (String × PbDecimal))) (m : SlotManager)
      → IsConsistent m
      → IsConsistent (record m { update_callbacks = callbacks; published = published })
  listeners-IsConsistent callbacks published m w = record {
    keyed = w.keyed;
    distinct = w.distinct;
    known_slots = w.known_slots;
    known_orders = w.known_orders;
    known_clients = w.known_clients;
    counted = w.counted;
  }

  -- An order that is open or placed at a slot whose address is in use.
  pub hold-IsConsistent :
      (order_id : ℤ) (client_oid : String) (s : InventorySlot) (r : ℕ) (m : SlotManager)
      → r < m.fresh
      → s.price ≡ (m.store r).price
      → IsConsistent m
      → IsConsistent (record m {
        store = write r s m.store;
        order_map = insert order_id r m.order_map;
        client_omap = insert_client client_oid r m.client_omap;
      })
  hold-IsConsistent order_id client_oid s r m lt e w =
      index-IsConsistent order_id client_oid r (record m { store = write r s m.store }) lt
        (write-IsConsistent r s m e w)
