-- ===== src/Position/Sync/Forgets.antt =====
-- What ForceSync does to the slots that wait for an order.
use opensqt_market_maker.Common.{
  ℕ, ◌≡◌, refl, sym, ap, subst, ◌∙◌, ◌⊎◌, inl, inr, true, Bool-cases, List, [], ◌∷◌, String, arith,
  ◌==◌, ==_iff,
}
use opensqt_market_maker.Common.Int.{pos}
use opensqt_market_maker.Num.{Num, less_eq, is_zero, is_positive}
use opensqt_market_maker.Pb.{InventorySlot}
use opensqt_market_maker.Pb.Enums.{position_filled, is_empty}
use opensqt_market_maker.Position.State.{SuperPositionManager, Store}
use opensqt_market_maker.Position.Sync.{
  current_total, fill_one, fill_slots, can_fill, synthetic_slot, fill_qty, drain_one, drain_slots,
  sync_by, force_sync,
}

-- What a slot keeps: its lock, its client order id and its price.
pub record KeepsLock (s s' : InventorySlot) : Type 0 where
  pub same_status : s'.slot_status ≡ s.slot_status
  pub same_client : s'.client_oid ≡ s.client_oid
  pub same_price : s'.price ≡ s.price

-- A slot that keeps its order number, and is as it was if it had no position.
pub record KeepsOrder (s s' : InventorySlot) : Type 0 where
  pub same_order : s'.order_id ≡ s.order_id
  pub same_empty : is_empty s.position_status ≡ true → s' ≡ s

-- A slot without a position that gets one, and loses its order number.
pub record ForgetsOrder (s s' : InventorySlot) : Type 0 where
  pub was_empty : is_empty s.position_status ≡ true
  pub is_filled : s'.position_status ≡ position_filled
  pub no_order : s'.order_id ≡ pos 0

module _ (n : Num) where
  open n use {D, zero, sub}

  kept : (s : InventorySlot) → KeepsLock s s
  kept s = record { same_status = refl; same_client = refl; same_price = refl }

  abbrev Filled : InventorySlot → InventorySlot → Type 0
  Filled s s' = KeepsLock s s' × ((s' ≡ s) ⊎ ForgetsOrder s s')

  kept_fill :
      (s : InventorySlot) (qty : D)
      → is_empty s.position_status ≡ true
      → Filled s (synthetic_slot n s qty)
  kept_fill s qty e = (
    record { same_status = refl; same_client = refl; same_price = refl },
    inr (record { was_empty = e; is_filled = refl; no_order = refl }),
  )

  fill_one-Filled : (q : D) (r a : ℕ) (st : Store × D) → Filled (st.0 a) ((fill_one n q r st).0 a)
  unfolding fill_one
  fill_one-Filled q r a (store, remaining) = elim (Bool-cases (can_fill n (store r))) [
    | inr skips ↦ rw skips (kept (store a), inl refl)
    | inl fills ↦ elim (Bool-cases (r == a)) [
      | inr other ↦ rw (fills, other) (kept (store a), inl refl)
      | inl same ↦
          let e : r ≡ a = (==_iff r a).0 same in
          rw (fills, same)
            (subst
              (λ x.
                Filled (store x) (synthetic_slot n (store r) (fill_qty n q (store r) remaining)))
              e (kept_fill (store r) (fill_qty n q (store r) remaining) (ground arith)))
    ]
  ]

  Filled-trans : (s t u : InventorySlot) → Filled s t → Filled t u → Filled s u
  Filled-trans s t u (k, inl e) f = subst (λ x. Filled x u) e f
  Filled-trans s t u (k, inr g) (l, inl e) = subst (Filled s) (sym e) (k, inr g)
  Filled-trans s t u (k, inr g) (l, inr h) = absurd (ground (arith, g, h))

  fill_slots-Filled :
      (q : D) (a : ℕ) (slots : List (String × ℕ)) (st : Store × D)
      → Filled (st.0 a) ((fill_slots n q slots st).0 a)
  unfolding fill_slots
  fill_slots-Filled q a [] st = (kept (st.0 a), inl refl)
  fill_slots-Filled q a ((k, r) ∷ slots) st = elim (Bool-cases (less_eq n st.1 zero)) [
    | inl e ↦ rw e (kept (st.0 a), inl refl)
    | inr e ↦ rw e (
        Filled-trans _ _ _ (fill_one-Filled q r a st)
          (fill_slots-Filled q a slots (fill_one n q r st)))
  ]

  abbrev Drained : InventorySlot → InventorySlot → Type 0
  Drained s s' = KeepsLock s s' × KeepsOrder s s'

  Drained-self : (s : InventorySlot) → Drained s s
  Drained-self s = (kept s, record { same_order = refl; same_empty = λ e. refl })

  drain_one-Drained : (r a : ℕ) (st : Store × D) → Drained (st.0 a) ((drain_one n r st).0 a)
  unfolding drain_one
  drain_one-Drained r a (store, to_remove) = ground arith

  Drained-trans : (s t u : InventorySlot) → Drained s t → Drained t u → Drained s u
  Drained-trans s t u (k, g) (l, h) = (
    record {
      same_status = l.same_status ∙ k.same_status;
      same_client = l.same_client ∙ k.same_client;
      same_price = l.same_price ∙ k.same_price;
    },
    record {
      same_order = h.same_order ∙ g.same_order;
      same_empty = λ e.
          h.same_empty (subst (λ x. is_empty x.position_status ≡ true) (sym (g.same_empty e)) e)
          ∙ g.same_empty e;
    },
  )

  drain_slots-Drained :
      (a : ℕ) (slots : List (String × ℕ)) (st : Store × D)
      → Drained (st.0 a) ((drain_slots n slots st).0 a)
  unfolding drain_slots
  drain_slots-Drained a [] st = Drained-self (st.0 a)
  drain_slots-Drained a ((k, r) ∷ slots) st = elim (Bool-cases (less_eq n st.1 zero)) [
    | inl e ↦ rw e (Drained-self (st.0 a))
    | inr e ↦ rw e (
        Drained-trans _ _ _ (drain_one-Drained r a st)
          (drain_slots-Drained a slots (drain_one n r st)))
  ]

  abbrev pub Synced : InventorySlot → InventorySlot → Type 0
  Synced s s' = KeepsLock s s' × (KeepsOrder s s' ⊎ ForgetsOrder s s')

  sync_by-Synced :
      (diff : D) (m : SuperPositionManager D) (a : ℕ)
      → Synced (m.store a) ((sync_by n diff m).store a)
  unfolding sync_by
  sync_by-Synced diff m a = elim (Bool-cases (is_zero n diff)) [
    | inl e ↦ let (k, g) = Drained-self (m.store a) in rw e (k, inl g)
    | inr e ↦ elim (Bool-cases (is_positive n diff)) [
      | inl up ↦
          let (k, f) = fill_slots-Filled m.config.order_quantity a m.slots (m.store, diff) in
          rw (e, up)
            (
              k,
              elim f [
                | inl same ↦
                    inl (record { same_order = ap (λ s. s.order_id) same; same_empty = λ _. same })
                | inr g ↦ inr g
              ],
            )
      | inr down ↦
          let (k, g) = drain_slots-Drained a m.slots (m.store, n.abs diff) in
          rw (e, down) (k, inl g)
    ]
  ]

  indexes_stay :
      (diff : D) (m : SuperPositionManager D)
      → ((sync_by n diff m).order_map ≡ m.order_map)
        × ((sync_by n diff m).client_omap ≡ m.client_omap)
        × ((sync_by n diff m).slots ≡ m.slots)
  unfolding sync_by
  indexes_stay diff m = ground arith

  -- Whatever the size and the slots, ForceSync unlocks no slot and changes no index. A slot keeps its
  -- order number, and is untouched if it has no position, or ForceSync gives it a position and sets
  -- its order number to 0: so a slot that is locked for an open order when it is filled forgets the
  -- order, while it stays locked and the indexes still take the order to it.
  pub force_sync_forgets_order :
      (size : D) (m : SuperPositionManager D)
      → let m' = force_sync n size m in
        ((a : ℕ) → Synced (m.store a) (m'.store a))
        × (m'.order_map ≡ m.order_map)
        × (m'.client_omap ≡ m.client_omap)
        × (m'.slots ≡ m.slots)
  unfolding force_sync
  force_sync_forgets_order size m =
      let diff = sub size (current_total n m.store m.slots zero) in
      let (orders, clients, slots) = indexes_stay diff m in
      (λ a. sync_by-Synced diff m a, orders, clients, slots)
