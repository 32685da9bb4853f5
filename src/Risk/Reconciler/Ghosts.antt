-- ===== src/Risk/Reconciler/Ghosts.antt =====
-- Orders that the exchange no longer has: their slots after a pass.
use opensqt_market_maker.Common.{
  ℕ, ◌≡◌, refl, sym, ap, subst, ◌∙◌, ◌⊎◌, true, false, Option-cases, some, List, [], ◌∷◌, String,
  ◌==◌, arith, Bool-cases, inl, inr, In,
}
use opensqt_market_maker.Common.Int.{ℤ, eqb_ℤ_iff, eqb_ℤ}
use opensqt_market_maker.Common.Assoc.{lookup, lookup-insert, lookup-delete, string_eq, int_eq}
use opensqt_market_maker.Num.{Num}
use opensqt_market_maker.Pb.{InventorySlot, Order, OrderUpdate}
use opensqt_market_maker.Pb.Enums.{canceled, is_free, is_locked}
use opensqt_market_maker.Position.State.{SuperPositionManager, key_eq}
use opensqt_market_maker.Position.Updates.{
  seen_recently, update_key, find_slot, already_free, released, release_order,
  handle_order_canceled, dispatch_update, on_order_update,
}
use opensqt_market_maker.Position.Updates.Replay.{on_order_update_found, on_order_update_lost}
use opensqt_market_maker.Risk.Reconciler.{is_ghost, missing_update, report_missing}
use opensqt_market_maker.Risk.Reconciler.Manager.{super_position_manager}

module _ (n : Num) (now : ℤ) where
  open n use {D}

  find_slot-missing :
      (symbol : String) (s : InventorySlot) (m : SuperPositionManager D)
      → find_slot n (missing_update symbol s) m ≡ lookup s.order_id m.order_map
  unfolding find_slot
  find_slot-missing symbol s m = ground arith

  -- What holds before the update that a pass makes up for a missing order, and after its
  -- cancellation if a slot is found, holds after it.
  pub missing_cases {κ} :
      (P : SuperPositionManager D → Type κ) (symbol : String) (s : InventorySlot)
      (m : SuperPositionManager D)
      → P m
      → ((a : ℕ)
          → lookup s.order_id m.order_map ≡ some a
          → P (handle_order_canceled n now (missing_update symbol s) a m))
      → P (on_order_update n now (missing_update symbol s) m).0
  unfolding dispatch_update
  missing_cases P symbol s m h f = elim (Option-cases (lookup s.order_id m.order_map)) [
    | inl lost ↦
        subst (λ x. P x.0)
          (sym (
            on_order_update_lost n now (missing_update symbol s) m
              (find_slot-missing symbol s m ∙ lost)))
          h
    | inr (a, found) ↦
        subst (λ x. P x.0)
          (sym (
            on_order_update_found n now (missing_update symbol s) a m
              (find_slot-missing symbol s m ∙ found)))
          (f a found)
  ]

module _ (n : Num) (now : ℤ) (id : ℤ) (r : ℕ) where
  open n use {D}

  -- The order's number leads to the slot, which is locked, and no cancellation of the order was
  -- processed in the last five minutes.
  pub record IsWaiting (m : SuperPositionManager D) : Type 0 where
    pub indexed : lookup id m.order_map ≡ some r
    pub slot_locked : is_locked (m.store r).slot_status ≡ true
    pub unseen : seen_recently now (id, canceled) m.processed_updates ≡ false

  -- The slot is free, or still waits.
  abbrev pub IsOpenGhost : SuperPositionManager D → Type 0
  IsOpenGhost m = (is_free (m.store r).slot_status ≡ true) ⊎ IsWaiting m

  -- What the release of another order's slot keeps.
  other_order :
      (u : OrderUpdate) (s : ℕ) (m : SuperPositionManager D)
      → lookup u.order_id m.order_map ≡ some s
      → lookup id m.order_map ≡ some r
      → (s == r) ≡ false
      → eqb_ℤ u.order_id id ≡ false
  other_order u s m l k ne = elim (Bool-cases (eqb_ℤ u.order_id id)) [
    | inl same ↦
        let e : lookup u.order_id m.order_map ≡ lookup id m.order_map =
          ap (λ i. lookup i m.order_map) ((eqb_ℤ_iff u.order_id id).0 same) in
        absurd (ground (arith, l, k, e))
    | inr e ↦ e
  ]

  release-IsOpenGhost :
      (u : OrderUpdate) (s : ℕ) (m : SuperPositionManager D)
      → lookup u.order_id m.order_map ≡ some s
      → IsWaiting m
      → IsOpenGhost (release_order n now u s (released n (m.store s)) m)
  release-IsOpenGhost u s m l w = elim (Bool-cases (s == r)) [
    | inl same ↦ inl (ground arith)
    | inr other ↦
        let ne = other_order u s m l w.indexed other in
        inr (record {
          indexed = ground (arith, lookup-delete u.order_id id m.order_map, ne, w.indexed);
          slot_locked = ground (arith, w.slot_locked);
          unseen = ground (
            arith,
            lookup-insert (update_key u) (id, canceled) now m.processed_updates,
            ne,
            w.unseen,
          );
        })
  ]

  -- A cancellation locks no slot.
  canceled-free :
      (u : OrderUpdate) (s : ℕ) (m : SuperPositionManager D)
      → is_free (m.store r).slot_status ≡ true
      → is_free ((handle_order_canceled n now u s m).store r).slot_status ≡ true
  unfolding handle_order_canceled
  canceled-free u s m h = ground arith

  -- A cancellation, for the slot that its number leads to.
  canceled-IsOpenGhost :
      (u : OrderUpdate) (s : ℕ) (m : SuperPositionManager D)
      → lookup u.order_id m.order_map ≡ some s
      → IsOpenGhost m
      → IsOpenGhost (handle_order_canceled n now u s m)
  unfolding handle_order_canceled
  canceled-IsOpenGhost u s m l (inl h) = inl (canceled-free u s m h)
  canceled-IsOpenGhost u s m l (inr w) = elim (Bool-cases (already_free n (m.store s))) [
    | inl done ↦ rw done (inr w)
    | inr held ↦ elim (Bool-cases (seen_recently now (update_key u) m.processed_updates)) [
      | inl seen ↦ rw (held, seen) (inr w)
      | inr fresh ↦ rw (held, fresh) (release-IsOpenGhost u s m l w)
    ]
  ]

  -- The slot's own cancellation frees it.
  own-free :
      (u : OrderUpdate) (m : SuperPositionManager D)
      → u.order_id ≡ id
      → u.status ≡ canceled
      → IsWaiting m
      → is_free ((handle_order_canceled n now u r m).store r).slot_status ≡ true
  unfolding handle_order_canceled already_free
  own-free u m i c w =
      let unseen : seen_recently now (u.order_id, u.status) m.processed_updates ≡ false =
        rw (i, c) w.unseen in
      ground (arith, w.slot_locked, unseen)

  missing-free :
      (symbol : String) (s : InventorySlot) (m : SuperPositionManager D)
      → is_free (m.store r).slot_status ≡ true
      → is_free ((on_order_update n now (missing_update symbol s) m).0.store r).slot_status ≡ true
  missing-free symbol s m h =
      missing_cases n now (λ x. is_free (x.store r).slot_status ≡ true) symbol s m h
        λ a found. canceled-free (missing_update symbol s) a m h

  missing-IsOpenGhost :
      (symbol : String) (s : InventorySlot) (m : SuperPositionManager D)
      → IsOpenGhost m
      → IsOpenGhost (on_order_update n now (missing_update symbol s) m).0
  missing-IsOpenGhost symbol s m h =
      missing_cases n now IsOpenGhost symbol s m h
        λ a found. canceled-IsOpenGhost (missing_update symbol s) a m found h

  own_missing-free :
      (symbol : String) (s : InventorySlot) (m : SuperPositionManager D)
      → s.order_id ≡ id
      → IsOpenGhost m
      → is_free ((on_order_update n now (missing_update symbol s) m).0.store r).slot_status ≡ true
  unfolding dispatch_update
  own_missing-free symbol s m e (inl h) = missing-free symbol s m h
  own_missing-free symbol s m e (inr w) =
      subst (λ x. is_free (x.0.store r).slot_status ≡ true)
        (sym (
          on_order_update_found n now (missing_update symbol s) r m
            (find_slot-missing n now symbol s m ∙ ap (λ i. lookup i m.order_map) e ∙ w.indexed)))
        (own-free (missing_update symbol s) m e refl w)

  -- The first loop of a pass, over any copies of slots: a slot that is free stays free, and the one
  -- of the order is freed if its copy is among them.
  report-free :
      (symbol : String) (orders : List Order) (slots : List (String × InventorySlot))
      (m : SuperPositionManager D)
      → is_free (m.store r).slot_status ≡ true
      → is_free
          ((report_missing n (super_position_manager n) now symbol orders slots m).store
            r).slot_status
        ≡ true
  unfolding report_missing
  report-free symbol orders [] m h = h
  report-free symbol orders ((k, s) ∷ slots) m h =
      report-free symbol orders slots _ (ground (arith, missing-free symbol s m h))

  pub report-frees :
      (symbol : String) (orders : List Order) (slots : List (String × InventorySlot))
      (m : SuperPositionManager D) (k : String) (g : InventorySlot)
      → g.order_id ≡ id
      → is_ghost orders g ≡ true
      → In (k, g) slots
      → IsOpenGhost m
      → is_free
          ((report_missing n (super_position_manager n) now symbol orders slots m).store
            r).slot_status
        ≡ true
  unfolding report_missing
  report-frees symbol orders [] m k g e i h o = absurd h
  report-frees symbol orders ((j, s) ∷ slots) m k g e i (inl same) o =
      let same_slot : g ≡ s = ap (λ x. x.1) same in
      let ghost : is_ghost orders s ≡ true = subst (λ x. is_ghost orders x ≡ true) same_slot i in
      let number : s.order_id ≡ id = sym (ap (λ x. x.order_id) same_slot) ∙ e in
      report-free symbol orders slots _ (rw ghost (own_missing-free symbol s m number o))
  report-frees symbol orders ((j, s) ∷ slots) m k g e i (inr later) o =
      report-frees symbol orders slots _ k g e i later
        (ground (arith, missing-IsOpenGhost symbol s m o))
