-- ===== src/Position/Updates/Replay.antt =====
-- An order update that comes twice.
use opensqt_market_maker.Common.{ℕ, ◌≡◌, sym, ap, subst, ◌⊎◌, inl, inr, false, none, some, arith}
use opensqt_market_maker.Common.Int.{ℤ}
use opensqt_market_maker.Common.Assoc.{delete, string_eq, int_eq, lookup-delete_self}
use opensqt_market_maker.Num.{Num}
use opensqt_market_maker.Pb.{OrderUpdate}
use opensqt_market_maker.Pb.Enums.{filled, canceled}
use opensqt_market_maker.Position.State.{SuperPositionManager, slot_not_found, delete_client}
use opensqt_market_maker.Position.Updates.{
  seen_recently, update_key, find_slot, fill_applied, already_free, process_fill, dispatch_update,
  on_order_update,
}

module _ (n : Num) where
  open n use {D}

  pub on_order_update_found :
      (now : ℤ) (u : OrderUpdate) (r : ℕ) (m : SuperPositionManager D)
      → find_slot n u m ≡ some r
      → on_order_update n now u m ≡ (dispatch_update n u.status now u r m, none)
  unfolding on_order_update
  on_order_update_found now u r m e = rw (e, on_order_update)

  pub on_order_update_lost :
      (now : ℤ) (u : OrderUpdate) (m : SuperPositionManager D)
      → find_slot n u m ≡ none
      → on_order_update n now u m ≡ (m, some slot_not_found)
  unfolding on_order_update
  on_order_update_lost now u m e = rw (e, on_order_update)

  -- The update is the last of its order, and the slot does not show its effect already.
  abbrev pub IsFinal : OrderUpdate → ℕ → SuperPositionManager D → Type 0
  IsFinal u r m =
      ((u.status ≡ filled) × (fill_applied n (m.store r) u ≡ false))
      ⊎ ((u.status ≡ canceled) × (already_free n (m.store r) ≡ false))

  -- What an update that is processed leaves in the indexes.
  forgets :
      (now : ℤ) (u : OrderUpdate) (r : ℕ) (m : SuperPositionManager D)
      → IsFinal u r m
      → seen_recently now (update_key u) m.processed_updates ≡ false
      → let m' = dispatch_update n u.status now u r m in
        (m'.order_map ≡ delete u.order_id m.order_map)
        × (m'.client_omap ≡ delete_client u.client_order_id m.client_omap)
  unfolding dispatch_update process_fill
  forgets now u r m (inl (s, d)) seen = rw s (ground arith)
  forgets now u r m (inr (s, d)) seen = rw s (ground arith)

  not_found :
      (u : OrderUpdate) (m m' : SuperPositionManager D)
      → m'.order_map ≡ delete u.order_id m.order_map
      → m'.client_omap ≡ delete_client u.client_order_id m.client_omap
      → find_slot n u m' ≡ none
  unfolding find_slot delete_client
  not_found u m m' o c = ground (
    arith,
    lookup-delete_self u.order_id m.order_map,
    lookup-delete_self u.client_order_id m.client_omap,
  )

  -- A final update that was processed once finds no slot when it comes again: at whatever time,
  -- the second call returns "slot not found" and changes nothing.
  pub replay_not_found :
      (now later : ℤ) (u : OrderUpdate) (r : ℕ) (m : SuperPositionManager D)
      → find_slot n u m ≡ some r
      → IsFinal u r m
      → seen_recently now (update_key u) m.processed_updates ≡ false
      → let m' = (on_order_update n now u m).0 in
        on_order_update n later u m' ≡ (m', some slot_not_found)
  replay_not_found now later u r m found final seen =
      let f = forgets now u r m final seen in
      subst (λ x. on_order_update n later u x ≡ (x, some slot_not_found))
        (sym (ap (λ x. x.0) (on_order_update_found now u r m found)))
        (on_order_update_lost later u _
          (not_found u m (dispatch_update n u.status now u r m) f.0 f.1))
