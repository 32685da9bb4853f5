-- ===== src/Position/Updates/LateAck.antt =====
-- A fill that arrives before the answer to its PLACE request.
use opensqt_market_maker.Common.{
  ℕ, ◌≡◌, refl, sym, ap, subst, ◌∙◌, true, false, none, some, [], ◌∷◌, arith,
}
use opensqt_market_maker.Common.Int.{ℤ, pos, ◌-ℤ◌, ltb_ℤ}
use opensqt_market_maker.Common.Assoc.{lookup, insert, string_eq, int_eq, lookup-insert_self}
use opensqt_market_maker.Num.{Num}
use opensqt_market_maker.Pb.{Order, OrderUpdate}
use opensqt_market_maker.Pb.Enums.{filled, pending, locked, place}
use opensqt_market_maker.Pb.Convert.{to_go_decimal}
use opensqt_market_maker.Position.State.{SuperPositionManager, key_eq, five_minutes}
use opensqt_market_maker.Position.Updates.{
  seen_recently, update_key, find_slot, process_fill, dispatch_update, on_order_update,
}
use opensqt_market_maker.Position.Updates.Replay.{on_order_update_found}
use opensqt_market_maker.Position.Results.{
  OrderActionResult, collect_updates, apply_result, apply_placed, apply_action_results,
}

module _ (n : Num) where
  open n use {D, show}

  -- The answer to a PLACE request that gave the order `o`.
  abbrev pub IsAck : OrderActionResult → Order → Type 0
  IsAck res o = (res.error ≡ none) × (res.action.type ≡ place) × (res.order ≡ some o)

  apply_ack :
      (res : OrderActionResult) (o : Order) (r : ℕ) (m : SuperPositionManager D)
      → IsAck res o
      → lookup (show (to_go_decimal n res.action.price)) m.slots ≡ some r
      → apply_action_results n (res ∷ []) m ≡ apply_placed n o r m
  unfolding apply_action_results apply_result
  apply_ack res o r m (e, p, q) k = rw (k, collect_updates, e, apply_result, p, q) refl

  fills_pending :
      (now : ℤ) (u : OrderUpdate) (r : ℕ) (m : SuperPositionManager D)
      → u.status ≡ filled
      → (m.store r).slot_status ≡ pending
      → seen_recently now (update_key u) m.processed_updates ≡ false
      → dispatch_update n u.status now u r m ≡ process_fill n now u r m
  unfolding dispatch_update
  fills_pending now u r m s p seen = rw s (ground arith)

  -- What a fill keeps, and what it remembers.
  process_fill_facts :
      (now : ℤ) (u : OrderUpdate) (r : ℕ) (m : SuperPositionManager D)
      → let m' = process_fill n now u r m in
        (m'.slots ≡ m.slots)
        × (m'.processed_updates ≡ insert (update_key u) now m.processed_updates)
  unfolding process_fill
  process_fill_facts now u r m = (refl, refl)

  -- The slot after the answer, whatever was there.
  ack_locks :
      (o : Order) (r : ℕ) (m : SuperPositionManager D)
      → let m' = apply_placed n o r m in
        ((m'.store r).slot_status ≡ locked)
        × ((m'.store r).order_id ≡ o.order_id)
        × (lookup o.order_id m'.order_map ≡ some r)
        × (m'.processed_updates ≡ m.processed_updates)
  unfolding apply_placed
  ack_locks o r m = (ground arith, ground arith, lookup-insert_self o.order_id r m.order_map, refl)

  -- A fill of a locked slot that was seen less than five minutes ago changes nothing.
  ignored :
      (later : ℤ) (u : OrderUpdate) (r : ℕ) (m : SuperPositionManager D)
      → u.status ≡ filled
      → (m.store r).slot_status ≡ locked
      → seen_recently later (update_key u) m.processed_updates ≡ true
      → dispatch_update n u.status later u r m ≡ m
  unfolding dispatch_update
  ignored later u r m s l seen = rw s (ground arith)

  seen_after_insert :
      (now later : ℤ) (u : OrderUpdate) (m : SuperPositionManager D)
      → ltb_ℤ (later -ℤ now) (pos five_minutes) ≡ true
      → seen_recently later (update_key u) (insert (update_key u) now m.processed_updates) ≡ true
  seen_after_insert now later u m h =
      rw (lookup-insert_self (update_key u) now m.processed_updates, seen_recently) h

  find_slot_by_order :
      (u : OrderUpdate) (r : ℕ) (m : SuperPositionManager D)
      → lookup u.order_id m.order_map ≡ some r
      → find_slot n u m ≡ some r
  unfolding find_slot
  find_slot_by_order u r m e = rw (e, find_slot)

  -- If the fill of an order comes while its slot still waits for the answer to the PLACE request,
  -- then the answer, applied afterwards, locks the slot under the number of the order that is
  -- filled already; and the same fill, sent again less than five minutes after the first, is
  -- dropped, so that the slot stays locked.
  pub late_ack_locks :
      (now later : ℤ) (u : OrderUpdate) (res : OrderActionResult) (o : Order) (r : ℕ)
      (m : SuperPositionManager D)
      → u.status ≡ filled
      → u.order_id ≡ o.order_id
      → find_slot n u m ≡ some r
      → (m.store r).slot_status ≡ pending
      → seen_recently now (update_key u) m.processed_updates ≡ false
      → ltb_ℤ (later -ℤ now) (pos five_minutes) ≡ true
      → IsAck res o
      → lookup (show (to_go_decimal n res.action.price)) m.slots ≡ some r
      → let m' = apply_action_results n (res ∷ []) (on_order_update n now u m).0 in
        ((m'.store r).slot_status ≡ locked)
        × ((m'.store r).order_id ≡ u.order_id)
        × (on_order_update n later u m' ≡ (m', none))
  late_ack_locks now later u res o r m s i found p seen soon a k =
      let filled_m = process_fill n now u r m in
      let facts = process_fill_facts now u r m in
      let first : (on_order_update n now u m).0 ≡ filled_m =
        ap (λ x. x.0) (on_order_update_found n now u r m found)
        ∙ fills_pending now u r m s p seen in
      let second : apply_action_results n (res ∷ []) filled_m ≡ apply_placed n o r filled_m =
        apply_ack res o r filled_m a (rw facts.0 k) in
      let acked = apply_placed n o r filled_m in
      let l = ack_locks o r filled_m in
      let remembered : seen_recently later (update_key u) acked.processed_updates ≡ true =
        rw (l.3, facts.1) (seen_after_insert now later u m soon) in
      let found_again : find_slot n u acked ≡ some r =
        find_slot_by_order u r acked (subst (λ t. lookup t acked.order_map ≡ some r) (sym i) l.2) in
      let third : on_order_update n later u acked ≡ (acked, none) =
        on_order_update_found n later u r acked found_again
        ∙ ap (λ x. (x, none)) (ignored later u r acked s l.0 remembered) in
      rw (first, second) (l.0, l.1 ∙ sym i, third)
