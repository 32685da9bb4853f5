-- ===== src/Position/WellFormed/Sync.antt =====
-- ForceSync and RestoreFromExchangePosition keep the maps well-formed.
use opensqt_market_maker.Common.{
  ℕ, refl, Option, none, some, List, [], ◌∷◌, String, arith, Bool-cases, inl, inr,
}
use mathlib.Core.Option
use opensqt_market_maker.Common.Int.{ℤ, pos, negsuc}
use opensqt_market_maker.Num.{Num, less_eq, is_zero, is_positive}
use opensqt_market_maker.Num.Laws.{HasText}
use opensqt_market_maker.Position.State.{SuperPositionManager, Store}
use opensqt_market_maker.Position.Slots.{get_or_create_slot}
use opensqt_market_maker.Position.Sync.{
  fill_one, fill_slots, drain_one, drain_slots, force_sync, sync_by, current_total, fill_level,
  fill_levels, restore_plan, restore_count, restore_from_exchange_position, synthetic_slot,
  fill_qty, cleared_slot, reduced_slot, restored_slot, slots_needed, theory_qty,
}
use opensqt_market_maker.Pb.Convert.{to_go_decimal}
use opensqt_market_maker.TradingUtils.{calculate_price_levels}
use opensqt_market_maker.Position.WellFormed.Defs.{IsWellFormed, Keyed, Keyed-write}
use opensqt_market_maker.Position.WellFormed.Slots.{get_or_create_slot-IsWellFormed}
use opensqt_market_maker.Position.WellFormed.Updates.{write-IsWellFormed}

module _ (n : Num) where
  open n use {D, sub}

  fill_slots-Keyed :
      (q : D) (l slots : List (String × ℕ)) (st : Store × D)
      → Keyed n st.0 slots
      → Keyed n (fill_slots n q l st).0 slots
  unfolding fill_slots fill_one
  fill_slots-Keyed q [] slots st w = w
  fill_slots-Keyed q ((k, r) ∷ l) slots (store, remaining) w =
      let s = synthetic_slot n (store r) (fill_qty n q (store r) remaining) in
      ground (
        arith,
        fill_slots-Keyed q l slots (fill_one n q r (store, remaining))
            (ground (arith, Keyed-write n r s store slots refl w)),
      )

  drain_slots-Keyed :
      (l slots : List (String × ℕ)) (st : Store × D)
      → Keyed n st.0 slots
      → Keyed n (drain_slots n l st).0 slots
  unfolding drain_slots drain_one
  drain_slots-Keyed [] slots st w = w
  drain_slots-Keyed ((k, r) ∷ l) slots (store, remaining) w =
      let s = store r in
      let qty = to_go_decimal n s.position_qty in
      ground (
        arith,
        drain_slots-Keyed l slots (drain_one n r (store, remaining)) (
            ground (
              arith,
              Keyed-write n r (cleared_slot n s) store slots refl w,
              Keyed-write n r (reduced_slot n s (sub qty remaining)) store slots refl w,
            )),
      )

  stored-IsWellFormed :
      (store : Store) (m : SuperPositionManager D)
      → Keyed n store m.slots
      → IsWellFormed n m
      → IsWellFormed n (record m { store = store })
  stored-IsWellFormed store m k w = record {
    keyed = k;
    distinct = w.distinct;
    known_slots = w.known_slots;
    known_orders = w.known_orders;
    known_clients = w.known_clients;
  }

  pub force_sync-IsWellFormed :
      (size : D) (m : SuperPositionManager D)
      → IsWellFormed n m
      → IsWellFormed n (force_sync n size m)
  force_sync-IsWellFormed size m w =
      let diff = sub size (current_total n m.store m.slots n.zero) in
      let q = m.config.order_quantity in
      let up =
        stored-IsWellFormed (fill_slots n q m.slots (m.store, diff)).0 m
          (fill_slots-Keyed q m.slots m.slots (m.store, diff) w.keyed) w in
      let down =
        stored-IsWellFormed (drain_slots n m.slots (m.store, n.abs diff)).0 m
          (drain_slots-Keyed m.slots m.slots (m.store, n.abs diff) w.keyed) w in
      unfold force_sync in
      elim (Bool-cases (is_zero n diff)) [
        | inl e ↦ rw (e, sync_by) w
        | inr e ↦ elim (Bool-cases (is_positive n diff)) [
          | inl f ↦ rw (e, f, sync_by) up
          | inr f ↦ rw (e, f, sync_by) down
        ]
      ]

  fill_levels-IsWellFormed :
      HasText n
      → (levels : List (D × D)) (m : SuperPositionManager D) → IsWellFormed n m
      → IsWellFormed n (fill_levels n levels m)
  unfolding fill_levels fill_level
  fill_levels-IsWellFormed t [] m w = w
  fill_levels-IsWellFormed t ((price, qty) ∷ levels) m w =
      let c = get_or_create_slot n price m in
      fill_levels-IsWellFormed t levels (fill_level n (price, qty) m) (
        write-IsWellFormed n c.0 (restored_slot n (c.1.store c.0) qty) c.1 refl
          (get_or_create_slot-IsWellFormed n t price m w))

  -- Of a call that may panic: well-formed if it does not.
  abbrev pub SafeOrPanic : Option (SuperPositionManager D) → Type 0
  SafeOrPanic none = Unit
  SafeOrPanic (some m) = IsWellFormed n m

  filled-SafeOrPanic :
      HasText n
      → (plan : Option (List (D × D))) (m : SuperPositionManager D) → IsWellFormed n m
      → SafeOrPanic (Option.map (λ levels. fill_levels n levels m) plan)
  filled-SafeOrPanic t none m w = tt
  filled-SafeOrPanic t (some levels) m w = fill_levels-IsWellFormed t levels m w

  restore_count-SafeOrPanic :
      HasText n
      → (total : D) (count : ℤ) (m : SuperPositionManager D) → IsWellFormed n m
      → SafeOrPanic (restore_count n total count m)
  unfolding restore_count
  restore_count-SafeOrPanic t total (pos count) m w =
      let prices = calculate_price_levels n m.anchor_price m.config.price_interval count in
      filled-SafeOrPanic t (restore_plan n total prices m) m w
  restore_count-SafeOrPanic t total (negsuc _) m w = tt

  pub restore-SafeOrPanic :
      HasText n
      → (total : D) (m : SuperPositionManager D) → IsWellFormed n m
      → SafeOrPanic (restore_from_exchange_position n total m)
  restore-SafeOrPanic t total m w =
      let counted = restore_count-SafeOrPanic t total (slots_needed n total m) m w in
      unfold restore_from_exchange_position in
      elim (Bool-cases (less_eq n total n.zero)) [
        | inl e ↦ rw (e, restore_from_exchange_position) w
        | inr e ↦ elim (Bool-cases (is_zero n m.anchor_price)) [
          | inl f ↦ rw (e, f, restore_from_exchange_position) tt
          | inr f ↦ elim (Bool-cases (is_zero n (theory_qty n m m.anchor_price))) [
            | inl g ↦ rw (e, f, g, restore_from_exchange_position) w
            | inr g ↦ rw (e, f, g, restore_from_exchange_position) counted
          ]
        ]
      ]
