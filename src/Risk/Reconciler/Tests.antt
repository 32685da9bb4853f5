-- ===== src/Risk/Reconciler/Tests.antt =====
-- A pass over a manager whose order 7 is gone from the exchange, which holds a position of 1.
use opensqt_market_maker.Common.{◌≡◌, refl, inl, false, some, List, [], ◌∷◌, none, true}
use opensqt_market_maker.Common.Int.{ℤ, pos}
use opensqt_market_maker.Common.Assoc.{lookup, string_eq, int_eq}
use opensqt_market_maker.Num.Fixed.{
  fixed, fixed-IsOrdered, fixed-IsGroup, fixed-IsOrderedGroup, fixed-HasText,
}
use opensqt_market_maker.Pb.{Position}
use opensqt_market_maker.Pb.Convert.{to_go_decimal}
use opensqt_market_maker.Pb.Enums.{is_free}
use opensqt_market_maker.Position.State.{SuperPositionManager, new_super_position_manager}
use opensqt_market_maker.Position.Samples.{open_slot, manager, manager-IsWellFormed}
use opensqt_market_maker.Risk.Reconciler.{
  Reconciler, reconcile, find_position, is_ghost, has_exchange_order,
}
use opensqt_market_maker.Risk.Reconciler.Manager.{super_position_manager}
use opensqt_market_maker.Risk.Reconciler.Release.{ghost_freed}
use opensqt_market_maker.Risk.Reconciler.Sizes.{IsSettled, reconcile-IsSettled}

abbrev reconciler : Reconciler ℤ (SuperPositionManager ℤ)
reconciler = record {
  symbol = "BTCUSDT";
  manager = manager open_slot;
  breaker = none;
  cancel_calls = [];
  last_result = record {
    reconciliation_id = pos 0;
    status = "never_run";
    started_at = pos 0;
    completed_at = pos 0;
    results = [];
  };
}

abbrev positions : List Position
positions =
    record { symbol = "BTCUSDT"; size = some "+1"; mark_price = none; liquidation_price = none }
    ∷ []

ghost_freed_example :
    let r' =
      (reconcile fixed
        (super_position_manager fixed)
        false
        (pos 1)
        (pos 2)
        (some [])
        (some positions)
        reconciler).0 in
    is_free (r'.manager.store 0).slot_status ≡ true
unfolding is_ghost has_exchange_order lookup new_super_position_manager
ghost_freed_example =
    ghost_freed fixed (pos 1) (pos 2) [] positions reconciler "+11111" 0 (inl refl) refl refl refl

reconcile-IsSettled_example :
    IsSettled fixed
      (pos 1)
      (to_go_decimal fixed (find_position fixed "BTCUSDT" positions).size)
      reconciler
      (reconcile fixed
        (super_position_manager fixed)
        false
        (pos 1)
        (pos 2)
        (some [])
        (some positions)
        reconciler).0
reconcile-IsSettled_example =
    reconcile-IsSettled fixed fixed-IsOrdered fixed-IsGroup fixed-IsOrderedGroup fixed-HasText
      (pos 1) (pos 2) [] positions reconciler manager-IsWellFormed
