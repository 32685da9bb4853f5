-- ===== src/Engine/Tests.antt =====
-- The engine with one slot, whose buy is open, on decimals that count tenths.
use opensqt_market_maker.Common.{
  ◌≡◌, refl, true, false, List, [], ◌∷◌, none, some, String, In, ℕ, All,
}
use opensqt_market_maker.Common.Int.{ℤ, pos}
use opensqt_market_maker.Num.Fixed.{fixed, fixed-HasText, read_ℤ, count_marks}
use opensqt_market_maker.Pb.Convert.{to_go_decimal}
use opensqt_market_maker.Pb.Enums.{buy, locked}
use opensqt_market_maker.Pb.OrderId.{IdGen}
use opensqt_market_maker.Position.Results.{OrderActionResult}
use opensqt_market_maker.Position.Samples.{open_slot}
use opensqt_market_maker.Grid.{StrategyConfig, cancel_action}
use opensqt_market_maker.Grid.Slots.{SlotManager, new_slot_manager, apply_action_results}
use opensqt_market_maker.Engine.{
  GridEngine, MonitorView, Executor, State, slot_of, on_price_update, start,
}
use opensqt_market_maker.Engine.Events.{priced, last_price, run}
use opensqt_market_maker.Engine.Restart.{restart_moves_anchor}
use opensqt_market_maker.Engine.AtRisk.{AskedAtRisk, engine_cancels_buys}

abbrev config : StrategyConfig ℤ ℤ
config = record {
  symbol = "BTCUSDT";
  price_interval = pos 10;
  order_quantity = pos 10;
  min_order_value = pos 1;
  buy_window_size = 2;
  sell_window_size = 2;
  price_decimals = pos 1;
  qty_decimals = pos 1;
  is_neutral = true;
  volatility_scale = pos 10;
  inventory_skew_factor = pos 0;
}

abbrev manager : SlotManager
manager = record (new_slot_manager "BTCUSDT" (pos 1) (λ _. open_slot)) {
  fresh = 1;
  slots = ("+11111", 0) ∷ [];
}

abbrev engine : GridEngine ℤ ℤ
engine = record {
  config = config;
  manager = manager;
  anchor_price = pos 5;
  saved = none;
  waiting = false;
}

-- An exchange that is down.
abbrev down : Executor
down = record {
  submits = λ _. true;
  place_order = λ _ _. (none, some "down");
  batch_cancel_orders = λ _ _ _ _. some "down";
}

abbrev risky : MonitorView ℤ ℤ
risky = record { atr = pos 0; volatility_factor = pos 0; triggered = true }

abbrev gen : IdGen
gen = record { last_sec = pos 0; id_seq = 0; clock = λ _. pos 7; readings = 0 }

engine_cancels_buys_example :
    (results : List OrderActionResult) × ((on_price_update fixed down
        (some risky)
        (pos 1)
        (some "+111")
        engine
        gen).0.manager
      ≡ apply_action_results fixed results manager)
    × All (λ r. AskedAtRisk fixed risky (to_go_decimal fixed (some "+111")) engine r.action) results
    × ((k : String) (a : ℕ)
        → In {A = String × ℕ} (k, a) (("+11111", 0) ∷ [])
        → (manager.store a).slot_status ≡ locked
        → (manager.store a).order_side ≡ buy
        → (j : ℕ) × In
            (record {
              action = cancel_action fixed config (slot_of fixed (manager.store a));
              order = none;
              error = some "down";
            })
            results)
engine_cancels_buys_example =
    engine_cancels_buys fixed down risky (pos 1) (some "+111") engine gen refl (λ i. refl) refl

-- An engine that has seen no price.
abbrev fresh_engine : GridEngine ℤ ℤ
fresh_engine = record engine { anchor_price = pos 0 }

restart_moves_anchor_example :
    let e' =
      (run fixed
        (priced down (some risky) (pos 1) (some "+11")
          ∷ priced down none (pos 2) (some "+111")
          ∷ [])
        (fresh_engine, gen)).0 in
    (e'.anchor_price ≡ to_go_decimal fixed (some "+11"))
    × ((start fixed e'.saved engine).anchor_price ≡ to_go_decimal fixed (some "+111"))
unfolding last_price to_go_decimal read_ℤ count_marks
restart_moves_anchor_example =
    restart_moves_anchor fixed fixed-HasText down (some risky) (pos 1) (some "+11")
      (priced down none (pos 2) (some "+111") ∷ []) fresh_engine engine gen refl refl refl
      (λ i. refl, (λ i. refl, tt))

-- A saved slot at 0.5, loaded into an engine that has no slots.
abbrev saved : State
saved = record {
  slots = ("+11111", open_slot) ∷ [];
  last_price = some "+11";
  last_update_time = pos 1;
}

abbrev empty_engine : GridEngine ℤ ℤ
empty_engine = record engine { manager = new_slot_manager "BTCUSDT" (pos 1) (λ _. open_slot) }
