-- ===== src/Risk/Monitor/Tests.antt =====
-- The monitor of one symbol, on decimals that count tenths.
use opensqt_market_maker.Common.{◌≡◌, refl, ◌⊎◌, ◌≤◌, List, [], ◌∷◌, ◌++◌, some, true, false}
use opensqt_market_maker.Common.Int.{ℤ, pos, ◌+ℤ◌, ◌-ℤ◌, ◌*ℤ◌}
use opensqt_market_maker.Common.Assoc.{lookup, insert, string_eq}
use opensqt_market_maker.Num.Fixed.{fixed, read_ℤ, count_marks, divide}
use opensqt_market_maker.Pb.{Candle}
use opensqt_market_maker.Pb.Convert.{to_go_decimal}
use opensqt_market_maker.Risk.SymbolStats.{
  SymbolStats, check_anomaly, check_candles, sum_closed, add_candle, no_sums, judge, push_candle,
  update_candles, empty_stats, take_candle, calculate_atr, sum_ranges, true_range,
}
use opensqt_market_maker.Risk.Monitor.{
  RiskMonitor, Call, candles, updates, resets, new_risk_monitor, stats_for, reset, run, step,
  handle_kline_update, handle_candle, checked, put_stats, broadcast_alert,
  update_global_trigger_state, should_trigger, count_triggered,
}
use opensqt_market_maker.Risk.Monitor.Window.{IsWindow}
use opensqt_market_maker.Risk.Monitor.Reach.{run-IsWindow}
use opensqt_market_maker.Risk.Monitor.Reset.{reset_stops}

-- A window of 1, a multiplier of 2, and recovery when one symbol is normal.
abbrev monitor : RiskMonitor ℤ ℤ
monitor = new_risk_monitor fixed (pos 0) ("BTC" ∷ []) (pos 20) 1 (pos 1) "Any"

abbrev calm : Candle
calm = record {
  symbol = "BTC";
  high = some "+111";
  low = some "+1";
  close = some "+11";
  volume = some "+1";
  is_closed = true;
}

-- A drop of the price with three times the volume.
abbrev crash : Candle
crash = record calm { close = some "+1"; volume = some "+111"; is_closed = false }

abbrev calls : List (ℤ × Call fixed)
calls = (pos 1, candles (some calm)) ∷ (pos 2, candles (some crash)) ∷ (pos 3, updates) ∷ []

-- The crash triggers the monitor.
crash_triggers : (run fixed calls monitor).triggered ≡ true
unfolding run step handle_kline_update handle_candle checked put_stats broadcast_alert
    update_global_trigger_state should_trigger count_triggered new_risk_monitor stats_for
    empty_stats take_candle update_candles push_candle check_anomaly check_candles sum_closed
    add_candle no_sums judge calculate_atr sum_ranges true_range lookup insert to_go_decimal read_ℤ
    count_marks divide ◌+ℤ◌ ◌-ℤ◌ ◌*ℤ◌
crash_triggers = refl

calls_return : (run fixed calls monitor).mu_held ≡ false
unfolding run step handle_kline_update handle_candle checked put_stats broadcast_alert
    update_global_trigger_state should_trigger count_triggered new_risk_monitor stats_for
    empty_stats take_candle update_candles push_candle check_anomaly check_candles sum_closed
    add_candle no_sums judge calculate_atr sum_ranges true_range lookup insert to_go_decimal read_ℤ
    count_marks divide ◌+ℤ◌ ◌-ℤ◌ ◌*ℤ◌
calls_return = refl

reset_stops_example :
    let m = run fixed (calls ++ (pos 4, resets) ∷ (pos 5, candles (some crash)) ∷ []) monitor in
    ((reset fixed (pos 4) (run fixed calls monitor)).0 ≡ false)
    × (m ≡ (reset fixed (pos 4) (run fixed calls monitor)).1)
    × (m.triggered ≡ false)
    × (m.offered ≡ (run fixed calls monitor).offered)
    × ((later : ℤ) → (reset fixed later m).0 ≡ false)
reset_stops_example =
    reset_stops fixed calls ((pos 5, candles (some crash)) ∷ []) (pos 4) monitor calls_return

-- The statistics of the symbol after the crash.
abbrev crashed : SymbolStats ℤ ℤ
crashed = record {
  candles = calm ∷ crash ∷ [];
  average_volume = pos 1;
  average_price = pos 2;
  last_price = pos 1;
  is_triggered = true;
  last_update = pos 2;
  atr = pos 0;
}

crash_found : lookup "BTC" (run fixed calls monitor).symbol_stats ≡ some crashed
unfolding run step handle_kline_update handle_candle checked put_stats broadcast_alert
    update_global_trigger_state should_trigger count_triggered new_risk_monitor stats_for
    empty_stats take_candle update_candles push_candle check_anomaly check_candles sum_closed
    add_candle no_sums judge calculate_atr sum_ranges true_range lookup insert to_go_decimal read_ℤ
    count_marks divide ◌+ℤ◌ ◌-ℤ◌ ◌*ℤ◌
crash_found = refl

run-IsWindow_example :
    IsWindow 1 (calm ∷ crash ∷ [])
    × ((2 ≤ 1) ⊎ ((s' : SymbolStats ℤ ℤ) × (check_anomaly fixed (pos 20) 1 crashed ≡ some s')))
run-IsWindow_example =
    run-IsWindow fixed 1 (pos 0) ("BTC" ∷ []) (pos 20) (pos 1) "Any" calls "BTC" crashed
      (tt, (tt, (tt, tt))) crash_found
