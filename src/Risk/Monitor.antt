-- ===== src/Risk/Monitor.antt =====
-- market_maker/internal/risk/monitor.go. The clock, in seconds, and the exchange's history are
-- arguments. The flag mu_held tells whether a goroutine holds the mutex rm.mu for writing. A method
-- that takes the mutex while it is held waits, and changes nothing; one that holds it for reading
-- hinders no step, as each method is one. The stats' own mutexes are left out.
pub mod Window
pub mod Reach
pub mod Reset
mod Tests
use mathlib.Core.List.{reverse}
use opensqt_market_maker.Common.{
  ℕ, zero, suc, ◌+◌, ◌-◌, Bool, true, false, not, ◌&&◌, ◌||◌, Option, none, some, List, [], ◌∷◌,
  ◌++◌, String, map, if◌then◌else◌, ltb, leb, ◌==◌, length, drop,
}
use opensqt_market_maker.Common.Int.{ℤ, pos, ◌-ℤ◌, leb_ℤ}
use opensqt_market_maker.Common.Assoc.{lookup, insert, string_eq}
use opensqt_market_maker.Num.{Num, greater_than}
use opensqt_market_maker.Pb.{Candle, RiskAlert}
use opensqt_market_maker.Pb.Convert.{to_go_decimal}
use opensqt_market_maker.Risk.SymbolStats.{
  SymbolStats, update_candles, empty_stats, check_anomaly, calculate_atr, take_candle,
}

pub record RiskMonitor (D F : Type 0) : Type 0 where
  pub monitor_symbols : List String
  pub volume_multiplier : F
  pub average_window : ℕ
  pub recovery_threshold : ℤ
  pub global_strategy : String
  pub triggered : Bool
  pub symbol_stats : List (String × SymbolStats D F)
  pub mu_held : Bool
  pub subscribers : List ℕ
  pub offered : List (ℕ × RiskAlert)  -- what broadcastAlert has offered, and to whom

unfoldable pub count_triggered : {D F : Type 0} → List (String × SymbolStats D F) → ℕ
count_triggered [] = 0
count_triggered ((k, s) ∷ stats) =
    if s.is_triggered then suc (count_triggered stats) else count_triggered stats

unfoldable pub clear_stats :
    {D F : Type 0} → List (String × SymbolStats D F) → List (String × SymbolStats D F)
clear_stats [] = []
clear_stats ((k, s) ∷ stats) = (k, record s { is_triggered = false }) ∷ clear_stats stats

unfoldable pub remove_first : ℕ → List ℕ → List ℕ
remove_first ch [] = []
remove_first ch (sub ∷ subs) = if sub == ch then subs else sub ∷ remove_first ch subs

module _ (n : Num) where
  open n use {D, F}

  unfoldable pub stats_for :
      ℤ → List String → List (String × SymbolStats D F) → List (String × SymbolStats D F)
  stats_for zero_time [] stats = stats
  stats_for zero_time (symbol ∷ symbols) stats =
      stats_for zero_time symbols (insert symbol (empty_stats n zero_time) stats)

  -- NewRiskMonitor
  unfoldable pub new_risk_monitor : ℤ → List String → F → ℕ → ℤ → String → RiskMonitor D F
  unfolding stats_for empty_stats
  new_risk_monitor zero_time symbols multiplier window recovery strategy = record {
    monitor_symbols = symbols;
    volume_multiplier = multiplier;
    average_window = window;
    recovery_threshold = recovery;
    global_strategy = if string_eq.beq strategy "" then "All" else strategy;
    triggered = false;
    symbol_stats = stats_for zero_time symbols [];
    mu_held = false;
    subscribers = [];
    offered = [];
  }

  -- rm.mu.Lock() where nobody holds the mutex, and rm.mu.Unlock()
  abbrev pub lock_mu : RiskMonitor D F → RiskMonitor D F
  lock_mu rm = record rm { mu_held = true }

  abbrev pub unlock_mu : RiskMonitor D F → RiskMonitor D F
  unlock_mu rm = record rm { mu_held = false }

  -- broadcastAlert, which takes rm.mu for reading: whether it returns, and the state that it leaves
  -- or in which it waits.
  unfoldable pub broadcast_alert : RiskAlert → RiskMonitor D F → Bool × RiskMonitor D F
  broadcast_alert a rm =
      if rm.mu_held
      then (false, rm)
      else (true, record rm { offered = rm.offered ++ map (λ s. (s, a)) rm.subscribers })

  unfoldable pub preload_one :
      String
      → Option (List Candle)
      → List (String × SymbolStats D F)
      → List (String × SymbolStats D F)
  preload_one symbol none stats = stats
  preload_one symbol (some []) stats = stats
  preload_one symbol (some (c ∷ cs)) stats = elim (lookup symbol stats) [
    | none ↦ stats
    | some s ↦ insert symbol (record s { candles = c ∷ cs }) stats
  ]

  -- preloadHistory, with the answers of GetHistoricalKlines.
  unfoldable pub preload_symbols :
      (String → Option (List Candle))
      → List String
      → List (String × SymbolStats D F)
      → List (String × SymbolStats D F)
  unfolding preload_one
  preload_symbols history [] stats = stats
  preload_symbols history (symbol ∷ symbols) stats =
      preload_symbols history symbols (preload_one symbol (history symbol) stats)

  unfoldable pub anomaly_alert : ℤ → String → RiskAlert
  anomaly_alert now symbol = record {
    symbol = symbol;
    alert_type = "volatility_anomaly";
    severity = "warning";
    timestamp = now;
  }

  unfoldable pub put_stats : String → SymbolStats D F → RiskMonitor D F → RiskMonitor D F
  put_stats symbol s rm = record rm { symbol_stats = insert symbol s rm.symbol_stats }

  unfoldable pub checked :
      ℤ → String → Option (SymbolStats D F) → SymbolStats D F → RiskMonitor D F → RiskMonitor D F
  unfolding calculate_atr put_stats broadcast_alert anomaly_alert
  checked now symbol none s rm = put_stats symbol (calculate_atr n rm.average_window s) rm
  checked now symbol (some s') s rm =
      let rm' = put_stats symbol (calculate_atr n rm.average_window s') rm in
      if s'.is_triggered then (broadcast_alert (anomaly_alert now symbol) rm').1 else rm'

  -- handleKlineUpdate for the statistics that the candle's symbol has.
  unfoldable pub handle_candle :
      ℤ → Candle → Option (SymbolStats D F) → RiskMonitor D F → RiskMonitor D F
  unfolding checked
  handle_candle now c none rm = rm
  handle_candle now c (some s) rm =
      let s' = take_candle n now rm.average_window c s in
      checked now c.symbol (check_anomaly n rm.volume_multiplier rm.average_window s') s' rm

  -- handleKlineUpdate. The update of the global state, which it hands to the pool, is a call of its
  -- own.
  unfoldable pub handle_kline_update : ℤ → Option Candle → RiskMonitor D F → RiskMonitor D F
  unfolding handle_candle
  handle_kline_update now none rm = rm
  handle_kline_update now (some c) rm =
      if rm.mu_held then rm else handle_candle now c (lookup c.symbol rm.symbol_stats) rm

  unfoldable pub should_trigger : RiskMonitor D F → Bool
  unfolding count_triggered
  should_trigger rm =
      let count = count_triggered rm.symbol_stats in
      let total = length rm.symbol_stats in
      if string_eq.beq rm.global_strategy "Any" then ltb 0 count else leb total count && ltb 0 total

  unfoldable pub global_alert : ℤ → String → String → RiskAlert
  global_alert now kind severity = record {
    symbol = "";
    alert_type = kind;
    severity = severity;
    timestamp = now;
  }

  -- updateGlobalTriggerState
  unfoldable pub update_global_trigger_state : ℤ → RiskMonitor D F → RiskMonitor D F
  unfolding should_trigger global_alert broadcast_alert
  update_global_trigger_state now rm =
      let normal = pos (length rm.symbol_stats) -ℤ pos (count_triggered rm.symbol_stats) in
      if rm.mu_held
      then rm
      else if should_trigger rm && not rm.triggered
      then (broadcast_alert (global_alert now "global_risk_triggered" "critical")
          (record rm { triggered = true })).1
      else if not (should_trigger rm) && rm.triggered && leb_ℤ rm.recovery_threshold normal
      then (broadcast_alert (global_alert now "global_risk_cleared" "info")
          (record rm { triggered = false })).1
      else rm

  -- The deferred Unlock of a method, which runs when its body has returned.
  unfoldable pub unlock_after : Bool × RiskMonitor D F → Bool × RiskMonitor D F
  unlock_after (true, rm) = (true, unlock_mu rm)
  unlock_after (false, rm) = (false, rm)

  -- Reset: whether it returns, and the state that it leaves or in which it waits.
  unfoldable pub reset : ℤ → RiskMonitor D F → Bool × RiskMonitor D F
  unfolding clear_stats global_alert broadcast_alert unlock_after
  reset now rm =
      let rm' : RiskMonitor D F = lock_mu rm in
      let cleared : RiskMonitor D F = record rm' {
        triggered = false;
        symbol_stats = clear_stats rm'.symbol_stats;
      } in
      if rm.mu_held
      then (false, rm)
      else unlock_after (broadcast_alert (global_alert now "risk_monitor_reset" "info") cleared)

  -- Start, up to the stream of candles.
  unfoldable pub start : (String → Option (List Candle)) → RiskMonitor D F → RiskMonitor D F
  unfolding preload_symbols
  start history rm =
      if rm.mu_held
      then rm
      else record rm { symbol_stats = preload_symbols history rm.monitor_symbols rm.symbol_stats }

  unfoldable pub subscribe : ℕ → RiskMonitor D F → RiskMonitor D F
  subscribe ch rm = if rm.mu_held then rm else record rm { subscribers = rm.subscribers ++ ch ∷ [] }

  unfoldable pub unsubscribe : ℕ → RiskMonitor D F → RiskMonitor D F
  unfolding remove_first
  unsubscribe ch rm =
      if rm.mu_held then rm else record rm { subscribers = remove_first ch rm.subscribers }

  -- GetATR, where rm.mu can be had.
  unfoldable pub get_atr : String → RiskMonitor D F → D
  get_atr symbol rm = elim (lookup symbol rm.symbol_stats) [ none ↦ n.zero | some s ↦ s.atr ]

  -- The calls that other goroutines make.
  pub data Call : Type 0 where
    starts : (String → Option (List Candle)) → Call
    candles : Option Candle → Call
    updates resets : Call
    subscribes unsubscribes : ℕ → Call

  unfoldable pub step : ℤ → Call → RiskMonitor D F → RiskMonitor D F
  unfolding start handle_kline_update update_global_trigger_state reset subscribe unsubscribe
  step now (starts history) rm = start history rm
  step now (candles c) rm = handle_kline_update now c rm
  step now updates rm = update_global_trigger_state now rm
  step now resets rm = (reset now rm).1
  step now (subscribes ch) rm = subscribe ch rm
  step now (unsubscribes ch) rm = unsubscribe ch rm

  unfoldable pub run : List (ℤ × Call) → RiskMonitor D F → RiskMonitor D F
  run [] rm = rm
  run ((now, c) ∷ cs) rm = run cs (step now c rm)
