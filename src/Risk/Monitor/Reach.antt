-- ===== src/Risk/Monitor/Reach.antt =====
-- The candles of every symbol, after any calls of a monitor.
use mathlib.Core.List.{reverse}
use opensqt_market_maker.Common.{
  ℕ, ◌≤◌, ◌≡◌, refl, sym, subst, ◌∙◌, true, false, Bool, Bool-cases, inl, inr, ◌⊎◌, Option,
  Option-cases, none, some, List, [], ◌∷◌, arith, All, length, ltb, if◌then◌else◌, String,
}
use opensqt_market_maker.Common.Int.{ℤ}
use opensqt_market_maker.Common.Assoc.{Eq, lookup, insert, string_eq}
use opensqt_market_maker.Num.{Num}
use opensqt_market_maker.Pb.{Candle}
use opensqt_market_maker.Risk.SymbolStats.{
  SymbolStats, empty_stats, judge, check_candles, check_anomaly, calculate_atr, take_candle,
  update_candles,
}
use opensqt_market_maker.Risk.Monitor.{
  RiskMonitor, Call, starts, candles, updates, resets, subscribes, unsubscribes, stats_for,
  new_risk_monitor, preload_one, preload_symbols, broadcast_alert, put_stats, checked, clear_stats,
  start, subscribe, unsubscribe, handle_candle, handle_kline_update, update_global_trigger_state,
  reset, unlock_after, step, run,
}
use opensqt_market_maker.Risk.Monitor.Window.{
  IsWindow, check_anomaly-answers, update_candles-IsWindow,
}

module _ {ℓ κ μ} {K : Type ℓ} {V : Type κ} ⦃e : Eq K⦄ (P : V → Type μ) where
  abbrev pub AllValues : List (K × V) → Type μ
  AllValues = All (λ x. P x.1)

  insert-AllValues :
      (k : K) (v : V) (m : List (K × V)) → P v → AllValues m → AllValues (insert k v m)
  unfolding insert
  insert-AllValues k v [] p h = (p, tt)
  insert-AllValues k v ((j, w) ∷ m) p h = ground (arith, insert-AllValues k v m p h.1)

  lookup-AllValues : (k : K) (v : V) (m : List (K × V)) → AllValues m → lookup k m ≡ some v → P v
  unfolding lookup
  lookup-AllValues k v [] h l = absurd (ground arith)
  lookup-AllValues k v ((j, w) ∷ m) h l = elim (Bool-cases (e.beq j k)) [
    | inl same ↦ let found : w ≡ v = ground arith in subst P found h.0
    | inr other ↦ lookup-AllValues k v m h.1 (ground arith)
  ]

module _ (n : Num) (window : ℕ) where
  open n use {D, F}

  abbrev pub HasWindow : SymbolStats D F → Type 0
  HasWindow s = IsWindow window s.candles

  abbrev pub Stats : Type 0
  Stats = List (String × SymbolStats D F)

  -- Every symbol has its window of candles.
  abbrev pub HaveWindows : Stats → Type 0
  HaveWindows = AllValues HasWindow

  abbrev pub AnswersWindow : Option (List Candle) → Type 0
  AnswersWindow none = Unit
  AnswersWindow (some l) = IsWindow window l

  -- A call with which GetHistoricalKlines answers with windows.
  abbrev pub IsAdmissible : Call n → Type 0
  IsAdmissible (starts history) = (symbol : String) → AnswersWindow (history symbol)
  IsAdmissible _ = Unit

  stats_for-HaveWindows :
      (t : ℤ) (symbols : List String) (m : Stats)
      → HaveWindows m
      → HaveWindows (stats_for n t symbols m)
  unfolding stats_for empty_stats
  stats_for-HaveWindows t [] m h = h
  stats_for-HaveWindows t (s ∷ symbols) m h = stats_for-HaveWindows t symbols _ (
      insert-AllValues HasWindow s (empty_stats n t) m (record { closed = tt; short = omega arith })
        h)

  clear-HaveWindows : (m : Stats) → HaveWindows m → HaveWindows (clear_stats m)
  unfolding clear_stats
  clear-HaveWindows [] h = tt
  clear-HaveWindows ((k, s) ∷ m) h =
      (record { closed = h.0.closed; short = h.0.short }, clear-HaveWindows m h.1)

  preload_one-HaveWindows :
      (symbol : String) (answer : Option (List Candle)) (m : Stats)
      → AnswersWindow answer
      → HaveWindows m
      → HaveWindows (preload_one n symbol answer m)
  unfolding preload_one
  preload_one-HaveWindows symbol none m a h = h
  preload_one-HaveWindows symbol (some []) m a h = h
  preload_one-HaveWindows symbol (some (c ∷ cs)) m a h = elim (Option-cases (lookup symbol m)) [
    | inl e ↦ rw (e, preload_one) h
    | inr (s, e) ↦
        rw (e, preload_one)
          (insert-AllValues HasWindow symbol (record s { candles = c ∷ cs }) m a h)
  ]

  preload-HaveWindows :
      (history : String → Option (List Candle)) (symbols : List String) (m : Stats)
      → IsAdmissible (starts history)
      → HaveWindows m
      → HaveWindows (preload_symbols n history symbols m)
  unfolding preload_symbols
  preload-HaveWindows history [] m a h = h
  preload-HaveWindows history (s ∷ symbols) m a h =
      preload-HaveWindows history symbols _ a (preload_one-HaveWindows s (history s) m (a s) h)

  -- A monitor with this window, and the windows of its symbols.
  pub record IsTracking (rm : RiskMonitor D F) : Type 0 where
    pub same_window : rm.average_window ≡ window
    pub windows : HaveWindows rm.symbol_stats

  judged-candles :
      (m : F) (l : List Candle) (s s' : SymbolStats D F)
      → check_candles n m window l s ≡ some s'
      → s'.candles ≡ s.candles
  unfolding check_candles judge
  judged-candles m [] s s' e = absurd (ground arith)
  judged-candles m (c ∷ l) s s' e = ground arith

  anomaly-candles :
      (m : F) (s s' : SymbolStats D F)
      → check_anomaly n m window s ≡ some s'
      → s'.candles ≡ s.candles
  unfolding check_anomaly
  anomaly-candles m s s' e = ground (arith, judged-candles m (reverse s.candles) s s')

  atr-candles : (w : ℕ) (s : SymbolStats D F) → (calculate_atr n w s).candles ≡ s.candles
  unfolding calculate_atr
  atr-candles w s = ground arith

  checked-IsTracking :
      (now : ℤ) (symbol : String) (o : Option (SymbolStats D F)) (s : SymbolStats D F)
      (rm : RiskMonitor D F)
      → HasWindow s
      → ((s' : SymbolStats D F) → o ≡ some s' → s'.candles ≡ s.candles)
      → IsTracking rm
      → IsTracking (checked n now symbol o s rm)
  unfolding checked put_stats broadcast_alert
  checked-IsTracking now symbol none s rm w f t = record {
    same_window = t.same_window;
    windows =
        insert-AllValues HasWindow symbol (calculate_atr n rm.average_window s) rm.symbol_stats
          (subst (IsWindow window) (sym (atr-candles rm.average_window s)) w) t.windows;
  }
  checked-IsTracking now symbol (some s') s rm w f t =
      let stored =
        insert-AllValues HasWindow symbol (calculate_atr n rm.average_window s') rm.symbol_stats
          (subst (IsWindow window) (sym (atr-candles rm.average_window s' ∙ f s' refl)) w)
          t.windows in
      record { same_window = ground (arith, t.same_window); windows = ground (arith, stored) }

  candle-IsTracking :
      (now : ℤ) (c : Candle) (o : Option (SymbolStats D F)) (rm : RiskMonitor D F)
      → lookup c.symbol rm.symbol_stats ≡ o
      → IsTracking rm
      → IsTracking (handle_candle n now c o rm)
  unfolding handle_candle take_candle
  candle-IsTracking now c none rm e t = t
  candle-IsTracking now c (some s) rm e t =
      let s' = take_candle n now rm.average_window c s in
      let w : HasWindow s' =
        subst (λ x. IsWindow window (update_candles x c s.candles)) (sym t.same_window)
          (update_candles-IsWindow window c s.candles
            (lookup-AllValues HasWindow c.symbol s rm.symbol_stats t.windows e)) in
      checked-IsTracking now c.symbol (check_anomaly n rm.volume_multiplier rm.average_window s') s'
        rm w
        (λ s'' e'.
          anomaly-candles rm.volume_multiplier s' s''
            (subst (λ x. check_anomaly n rm.volume_multiplier x s' ≡ some s'') t.same_window e'))
        t

  -- What holds in both cases of a test.
  either :
      (b : Bool) (x y : RiskMonitor D F)
      → IsTracking x
      → IsTracking y
      → IsTracking (if b then x else y)
  either true x y s t = s
  either false x y s t = t

  global-IsTracking :
      (now : ℤ) (rm : RiskMonitor D F)
      → IsTracking rm
      → IsTracking (update_global_trigger_state n now rm)
  unfolding update_global_trigger_state broadcast_alert
  global-IsTracking now rm t = record {
    same_window = ground (arith, t.same_window);
    windows = ground (arith, t.windows);
  }

  reset-IsTracking :
      (now : ℤ) (rm : RiskMonitor D F) → IsTracking rm → IsTracking (reset n now rm).1
  unfolding reset broadcast_alert unlock_after
  reset-IsTracking now rm t = record {
    same_window = ground (arith, t.same_window);
    windows = ground (arith, t.windows, clear-HaveWindows rm.symbol_stats t.windows);
  }

  step-IsTracking :
      (now : ℤ) (c : Call n) (rm : RiskMonitor D F)
      → IsAdmissible c
      → IsTracking rm
      → IsTracking (step n now c rm)
  unfolding step start handle_kline_update subscribe unsubscribe
  step-IsTracking now (starts history) rm a t = either rm.mu_held _ _ t (record {
    same_window = t.same_window;
    windows = preload-HaveWindows history rm.monitor_symbols rm.symbol_stats a t.windows;
  })
  step-IsTracking now (candles none) rm a t = t
  step-IsTracking now (candles (some c)) rm a t =
      either rm.mu_held _ _ t (candle-IsTracking now c _ rm refl t)
  step-IsTracking now updates rm a t = global-IsTracking now rm t
  step-IsTracking now resets rm a t = reset-IsTracking now rm t
  step-IsTracking now (subscribes ch) rm a t =
      either rm.mu_held _ _ t (record { same_window = t.same_window; windows = t.windows })
  step-IsTracking now (unsubscribes ch) rm a t =
      either rm.mu_held _ _ t (record { same_window = t.same_window; windows = t.windows })

  run-IsTracking :
      (cs : List (ℤ × Call n)) (rm : RiskMonitor D F)
      → All (λ c. IsAdmissible c.1) cs
      → IsTracking rm
      → IsTracking (run n cs rm)
  unfolding run
  run-IsTracking [] rm a t = t
  run-IsTracking ((now, c) ∷ cs) rm a t =
      run-IsTracking cs (step n now c rm) a.1 (step-IsTracking now c rm a.0 t)

  new-IsTracking :
      (t : ℤ) (symbols : List String) (m : F) (recovery : ℤ) (strategy : String)
      → IsTracking (new_risk_monitor n t symbols m window recovery strategy)
  unfolding new_risk_monitor
  new-IsTracking t symbols m recovery strategy = record {
    same_window = refl;
    windows = stats_for-HaveWindows t symbols [] tt;
  }

  -- Whatever calls a new monitor has had, with histories that are windows, every symbol that it
  -- knows has a window of candles: at most two more than it averages over, the last one of which is
  -- open if there are so many, and all candles before the last are closed. So checkAnomaly judges a
  -- symbol whenever it has more candles than it averages over.
  pub run-IsWindow :
      (t : ℤ) (symbols : List String) (m : F) (recovery : ℤ) (strategy : String)
      (cs : List (ℤ × Call n)) (symbol : String) (s : SymbolStats D F)
      → All (λ (c : ℤ × Call n). IsAdmissible c.1) cs
      → lookup symbol
          (run n cs (new_risk_monitor n t symbols m window recovery strategy)).symbol_stats
        ≡ some s
      → IsWindow window s.candles
        × ((length s.candles ≤ window)
            ⊎ ((s' : SymbolStats D F) × (check_anomaly n m window s ≡ some s')))
  run-IsWindow t symbols m recovery strategy cs symbol s a found =
      let rm = new_risk_monitor n t symbols m window recovery strategy in
      let tracking = run-IsTracking cs rm a (new-IsTracking t symbols m recovery strategy) in
      let w =
        lookup-AllValues HasWindow symbol s (run n cs rm).symbol_stats tracking.windows found in
      (
        w,
        elim (Bool-cases (ltb window (length s.candles))) [
          | inl many ↦ inr (check_anomaly-answers n m window s w (ground arith))
          | inr few ↦ inl (ground arith)
        ],
      )
