-- ===== src/Risk/Monitor/Reset.antt =====
-- What a monitor does after Reset.
use opensqt_market_maker.Common.{
  ◌≡◌, refl, ap, ◌∙◌, true, false, none, some, List, [], ◌∷◌, ◌++◌, arith,
}
use opensqt_market_maker.Common.Int.{ℤ}
use opensqt_market_maker.Num.{Num}
use opensqt_market_maker.Risk.Monitor.{
  RiskMonitor, Call, starts, candles, updates, resets, subscribes, unsubscribes, start, subscribe,
  unsubscribe, handle_kline_update, update_global_trigger_state, reset, broadcast_alert,
  unlock_after, step, run,
}

module _ (n : Num) where
  open n use {D, F}

  pub step_held :
      (now : ℤ) (c : Call n) (rm : RiskMonitor D F) → rm.mu_held ≡ true → step n now c rm ≡ rm
  unfolding step start subscribe unsubscribe handle_kline_update update_global_trigger_state reset
  step_held now (starts history) rm h = rw h refl
  step_held now (candles none) rm h = refl
  step_held now (candles (some c)) rm h = rw h refl
  step_held now updates rm h = rw h refl
  step_held now resets rm h = rw h refl
  step_held now (subscribes ch) rm h = rw h refl
  step_held now (unsubscribes ch) rm h = rw h refl

  reset_held : (now : ℤ) (rm : RiskMonitor D F) → rm.mu_held ≡ true → (reset n now rm).0 ≡ false
  unfolding reset
  reset_held now rm h = rw h refl

  run_held : (cs : List (ℤ × Call n)) (rm : RiskMonitor D F) → rm.mu_held ≡ true → run n cs rm ≡ rm
  unfolding run
  run_held [] rm h = refl
  run_held ((now, c) ∷ cs) rm h = ap (run n cs) (step_held now c rm h) ∙ run_held cs rm h

  run-append :
      (bs cs : List (ℤ × Call n)) (rm : RiskMonitor D F)
      → run n (bs ++ cs) rm ≡ run n cs (run n bs rm)
  unfolding run
  run-append [] cs rm = refl
  run-append ((now, c) ∷ bs) cs rm = run-append bs cs (step n now c rm)

  -- A call of Reset that gets the mutex waits for itself: broadcastAlert wants to read-lock the mutex
  -- that Reset holds.
  reset_waits :
      (now : ℤ) (rm : RiskMonitor D F)
      → rm.mu_held ≡ false
      → ((reset n now rm).0 ≡ false)
        × ((reset n now rm).1.mu_held ≡ true)
        × ((reset n now rm).1.triggered ≡ false)
        × ((reset n now rm).1.offered ≡ rm.offered)
  unfolding reset broadcast_alert unlock_after
  reset_waits now rm free = ground (arith, free)

  -- Reset stops the monitor for good. A call of Reset that gets the mutex does not return and offers
  -- no alert: broadcastAlert waits for the mutex that Reset holds. Whatever calls the monitor had
  -- before, and whatever calls follow, its state stays the one in which Reset waits, no risk is
  -- triggered in it, and no later call of Reset returns.
  pub reset_stops :
      (bs cs : List (ℤ × Call n)) (now : ℤ) (rm : RiskMonitor D F)
      → (run n bs rm).mu_held ≡ false
      → let m = run n (bs ++ (now, resets) ∷ cs) rm in
        ((reset n now (run n bs rm)).0 ≡ false)
        × (m ≡ (reset n now (run n bs rm)).1)
        × (m.triggered ≡ false)
        × (m.offered ≡ (run n bs rm).offered)
        × ((later : ℤ) → (reset n later m).0 ≡ false)
  unfolding run step
  reset_stops bs cs now rm free =
      let rm' = run n bs rm in
      let (waits, held, untriggered, silent) = reset_waits now rm' free in
      let ends : run n (bs ++ (now, resets) ∷ cs) rm ≡ (reset n now rm').1 =
        run-append bs ((now, resets) ∷ cs) rm ∙ run_held cs (reset n now rm').1 held in
      (
        waits,
        ends,
        ap (λ x. x.triggered) ends ∙ untriggered,
        ap (λ x. x.offered) ends ∙ silent,
        λ later. ap (λ x. (reset n later x).0) ends ∙ reset_held later (reset n now rm').1 held,
      )
