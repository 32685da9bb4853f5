-- ===== src/Engine/Restart.antt =====
-- The anchor of the grid, while the engine runs and after a restart.
use opensqt_market_maker.Common.{
  ◌≡◌, refl, sym, ap, subst, ◌∙◌, true, false, Option, some, List, [], ◌∷◌,
}
use opensqt_market_maker.Common.Int.{ℤ}
use opensqt_market_maker.Num.{Num, is_zero}
use opensqt_market_maker.Num.Laws.{HasText}
use opensqt_market_maker.Pb.{PbDecimal}
use opensqt_market_maker.Pb.Convert.{to_go_decimal, from_go_decimal, to-from_go_decimal}
use opensqt_market_maker.Pb.OrderId.{IdGen}
use opensqt_market_maker.Engine.{
  GridEngine, MonitorView, Executor, State, on_price_update, on_engine_order_update, save_state,
  anchor_at, start,
}
use opensqt_market_maker.Engine.Events.{
  Event, priced, ordered, last_price, step, run, IsTaken, price_taken,
}

module _ (n : Num) where
  open n use {D, F}

  -- The engine has an anchor, and its store holds this last price.
  record Settled (anchor : D) (last : PbDecimal) (e : GridEngine D F) : Type 0 where
    runs : e.waiting ≡ false
    anchored : e.anchor_price ≡ anchor
    stored :
        (st : State) × (e.saved ≡ some st)
        × (st.last_price ≡ from_go_decimal n (to_go_decimal n last))

  -- All tasks of all rounds run.
  abbrev pub AllTaken : List (Event D F) → Type 0
  AllTaken [] = Unit
  AllTaken (priced ex monitor now price ∷ events) = IsTaken ex × AllTaken events
  AllTaken (ordered u ∷ events) = AllTaken events

  price-Settled :
      (ex : Executor) (monitor : Option (MonitorView D F)) (now : ℤ) (price : PbDecimal)
      (e : GridEngine D F) (g : IdGen) (anchor : D)
      → IsTaken ex
      → e.waiting ≡ false
      → anchor_at n (to_go_decimal n price) e ≡ anchor
      → Settled anchor price (on_price_update n ex monitor now price e g).0
  unfolding save_state
  price-Settled ex monitor now price e g anchor t w h =
      subst (λ (x : GridEngine D F × IdGen). Settled anchor price x.0)
        (sym (price_taken n ex monitor now price e g t w))
        (record { runs = w; anchored = h; stored = (_, refl, refl) })

  run-Settled :
      (events : List (Event D F)) (anchor : D) (last : PbDecimal) (s : GridEngine D F × IdGen)
      → AllTaken events
      → is_zero n anchor ≡ false
      → Settled anchor last s.0
      → Settled anchor (last_price last events) (run n events s).0
  unfolding run step last_price on_engine_order_update anchor_at
  run-Settled [] anchor last s t nz h = h
  run-Settled (priced ex monitor now q ∷ events) anchor last s t nz h =
      let kept : is_zero n s.0.anchor_price ≡ false =
        subst (λ x. is_zero n x ≡ false) (sym h.anchored) nz in
      run-Settled events anchor q (on_price_update n ex monitor now q s.0 s.1) t.1 nz
        (price-Settled ex monitor now q s.0 s.1 anchor t.0 h.runs ((rw kept refl) ∙ h.anchored))
  run-Settled (ordered u ∷ events) anchor last s t nz h =
      run-Settled events anchor last (on_engine_order_update n u s.0, s.1) t nz
        (record { runs = h.runs; anchored = h.anchored; stored = h.stored })

  -- A restart moves the anchor of the grid. A new engine takes the first price that it sees as its
  -- anchor, if it is not zero, and keeps it through all prices and order updates that follow; but an
  -- engine that starts from the state that the store then holds takes the last price as its anchor.
  -- The tasks of all rounds run.
  pub restart_moves_anchor :
      HasText n
      → (ex : Executor) (monitor : Option (MonitorView D F)) (now : ℤ) (first : PbDecimal)
        (events : List (Event D F)) (e restarted : GridEngine D F) (g : IdGen)
      → e.waiting ≡ false
      → is_zero n e.anchor_price ≡ true
      → is_zero n (to_go_decimal n first) ≡ false
      → AllTaken (priced ex monitor now first ∷ events)
      → let e' = (run n (priced ex monitor now first ∷ events) (e, g)).0 in
        (e'.anchor_price ≡ to_go_decimal n first)
        × ((start n e'.saved restarted).anchor_price ≡ to_go_decimal n (last_price first events))
  unfolding run step anchor_at start
  restart_moves_anchor t ex monitor now first events e restarted g w z nz taken =
      let p = to_go_decimal n first in
      let begun =
        price-Settled ex monitor now first e g p taken.0 w (unfold anchor_at in rw z refl) in
      let settled =
        run-Settled events p first (on_price_update n ex monitor now first e g) taken.1 nz begun in
      let (st, saved, last) = settled.stored in
      (
        settled.anchored,
        ap (λ x. (start n x restarted).anchor_price) saved
            ∙ ap (to_go_decimal n) last
            ∙ to-from_go_decimal n t (to_go_decimal n (last_price first events)),
      )
