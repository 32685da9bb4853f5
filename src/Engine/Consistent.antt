-- ===== src/Engine/Consistent.antt =====
-- The slots of the engine, through restarts and events.
use opensqt_market_maker.Common.{Option, none, some}
use opensqt_market_maker.Num.{Num}
use opensqt_market_maker.Position.Slots.RoundTrip.{DistinctKeys}
use opensqt_market_maker.Grid.Slots.Reach.{IsKeyed}
use opensqt_market_maker.Engine.{State}

module _ (n : Num) where
  open n use {D, F}

  -- A map from the texts of the prices to their slots, if the store has one.
  abbrev pub IsLoadable : Option State → Type 0
  IsLoadable none = Unit
  IsLoadable (some st) = IsKeyed n st.slots × DistinctKeys st.slots
