-- ===== src/Grid/Append.antt =====
-- A list of actions that grows by an optional action.
use opensqt_market_maker.Common.{Option, none, some, List, All}
use opensqt_market_maker.Pb.{OrderAction}
use opensqt_market_maker.Grid.{append_some}

-- The action, if there is one, has the property.
abbrev pub IfSome : (OrderAction → Type 0) → Option OrderAction → Type 0
IfSome P none = Unit
IfSome P (some a) = P a

pub append_some-All :
    (P : OrderAction → Type 0) (a : Option OrderAction) (actions : List OrderAction)
    → IfSome P a
    → All P actions
    → All P (append_some a actions)
append_some-All P none actions h k = k
append_some-All P (some a) actions h k = (h, k)
