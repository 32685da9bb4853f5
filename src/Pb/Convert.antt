-- ===== src/Pb/Convert.antt =====
-- market_maker/pkg/pbu/helpers.go: ToGoDecimal and FromGoDecimal.
use opensqt_market_maker.Common.{Option, none, some, String, ◌≡◌, arith}
use opensqt_market_maker.Num.{Num}
use opensqt_market_maker.Num.Laws.{HasText}

module _ (n : Num) where
  open n use {D, zero, show, read}

  -- A text that does not parse is read as zero, as nil is.
  unfoldable pub or_zero : Option D → D
  or_zero none = zero
  or_zero (some d) = d

  unfoldable pub to_go_decimal : Option String → D
  unfolding or_zero
  to_go_decimal none = zero
  to_go_decimal (some s) = or_zero (read s)

  unfoldable pub from_go_decimal : D → Option String
  from_go_decimal d = some (show d)

  pub to-from_go_decimal : HasText n → (d : D) → to_go_decimal (from_go_decimal d) ≡ d
  unfolding to_go_decimal from_go_decimal
  to-from_go_decimal h d = ground (arith, h.read-show d)
