-- ===== src/Risk/Cleaner/Tests.antt =====
-- The cleaner on decimals that count tenths, with a limit of two orders.
use opensqt_market_maker.Common.{
  ◌≡◌, refl, List, [], ◌∷◌, arith, true, none, some, length, select, ◌⊎◌,
}
use opensqt_market_maker.Common.Int.{ℤ, pos, negsuc, ◌+ℤ◌, ◌-ℤ◌, leb_ℤ, ltb_ℤ}
use opensqt_market_maker.Num.Fixed.{fixed, read_ℤ, count_marks}
use opensqt_market_maker.Pb.{Order}
use opensqt_market_maker.Pb.Enums.{OrderSide, OrderStatus, buy, sell, new, partially_filled, limit}
use opensqt_market_maker.Pb.Convert.{to_go_decimal}
use opensqt_market_maker.Risk.Cleaner.{
  OrderCleaner, Outcome, batch_cancel, order_ids, cleanup, finish_pass, cancel_all, to_cancel,
  unique_int64, unique_from, contains_id, is_stale, pools, balance, cancel_one_side, take_buy,
  take_sell, sort_slice, insert_order, price_less, price_greater, is_pooled_buy, is_pooled_sell,
}
use opensqt_market_maker.Risk.Cleaner.Pass.{is_partial, cleanup_ends_iff}
use opensqt_market_maker.Risk.Cleaner.Count.{IsDistinct, cleanup_restores_limit}
use opensqt_market_maker.Risk.Cleaner.Safe.{IsCleaned, cleanup-IsCleaned}

abbrev cleaner : OrderCleaner
cleaner = record { max_open_orders = pos 2; max_order_age = pos 100 }

abbrev order : ℤ → OrderSide → OrderStatus → ℤ → Order
order id side status created = record {
  order_id = id;
  client_order_id = "";
  symbol = "BTC";
  side = side;
  type = limit;
  price = some "+1";
  quantity = none;
  executed_qty = none;
  status = status;
  created_at = created;
}

-- Two buys, a sell that is old, and a buy that is partially filled.
abbrev first_order : Order
first_order = order (pos 1) buy new (pos 950)

abbrev open_orders : List Order
open_orders =
    order (pos 2) buy new (pos 950)
    ∷ order (pos 3) sell new (pos 10)
    ∷ order (pos 4) buy partially_filled (pos 10)
    ∷ []

abbrev ids : List ℤ
ids = pos 1 ∷ pos 2 ∷ pos 3 ∷ []

cleanup_runs :
    cleanup fixed 9 cleaner (pos 1000) (some (first_order ∷ open_orders)) ≡ some (batch_cancel ids)
unfolding cleanup finish_pass cancel_all to_cancel unique_int64 unique_from contains_id is_stale
    pools balance cancel_one_side take_buy take_sell sort_slice insert_order price_less
    price_greater is_pooled_buy is_pooled_sell to_go_decimal read_ℤ count_marks ◌-ℤ◌
cleanup_runs = refl

cleanup_ends_iff_example :
    ((leb_ℤ (pos (length (select is_partial (first_order ∷ open_orders)))) (pos 2) ≡ true)
      × ((r : Outcome) × (cleanup fixed 9 cleaner (pos 1000) (some (first_order ∷ open_orders))
            ≡ some r)))
    ⊎ ((ltb_ℤ (pos 2) (pos (length (select is_partial (first_order ∷ open_orders)))) ≡ true)
        × (cleanup fixed 9 cleaner (pos 1000) (some (first_order ∷ open_orders)) ≡ none))
cleanup_ends_iff_example =
    cleanup_ends_iff fixed cleaner (pos 1000) first_order open_orders 9 (omega arith)

numbers-IsDistinct : IsDistinct (order_ids (first_order ∷ open_orders))
numbers-IsDistinct (pos k) = ground arith
numbers-IsDistinct (negsuc k) = ground arith

cleanup_restores_limit_example : leb_ℤ (pos 4) (pos 3 +ℤ pos 2) ≡ true
cleanup_restores_limit_example =
    cleanup_restores_limit fixed cleaner (pos 1000) first_order open_orders numbers-IsDistinct 9
      (batch_cancel ids) cleanup_runs

cleanup-IsCleaned_example : IsCleaned cleaner (pos 1000) (first_order ∷ open_orders) ids
cleanup-IsCleaned_example =
    cleanup-IsCleaned fixed cleaner (pos 1000) (first_order ∷ open_orders) 9 (batch_cancel ids)
      cleanup_runs
