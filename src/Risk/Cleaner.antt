-- ===== src/Risk/Cleaner.antt =====
-- market_maker/internal/risk/cleaner.go. The open orders and the clock are arguments; what a pass
-- hands to BatchCancelOrders of the executor is its result.
pub mod Loop
pub mod Pass
pub mod Count
pub mod Rounds
pub mod Safe
mod Tests
use opensqt_market_maker.Common.{
  ℕ, zero, suc, ◌-◌, Bool, true, false, not, ◌&&◌, ◌||◌, Option, none, some, List, [], ◌∷◌, ◌++◌,
  map, if◌then◌else◌, ltb, leb, ◌==◌, length, select,
}
use opensqt_market_maker.Common.Int.{ℤ, pos, pos_part, ◌-ℤ◌, ltb_ℤ, eqb_ℤ}
use opensqt_market_maker.Num.{Num, less_than, greater_than}
use opensqt_market_maker.Pb.{Order}
use opensqt_market_maker.Pb.Enums.{is_buy, is_partially_filled}
use opensqt_market_maker.Pb.Convert.{to_go_decimal}

-- What the cleaner is configured with.
pub record OrderCleaner : Type 0 where
  pub max_open_orders : ℤ
  pub max_order_age : ℤ

-- The local variables of the loop over the excess.
pub record Pools : Type 0 where
  pub excess : ℕ
  pub buy_orders : List Order
  pub sell_orders : List Order
  pub orders_to_cancel : List ℤ

-- How a pass ends: with the error of GetOpenOrders, with nothing to cancel, or with a call of
-- BatchCancelOrders, whose error it returns.
pub data Outcome : Type 0 where
  fetch_failed nothing_to_cancel : Outcome
  batch_cancel : List ℤ → Outcome

abbrev pub order_ids : List Order → List ℤ
order_ids = map (λ o. o.order_id)

unfoldable pub is_pooled_buy : Order → Bool
is_pooled_buy o = not (is_partially_filled o.status) && is_buy o.side

unfoldable pub is_pooled_sell : Order → Bool
is_pooled_sell o = not (is_partially_filled o.status) && not (is_buy o.side)

-- sort.Slice, as the insertion sort that it is for short slices.
unfoldable pub insert_order : (Order → Order → Bool) → Order → List Order → List Order
insert_order less o [] = o ∷ []
insert_order less o (p ∷ ps) =
    let rest = insert_order less o ps in if less p o then p ∷ rest else o ∷ p ∷ ps

unfoldable pub sort_slice : (Order → Order → Bool) → List Order → List Order
sort_slice less [] = []
sort_slice less (o ∷ os) = insert_order less o (sort_slice less os)

unfoldable pub take_buy : List Order → Pools → Pools
take_buy [] p = p
take_buy (o ∷ rest) p = record p {
  excess = p.excess - 1;
  buy_orders = rest;
  orders_to_cancel = p.orders_to_cancel ++ o.order_id ∷ [];
}

unfoldable pub take_sell : List Order → Pools → Pools
take_sell [] p = p
take_sell (o ∷ rest) p = record p {
  excess = p.excess - 1;
  sell_orders = rest;
  orders_to_cancel = p.orders_to_cancel ++ o.order_id ∷ [];
}

-- The body of the loop.
unfoldable pub cancel_one_side : Pools → Pools
unfolding take_buy take_sell
cancel_one_side p =
    let buys = length p.buy_orders in
    let sells = length p.sell_orders in
    let after_buy = take_buy p.buy_orders p in
    if ltb sells buys
    then after_buy
    else if ltb buys sells
    then take_sell p.sell_orders p
    else if leb 2 p.excess
    then take_sell after_buy.sell_orders after_buy
    else after_buy

-- `for excess > 0`, with `none` where the fuel runs out.
unfoldable pub balance : ℕ → Pools → Option Pools
balance zero p = none
balance (suc k) p =
    let rest = balance k (cancel_one_side p) in if p.excess == 0 then some p else rest

unfoldable pub contains_id : ℤ → List ℤ → Bool
contains_id k [] = false
contains_id k (j ∷ ids) = eqb_ℤ j k || contains_id k ids

-- uniqueInt64, with the keys seen so far.
unfoldable pub unique_from : List ℤ → List ℤ → List ℤ
unique_from seen [] = []
unique_from seen (entry ∷ slice) =
    if contains_id entry seen
    then unique_from seen slice
    else entry ∷ unique_from (entry ∷ seen) slice

unfoldable pub unique_int64 : List ℤ → List ℤ
unfolding unique_from
unique_int64 slice = unique_from [] slice

unfoldable pub is_stale : OrderCleaner → ℤ → Order → Bool
is_stale oc now o = ltb_ℤ oc.max_order_age (now -ℤ o.created_at)

-- The identifiers that a pass cancels when the loop has left these pools.
unfoldable pub to_cancel : OrderCleaner → ℤ → Pools → List ℤ
to_cancel oc now p =
    let remaining_orders = p.buy_orders ++ p.sell_orders in
    unique_int64 (p.orders_to_cancel ++ order_ids (select (is_stale oc now) remaining_orders))

unfoldable pub cancel_all : List ℤ → Outcome
cancel_all [] = nothing_to_cancel
cancel_all (id ∷ ids) = batch_cancel (id ∷ ids)

unfoldable pub finish_pass : OrderCleaner → ℤ → Option Pools → Option Outcome
finish_pass oc now none = none
finish_pass oc now (some p) = some (cancel_all (to_cancel oc now p))

module _ (n : Num) where
  unfoldable pub price_less : Order → Order → Bool
  price_less o p = less_than n (to_go_decimal n o.price) (to_go_decimal n p.price)

  unfoldable pub price_greater : Order → Order → Bool
  price_greater o p = greater_than n (to_go_decimal n o.price) (to_go_decimal n p.price)

  -- The sides, sorted, and the number of orders in excess of the limit.
  unfoldable pub pools : OrderCleaner → List Order → Pools
  unfolding sort_slice
  pools oc orders = record {
    excess = pos_part (pos (length orders) -ℤ oc.max_open_orders);
    buy_orders = sort_slice price_less (select is_pooled_buy orders);
    sell_orders = sort_slice price_greater (select is_pooled_sell orders);
    orders_to_cancel = [];
  }

  -- Cleanup, where `orders` is what GetOpenOrders answered. The loop has `fuel` rounds, and `none`
  -- means that it is still running after them.
  unfoldable pub cleanup : ℕ → OrderCleaner → ℤ → Option (List Order) → Option Outcome
  cleanup fuel oc now none = some fetch_failed
  cleanup fuel oc now (some []) = some nothing_to_cancel
  cleanup fuel oc now (some (o ∷ os)) = finish_pass oc now (balance fuel (pools oc (o ∷ os)))
