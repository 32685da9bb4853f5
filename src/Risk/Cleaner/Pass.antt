-- ===== src/Risk/Cleaner/Pass.antt =====
-- Which orders Cleanup cancels, and when it returns.
use opensqt_market_maker.Common.{
  ℕ, suc, ◌+◌, ◌≤◌, ◌<◌, ◌≡◌, ◌⊎◌, Bool, true, Bool-cases, inl, inr, none, some, List, [], ◌∷◌,
  arith, length, select, refl, ap,
}
use opensqt_market_maker.Common.Int.{ℤ, pos, leb_ℤ, ltb_ℤ, -ℤ_parts}
use opensqt_market_maker.Num.{Num}
use opensqt_market_maker.Pb.{Order}
use opensqt_market_maker.Pb.Enums.{is_partially_filled}
use opensqt_market_maker.Risk.Cleaner.{
  OrderCleaner, Outcome, is_pooled_buy, is_pooled_sell, insert_order, sort_slice, price_less,
  price_greater, pools, to_cancel, cancel_all, finish_pass, cleanup,
}
use opensqt_market_maker.Risk.Cleaner.Loop.{pool_size, balance_ends, balance_runs_on}

abbrev pub is_partial : Order → Bool
is_partial o = is_partially_filled o.status

length-insert_order :
    (less : Order → Order → Bool) (o : Order) (os : List Order)
    → length (insert_order less o os) ≡ suc (length os)
unfolding insert_order
length-insert_order less o [] = refl
length-insert_order less o (p ∷ ps) = ground (arith, length-insert_order less o ps)

pub length-sort_slice :
    (less : Order → Order → Bool) (os : List Order) → length (sort_slice less os) ≡ length os
unfolding sort_slice
length-sort_slice less [] = refl
length-sort_slice less (o ∷ os) =
    omega (arith, length-insert_order less o (sort_slice less os), length-sort_slice less os)

-- Every order is partially filled, or in one of the pools.
length-split :
    (os : List Order)
    → length (select is_pooled_buy os)
        + length (select is_pooled_sell os)
        + length (select is_partial os)
      ≡ length os
unfolding is_pooled_buy is_pooled_sell
length-split [] = refl
length-split (o ∷ os) = ground (arith, length-split os)

module _ (n : Num) (oc : OrderCleaner) (orders : List Order) where
  pool_size-pools :
      pool_size (pools n oc orders) + length (select is_partial orders) ≡ length orders
  unfolding pools
  pool_size-pools = omega (
    arith,
    length-split orders,
    length-sort_slice (price_less n) (select is_pooled_buy orders),
    length-sort_slice (price_greater n) (select is_pooled_sell orders),
  )

  -- The pools hold the excess unless there are more partially filled orders than the limit.
  excess_enough :
      leb_ℤ (pos (length (select is_partial orders))) oc.max_open_orders ≡ true
      → (pools n oc orders).excess ≤ pool_size (pools n oc orders)
  unfolding pools
  excess_enough h =
      ground (arith, pool_size-pools, -ℤ_parts (pos (length orders)) oc.max_open_orders)

  excess_short :
      ltb_ℤ oc.max_open_orders (pos (length (select is_partial orders))) ≡ true
      → pool_size (pools n oc orders) < (pools n oc orders).excess
  unfolding pools
  excess_short h =
      ground (arith, pool_size-pools, -ℤ_parts (pos (length orders)) oc.max_open_orders)

  excess-le :
      leb_ℤ (pos (length (select is_partial orders))) oc.max_open_orders ≡ true
      → (pools n oc orders).excess ≤ length orders
  excess-le h = omega (arith, pool_size-pools, excess_enough h)

-- Cleanup returns if and only if the open orders that are partially filled are no more than the
-- limit: they count as open but are in no pool, so that with more of them the loop over the excess
-- never ends. As many rounds as there are orders, and one, tell.
pub cleanup_ends_iff :
    (n : Num) (oc : OrderCleaner) (now : ℤ) (o : Order) (os : List Order) (fuel : ℕ)
    → length (o ∷ os) < fuel
    → ((leb_ℤ (pos (length (select is_partial (o ∷ os)))) oc.max_open_orders ≡ true)
        × ((r : Outcome) × (cleanup n fuel oc now (some (o ∷ os)) ≡ some r)))
      ⊎ ((ltb_ℤ oc.max_open_orders (pos (length (select is_partial (o ∷ os)))) ≡ true)
          × (cleanup n fuel oc now (some (o ∷ os)) ≡ none))
unfolding cleanup finish_pass
cleanup_ends_iff n oc now o os fuel h =
    elim (Bool-cases (leb_ℤ (pos (length (select is_partial (o ∷ os)))) oc.max_open_orders)) [
      | inl few ↦
          let (q, e) =
            balance_ends fuel (pools n oc (o ∷ os)) (omega (arith, excess-le n oc (o ∷ os) few))
              (excess_enough n oc (o ∷ os) few) in
          inl (few, (cancel_all (to_cancel oc now q), ap (finish_pass oc now) e))
      | inr many ↦
          let past : ltb_ℤ oc.max_open_orders (pos (length (select is_partial (o ∷ os)))) ≡ true =
            ground arith in
          inr (
            past,
            ap (finish_pass oc now)
                (balance_runs_on fuel (pools n oc (o ∷ os)) (excess_short n oc (o ∷ os) past)),
          )
    ]
