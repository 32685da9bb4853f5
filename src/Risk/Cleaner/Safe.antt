-- ===== src/Risk/Cleaner/Safe.antt =====
-- What Cleanup cancels: which orders, each once, and all the old ones.
use opensqt_market_maker.Common.{
  ℕ, ◌≡◌, ◌⊎◌, true, false, Bool-cases, inl, inr, Option-cases, some, List, [], ◌∷◌, ◌++◌, arith,
  select, All, All-append, All-map, In, All-In, In-append_left, In-append_right, In-select, refl,
  ◌≤◌, if◌then◌else◌,
}
use opensqt_market_maker.Common.Int.{ℤ, eqb_ℤ_iff}
use opensqt_market_maker.Num.{Num}
use opensqt_market_maker.Pb.{Order}
use opensqt_market_maker.Pb.Enums.{is_buy}
use opensqt_market_maker.Risk.Cleaner.{
  OrderCleaner, Pools, Outcome, order_ids, is_pooled_buy, is_pooled_sell, balance, contains_id,
  unique_from, unique_int64, is_stale, price_less, price_greater, pools, to_cancel, cancel_all,
  finish_pass, cleanup,
}
use opensqt_market_maker.Risk.Cleaner.Loop.{balance_inv}
use opensqt_market_maker.Risk.Cleaner.Rounds.{
  IsPooled, IsSource, IsAccounted, Sound, All-sort, All-select, In-sort, contains-append,
  cancel_one_side-Sound, cancel_one_side-IsAccounted,
}
use opensqt_market_maker.Risk.Cleaner.Pass.{is_partial}
use opensqt_market_maker.Risk.Cleaner.Count.{
  occurrences, IsDistinct, cancelled, cancelled-cancel_all,
}

-- uniqueInt64 keeps the numbers, and each of them once.
unique_from-All {κ} : (Q : ℤ → Type κ) (seen l : List ℤ) → All Q l → All Q (unique_from seen l)
unfolding unique_from
unique_from-All Q seen [] h = tt
unique_from-All Q seen (j ∷ l) h =
    ground (arith, unique_from-All Q seen l h.1, unique_from-All Q (j ∷ seen) l h.1)

unique_from_once :
    (k : ℤ) (seen l : List ℤ)
    → occurrences k (unique_from seen l) ≤ (if contains_id k seen then 0 else 1)
unfolding unique_from contains_id
unique_from_once k seen [] = ground arith
unique_from_once k seen (j ∷ l) =
    ground (arith, unique_from_once k seen l, unique_from_once k (j ∷ seen) l, eqb_ℤ_iff j k)

unique_from-contains :
    (k : ℤ) (seen l : List ℤ)
    → contains_id k l ≡ true
    → (contains_id k seen ≡ true) ⊎ (contains_id k (unique_from seen l) ≡ true)
unfolding unique_from contains_id
unique_from-contains k seen [] h = ground arith
unique_from-contains k seen (j ∷ l) h =
    ground
      (arith, unique_from-contains k seen l, unique_from-contains k (j ∷ seen) l, eqb_ℤ_iff j k)

contains-ids :
    (o : Order) (os : List Order) → In o os → contains_id o.order_id (order_ids os) ≡ true
unfolding contains_id
contains-ids o [] h = absurd h
contains-ids o (p ∷ os) (inl e) = rw (← e) (ground (arith, eqb_ℤ_iff o.order_id o.order_id))
contains-ids o (p ∷ os) (inr h) = ground (arith, contains-ids o os h)

-- What a pass over the orders cancels.
pub record IsCleaned (oc : OrderCleaner) (now : ℤ) (orders : List Order) (ids : List ℤ)
    : Type 0 where
  pub sources : All (IsSource orders) ids
  pub distinct : IsDistinct ids
  pub old_ones :
      All
        (λ o.
          (is_partial o ≡ true) ⊎ (is_stale oc now o ≡ false) ⊎ (contains_id o.order_id ids ≡ true))
        orders

module _ (n : Num) (oc : OrderCleaner) (now : ℤ) (orders : List Order) where
  pools-Sound : Sound orders (pools n oc orders)
  unfolding pools is_pooled_buy is_pooled_sell
  pools-Sound = record {
    buys = All-sort (IsPooled orders) (price_less n) (select is_pooled_buy orders) (
        All-select (λ o. In o orders) (IsPooled orders) is_pooled_buy (λ o i t. (i, ground arith))
          orders (All-In orders));
    sells = All-sort (IsPooled orders) (price_greater n) (select is_pooled_sell orders) (
        All-select (λ o. In o orders) (IsPooled orders) is_pooled_sell (λ o i t. (i, ground arith))
          orders (All-In orders));
    chosen = tt;
  }

  pools-IsAccounted :
      (o : Order) → In o orders → is_partial o ≡ false → IsAccounted o (pools n oc orders)
  unfolding pools is_pooled_buy is_pooled_sell
  pools-IsAccounted o i p = elim (Bool-cases (is_buy o.side)) [
    | inl b ↦
        inr (inl (In-sort (price_less n) o _ (In-select is_pooled_buy o orders i (ground arith))))
    | inr b ↦
        inr
          (inr (In-sort (price_greater n) o _ (In-select is_pooled_sell o orders i (ground arith))))
  ]

  -- The list that uniqueInt64 reads.
  abbrev chosen_and_stale : Pools → List ℤ
  chosen_and_stale q =
      q.orders_to_cancel ++ order_ids (select (is_stale oc now) (q.buy_orders ++ q.sell_orders))

  IsSource-ids : (os : List Order) → All (IsPooled orders) os → All (IsSource orders) (order_ids os)
  IsSource-ids [] h = tt
  IsSource-ids (o ∷ os) h = ((o, h.0.0, h.0.1, refl), IsSource-ids os h.1)

  chosen_and_stale-IsSource :
      (q : Pools) → Sound orders q → All (IsSource orders) (chosen_and_stale q)
  chosen_and_stale-IsSource q s =
      let remaining = q.buy_orders ++ q.sell_orders in
      All-append (IsSource orders) q.orders_to_cancel _ s.chosen (
        IsSource-ids (select (is_stale oc now) remaining) (
          All-select (IsPooled orders) (IsPooled orders) (is_stale oc now) (λ o h t. h) remaining
            (All-append (IsPooled orders) q.buy_orders q.sell_orders s.buys s.sells)))

  stale-contained :
      (q : Pools) (o : Order)
      → IsAccounted o q
      → is_stale oc now o ≡ true
      → contains_id o.order_id (chosen_and_stale q) ≡ true
  stale-contained q o a t =
      let remaining = q.buy_orders ++ q.sell_orders in
      let stale = order_ids (select (is_stale oc now) remaining) in
      let later : In o remaining → contains_id o.order_id stale ≡ true = λ i.
        contains-ids o (select (is_stale oc now) remaining)
          (In-select (is_stale oc now) o remaining i t) in
      let both = contains-append o.order_id q.orders_to_cancel stale in
      elim a [
        | inl now_chosen ↦ ground (arith, both, now_chosen)
        | inr (inl bought) ↦
            ground (arith, both, later (In-append_left o q.buy_orders q.sell_orders bought))
        | inr (inr sold) ↦
            ground (arith, both, later (In-append_right o q.buy_orders q.sell_orders sold))
      ]

  unique-contains :
      (k : ℤ) (l : List ℤ) → contains_id k l ≡ true → contains_id k (unique_from [] l) ≡ true
  unfolding contains_id
  unique-contains k l c = ground (arith, unique_from-contains k [] l c)

  -- An order that may be cancelled is young, or it is cancelled.
  old_one :
      (q : Pools)
      → ((o : Order) → In o orders → is_partial o ≡ false → IsAccounted o q)
      → (o : Order) → In o orders
      → (is_partial o ≡ true)
        ⊎ (is_stale oc now o ≡ false)
        ⊎ (contains_id o.order_id (unique_from [] (chosen_and_stale q)) ≡ true)
  old_one q a o i = elim (Bool-cases (is_partial o)) [
    | inl p ↦ inl p
    | inr p ↦ elim (Bool-cases (is_stale oc now o)) [
      | inl t ↦ inr (inr (unique-contains o.order_id _ (stale-contained q o (a o i p) t)))
      | inr t ↦ inr (inl t)
    ]
  ]

  to_cancel-IsCleaned :
      (q : Pools)
      → Sound orders q
      → ((o : Order) → In o orders → is_partial o ≡ false → IsAccounted o q)
      → IsCleaned oc now orders (to_cancel oc now q)
  unfolding to_cancel unique_int64
  to_cancel-IsCleaned q s a = record {
    sources = unique_from-All (IsSource orders) [] _ (chosen_and_stale-IsSource q s);
    distinct = λ k. ground (arith, unique_from_once k [] (chosen_and_stale q));
    old_ones = All-map (λ o. In o orders) _ (λ o i. old_one q a o i) orders (All-In orders);
  }

-- A pass that returns cancels numbers of open orders that are not partially filled, each number
-- once, and among them that of every such order which is older than the limit on the age.
pub cleanup-IsCleaned :
    (n : Num) (oc : OrderCleaner) (now : ℤ) (orders : List Order) (fuel : ℕ) (r : Outcome)
    → cleanup n fuel oc now (some orders) ≡ some r
    → IsCleaned oc now orders (cancelled r)
unfolding cleanup finish_pass
cleanup-IsCleaned n oc now [] fuel r e =
    let none_open : cancelled r ≡ [] = ground arith in
    rw none_open (record { sources = tt; distinct = λ k. omega arith; old_ones = tt })
cleanup-IsCleaned n oc now (o ∷ os) fuel r e =
    elim (Option-cases (balance fuel (pools n oc (o ∷ os)))) [
      | inl running ↦ absurd (ground (arith, running))
      | inr (q, ended) ↦
          let orders = o ∷ os in
          let result : r ≡ cancel_all (to_cancel oc now q) = ground (arith, ended) in
          let sound =
            balance_inv (Sound orders) (λ p h s. cancel_one_side-Sound orders p s) fuel
              (pools n oc orders) q ended (pools-Sound n oc now orders) in
          rw (result, cancelled-cancel_all (to_cancel oc now q))
            (to_cancel-IsCleaned n oc now orders q sound.0 λ p i f.
              (balance_inv (IsAccounted p) (λ x h s. cancel_one_side-IsAccounted p x s) fuel
                (pools n oc orders) q ended (pools-IsAccounted n oc now orders p i f)).0)
    ]
