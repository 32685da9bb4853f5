-- ===== src/Risk/Cleaner/Count.antt =====
-- How often an identifier occurs in the pools of Cleanup, and what it cancels.
use opensqt_market_maker.Common.{
  ℕ, ◌+◌, ◌≤◌, ◌<◌, ◌≡◌, Bool, true, inl, inr, Option-cases, some, List, [], ◌∷◌, ◌++◌, arith,
  length, length-append, select, refl, ap, if◌then◌else◌,
}
use opensqt_market_maker.Common.Int.{
  ℤ, pos, leb_ℤ, eqb_ℤ, eqb_ℤ_iff, pos_part, ◌-ℤ◌, ◌+ℤ◌, -ℤ_parts, +ℤ_parts,
}
use opensqt_market_maker.Num.{Num}
use opensqt_market_maker.Pb.{Order}
use opensqt_market_maker.Risk.Cleaner.{
  OrderCleaner, Pools, Outcome, batch_cancel, order_ids, is_pooled_buy, is_pooled_sell,
  insert_order, sort_slice, take_buy, take_sell, cancel_one_side, balance, contains_id, unique_from,
  unique_int64, is_stale, price_less, price_greater, pools, to_cancel, cancel_all, finish_pass,
  cleanup,
}
use opensqt_market_maker.Risk.Cleaner.Loop.{balance_inv}

abbrev pub occurrences : ℤ → List ℤ → ℕ
occurrences k [] = 0
occurrences k (j ∷ l) = (if eqb_ℤ j k then 1 else 0) + occurrences k l

-- No identifier occurs twice.
abbrev pub IsDistinct : List ℤ → Type 0
IsDistinct l = (k : ℤ) → occurrences k l ≤ 1

occurrences-append :
    (k : ℤ) (l m : List ℤ) → occurrences k (l ++ m) ≡ occurrences k l + occurrences k m
occurrences-append k [] m = omega arith
occurrences-append k (j ∷ l) m = omega (arith, occurrences-append k l m)

occurrences-insert :
    (k : ℤ) (less : Order → Order → Bool) (o : Order) (os : List Order)
    → occurrences k (order_ids (insert_order less o os)) ≡ occurrences k (order_ids (o ∷ os))
unfolding insert_order
occurrences-insert k less o [] = refl
occurrences-insert k less o (p ∷ ps) = ground (arith, occurrences-insert k less o ps)

occurrences-sort :
    (k : ℤ) (less : Order → Order → Bool) (os : List Order)
    → occurrences k (order_ids (sort_slice less os)) ≡ occurrences k (order_ids os)
unfolding sort_slice
occurrences-sort k less [] = refl
occurrences-sort k less (o ∷ os) =
    omega (arith, occurrences-insert k less o (sort_slice less os), occurrences-sort k less os)

occurrences-split :
    (k : ℤ) (os : List Order)
    → occurrences k (order_ids (select is_pooled_buy os))
        + occurrences k (order_ids (select is_pooled_sell os))
      ≤ occurrences k (order_ids os)
unfolding is_pooled_buy is_pooled_sell
occurrences-split k [] = omega arith
occurrences-split k (o ∷ os) = ground (arith, occurrences-split k os)

occurrences-select :
    (k : ℤ) (t : Order → Bool) (os : List Order)
    → occurrences k (order_ids (select t os)) ≤ occurrences k (order_ids os)
occurrences-select k t [] = omega arith
occurrences-select k t (o ∷ os) = ground (arith, occurrences-select k t os)

occurrences-ids :
    (k : ℤ) (os ps : List Order)
    → occurrences k (order_ids (os ++ ps))
      ≡ occurrences k (order_ids os) + occurrences k (order_ids ps)
occurrences-ids k [] ps = omega arith
occurrences-ids k (o ∷ os) ps = omega (arith, occurrences-ids k os ps)

-- An identifier in the list occurs in it.
occurs : (k : ℤ) (l : List ℤ) → contains_id k l ≡ true → 0 < occurrences k l
unfolding contains_id
occurs k [] h = ground arith
occurs k (j ∷ l) h = ground (arith, occurs k l)

unique_from-id :
    (seen l : List ℤ)
    → ((k : ℤ) → occurrences k seen + occurrences k l ≤ 1)
    → unique_from seen l ≡ l
unfolding unique_from
unique_from-id seen [] h = refl
unique_from-id seen (j ∷ l) h = ground (
  arith,
  h j,
  occurs j seen,
  eqb_ℤ_iff j j,
  unique_from-id (j ∷ seen) l (λ k. omega (arith, h k)),
)

-- What a round of the loop keeps: how often an identifier occurs, and how many there are to cancel.
abbrev total : ℤ → Pools → ℕ
total k p =
    occurrences k p.orders_to_cancel
    + occurrences k (order_ids p.buy_orders)
    + occurrences k (order_ids p.sell_orders)

record Kept (p q : Pools) : Type 0 where
  occurs_same : (k : ℤ) → total k q ≡ total k p
  grows : length q.orders_to_cancel + q.excess ≡ length p.orders_to_cancel + p.excess

Kept-trans : {p q r : Pools} → Kept p q → Kept q r → Kept p r
Kept-trans a b = record {
  occurs_same = λ k. omega (arith, a.occurs_same k, b.occurs_same k);
  grows = omega (arith, a.grows, b.grows);
}

take_buy-Kept :
    (os : List Order) (p : Pools) → p.buy_orders ≡ os → 0 < p.excess → Kept p (take_buy os p)
unfolding take_buy
take_buy-Kept [] p e h = record { occurs_same = λ k. refl; grows = refl }
take_buy-Kept (o ∷ os) p e h = record {
  occurs_same =
      λ k. rw e (omega (arith, occurrences-append k p.orders_to_cancel (o.order_id ∷ [])));
  grows = omega (arith, length-append p.orders_to_cancel (o.order_id ∷ []));
}

take_sell-Kept :
    (os : List Order) (p : Pools) → p.sell_orders ≡ os → 0 < p.excess → Kept p (take_sell os p)
unfolding take_sell
take_sell-Kept [] p e h = record { occurs_same = λ k. refl; grows = refl }
take_sell-Kept (o ∷ os) p e h = record {
  occurs_same =
      λ k. rw e (omega (arith, occurrences-append k p.orders_to_cancel (o.order_id ∷ [])));
  grows = omega (arith, length-append p.orders_to_cancel (o.order_id ∷ []));
}

-- Taking one buy leaves an excess of at least one, if there were two.
take_buy-excess : (os : List Order) (p : Pools) → 2 ≤ p.excess → 0 < (take_buy os p).excess
unfolding take_buy
take_buy-excess [] p h = omega arith
take_buy-excess (o ∷ os) p h = omega arith

cancel_one_side-Kept : (p : Pools) → 0 < p.excess → Kept p (cancel_one_side p)
unfolding cancel_one_side
cancel_one_side-Kept p h =
    let after_buy = take_buy p.buy_orders p in
    let bought = take_buy-Kept p.buy_orders p refl h in
    let sold = take_sell-Kept p.sell_orders p refl h in
    let both : 2 ≤ p.excess → Kept p (take_sell after_buy.sell_orders after_buy) = λ two.
      Kept-trans bought (
        take_sell-Kept after_buy.sell_orders after_buy refl (take_buy-excess p.buy_orders p two)) in
    ground (arith, bought, sold, both)

module _ (n : Num) (oc : OrderCleaner) (now : ℤ) (orders : List Order) where
  balance-Kept :
      (fuel : ℕ) (q : Pools)
      → balance fuel (pools n oc orders) ≡ some q
      → Kept (pools n oc orders) q × (q.excess ≡ 0)
  balance-Kept fuel q e =
      balance_inv (Kept (pools n oc orders)) (λ p h k. Kept-trans k (cancel_one_side-Kept p h)) fuel
        (pools n oc orders) q e (record { occurs_same = λ k. refl; grows = refl })

  total-pools : (k : ℤ) → total k (pools n oc orders) ≤ occurrences k (order_ids orders)
  unfolding pools
  total-pools k = omega (
    arith,
    occurrences-split k orders,
    occurrences-sort k (price_less n) (select is_pooled_buy orders),
    occurrences-sort k (price_greater n) (select is_pooled_sell orders),
  )

abbrev pub cancelled : Outcome → List ℤ
cancelled (batch_cancel ids) = ids
cancelled _ = []

pub cancelled-cancel_all : (ids : List ℤ) → cancelled (cancel_all ids) ≡ ids
unfolding cancel_all
cancelled-cancel_all [] = refl
cancelled-cancel_all (id ∷ ids) = refl

-- In a pass over orders with distinct numbers, all that is to cancel is kept by uniqueInt64.
to_cancel_all :
    (n : Num) (oc : OrderCleaner) (now : ℤ) (orders : List Order)
    → IsDistinct (order_ids orders)
    → (fuel : ℕ) (q : Pools) → balance fuel (pools n oc orders) ≡ some q
    → to_cancel oc now q
      ≡ q.orders_to_cancel ++ order_ids (select (is_stale oc now) (q.buy_orders ++ q.sell_orders))
unfolding to_cancel unique_int64
to_cancel_all n oc now orders d fuel q e =
    let (kept, _) = balance-Kept n oc now orders fuel q e in
    let remaining = q.buy_orders ++ q.sell_orders in
    let stale = order_ids (select (is_stale oc now) remaining) in
    unique_from-id [] (q.orders_to_cancel ++ stale) λ k. omega (
      arith,
      d k,
      kept.occurs_same k,
      total-pools n oc now orders k,
      occurrences-append k q.orders_to_cancel stale,
      occurrences-select k (is_stale oc now) remaining,
      occurrences-ids k q.buy_orders q.sell_orders,
    )

length-to_cancel :
    (n : Num) (oc : OrderCleaner) (now : ℤ) (orders : List Order)
    → IsDistinct (order_ids orders)
    → (fuel : ℕ) (q : Pools) → balance fuel (pools n oc orders) ≡ some q
    → pos_part (pos (length orders) -ℤ oc.max_open_orders) ≤ length (to_cancel oc now q)
unfolding pools
length-to_cancel n oc now orders d fuel q e =
    let (kept, done) = balance-Kept n oc now orders fuel q e in
    let stale = order_ids (select (is_stale oc now) (q.buy_orders ++ q.sell_orders)) in
    rw (to_cancel_all n oc now orders d fuel q e)
      (omega (arith, kept.grows, done, length-append q.orders_to_cancel stale))

-- A pass that returns brings the orders down to the limit: if their numbers are distinct, it
-- cancels so many that no more than the limit are left, counted without those.
pub cleanup_restores_limit :
    (n : Num) (oc : OrderCleaner) (now : ℤ) (o : Order) (os : List Order)
    → IsDistinct (order_ids (o ∷ os))
    → (fuel : ℕ) (r : Outcome) → cleanup n fuel oc now (some (o ∷ os)) ≡ some r
    → leb_ℤ (pos (length (o ∷ os))) (pos (length (cancelled r)) +ℤ oc.max_open_orders) ≡ true
unfolding cleanup finish_pass
cleanup_restores_limit n oc now o os d fuel r e =
    elim (Option-cases (balance fuel (pools n oc (o ∷ os)))) [
      | inl running ↦ ground (arith, running)
      | inr (q, ended) ↦
          let ids = to_cancel oc now q in
          let result : r ≡ cancel_all ids = ground (arith, ended) in
          let size : length (cancelled r) ≡ length ids =
            rw result (ap length (cancelled-cancel_all ids)) in
          ground (
            arith,
            size,
            length-to_cancel n oc now (o ∷ os) d fuel q ended,
            -ℤ_parts (pos (length (o ∷ os))) oc.max_open_orders,
            +ℤ_parts (pos (length (cancelled r))) oc.max_open_orders,
          )
    ]
