-- ===== src/Risk/Cleaner/Rounds.antt =====
-- Which orders the pools of Cleanup hold, and where an order is while the loop runs.
use opensqt_market_maker.Common.{
  ◌≡◌, ◌⊎◌, Bool, true, false, ◌||◌, inl, inr, List, [], ◌∷◌, ◌++◌, arith, select, All, All-append,
  In, refl, subst,
}
use opensqt_market_maker.Common.Int.{ℤ, eqb_ℤ_iff}
use opensqt_market_maker.Pb.{Order}
use opensqt_market_maker.Risk.Cleaner.{
  Pools, insert_order, sort_slice, take_buy, take_sell, cancel_one_side, contains_id,
}
use opensqt_market_maker.Risk.Cleaner.Pass.{is_partial}

-- What every order has that the test selects.
pub All-select {κ μ} :
    (P : Order → Type κ) (Q : Order → Type μ) (t : Order → Bool)
    → ((o : Order) → P o → t o ≡ true → Q o)
    → (os : List Order) → All P os
    → All Q (select t os)
All-select P Q t f [] h = tt
All-select P Q t f (o ∷ os) h = ground (arith, f o h.0, All-select P Q t f os h.1)

All-insert {κ} :
    (P : Order → Type κ) (less : Order → Order → Bool) (o : Order) (os : List Order)
    → P o
    → All P os
    → All P (insert_order less o os)
unfolding insert_order
All-insert P less o [] h k = (h, tt)
All-insert P less o (p ∷ ps) h k = ground (arith, All-insert P less o ps h k.1)

pub All-sort {κ} :
    (P : Order → Type κ) (less : Order → Order → Bool) (os : List Order)
    → All P os
    → All P (sort_slice less os)
unfolding sort_slice
All-sort P less [] h = tt
All-sort P less (o ∷ os) h = All-insert P less o (sort_slice less os) h.0 (All-sort P less os h.1)

In-insert :
    (less : Order → Order → Bool) (q o : Order) (os : List Order)
    → (q ≡ o) ⊎ In q os
    → In q (insert_order less o os)
unfolding insert_order
In-insert less q o [] h = h
In-insert less q o (p ∷ ps) (inl e) = ground (arith, In-insert less q o ps (inl e))
In-insert less q o (p ∷ ps) (inr (inl e)) = ground arith
In-insert less q o (p ∷ ps) (inr (inr h)) = ground (arith, In-insert less q o ps (inr h))

pub In-sort :
    (less : Order → Order → Bool) (q : Order) (os : List Order)
    → In q os
    → In q (sort_slice less os)
unfolding sort_slice
In-sort less q [] h = absurd h
In-sort less q (o ∷ os) (inl e) = In-insert less q o (sort_slice less os) (inl e)
In-sort less q (o ∷ os) (inr h) =
    In-insert less q o (sort_slice less os) (inr (In-sort less q os h))

-- An order that a pass may cancel.
abbrev pub IsPooled : List Order → Order → Type 0
IsPooled orders o = In o orders × (is_partial o ≡ false)

-- A number of such an order.
abbrev pub IsSource : List Order → ℤ → Type 0
IsSource orders id = (o : Order) × In o orders × (is_partial o ≡ false) × (id ≡ o.order_id)

pub record Sound (orders : List Order) (p : Pools) : Type 0 where
  pub buys : All (IsPooled orders) p.buy_orders
  pub sells : All (IsPooled orders) p.sell_orders
  pub chosen : All (IsSource orders) p.orders_to_cancel

module _ (orders : List Order) where
  take_buy-Sound :
      (os : List Order) (p : Pools)
      → p.buy_orders ≡ os
      → Sound orders p
      → Sound orders (take_buy os p)
  unfolding take_buy
  take_buy-Sound [] p e h = h
  take_buy-Sound (o ∷ os) p e h =
      let all : All (IsPooled orders) (o ∷ os) = subst (All (IsPooled orders)) e h.buys in
      record {
        buys = all.1;
        sells = h.sells;
        chosen =
            All-append (IsSource orders) p.orders_to_cancel (o.order_id ∷ []) h.chosen
              ((o, all.0.0, all.0.1, refl), tt);
      }

  take_sell-Sound :
      (os : List Order) (p : Pools)
      → p.sell_orders ≡ os
      → Sound orders p
      → Sound orders (take_sell os p)
  unfolding take_sell
  take_sell-Sound [] p e h = h
  take_sell-Sound (o ∷ os) p e h =
      let all : All (IsPooled orders) (o ∷ os) = subst (All (IsPooled orders)) e h.sells in
      record {
        buys = h.buys;
        sells = all.1;
        chosen =
            All-append (IsSource orders) p.orders_to_cancel (o.order_id ∷ []) h.chosen
              ((o, all.0.0, all.0.1, refl), tt);
      }

  pub cancel_one_side-Sound : (p : Pools) → Sound orders p → Sound orders (cancel_one_side p)
  unfolding cancel_one_side
  cancel_one_side-Sound p h =
      let after_buy = take_buy p.buy_orders p in
      let bought = take_buy-Sound p.buy_orders p refl h in
      let sold = take_sell-Sound p.sell_orders p refl h in
      let both = take_sell-Sound after_buy.sell_orders after_buy refl bought in
      ground (arith, bought, sold, both)

pub contains-append :
    (k : ℤ) (l m : List ℤ) → contains_id k (l ++ m) ≡ (contains_id k l || contains_id k m)
unfolding contains_id
contains-append k [] m = refl
contains-append k (j ∷ l) m = ground (arith, contains-append k l m)

-- Where an order is while the loop runs: chosen, or in a pool.
abbrev pub IsAccounted : Order → Pools → Type 0
IsAccounted o p =
    (contains_id o.order_id p.orders_to_cancel ≡ true) ⊎ In o p.buy_orders ⊎ In o p.sell_orders

module _ (o : Order) where
  chosen_now :
      (b : Order) (l : List ℤ) → o ≡ b → contains_id o.order_id (l ++ b.order_id ∷ []) ≡ true
  unfolding contains_id
  chosen_now b l e = rw (← e) (
      ground
        (arith, contains-append o.order_id l (o.order_id ∷ []), eqb_ℤ_iff o.order_id o.order_id))

  still_chosen :
      (b : Order) (l : List ℤ)
      → contains_id o.order_id l ≡ true
      → contains_id o.order_id (l ++ b.order_id ∷ []) ≡ true
  still_chosen b l e = ground (arith, contains-append o.order_id l (b.order_id ∷ []))

  take_buy-IsAccounted :
      (os : List Order) (p : Pools)
      → p.buy_orders ≡ os
      → IsAccounted o p
      → IsAccounted o (take_buy os p)
  unfolding take_buy
  take_buy-IsAccounted [] p e h = h
  take_buy-IsAccounted (b ∷ os) p e (inl h) = inl (still_chosen b p.orders_to_cancel h)
  take_buy-IsAccounted (b ∷ os) p e (inr (inr h)) = inr (inr h)
  take_buy-IsAccounted (b ∷ os) p e (inr (inl h)) =
      let h' : In o (b ∷ os) = subst (In o) e h in
      elim h' [
        | inl same ↦ inl (chosen_now b p.orders_to_cancel same)
        | inr in_rest ↦ inr (inl in_rest)
      ]

  take_sell-IsAccounted :
      (os : List Order) (p : Pools)
      → p.sell_orders ≡ os
      → IsAccounted o p
      → IsAccounted o (take_sell os p)
  unfolding take_sell
  take_sell-IsAccounted [] p e h = h
  take_sell-IsAccounted (b ∷ os) p e (inl h) = inl (still_chosen b p.orders_to_cancel h)
  take_sell-IsAccounted (b ∷ os) p e (inr (inl h)) = inr (inl h)
  take_sell-IsAccounted (b ∷ os) p e (inr (inr h)) =
      let h' : In o (b ∷ os) = subst (In o) e h in
      elim h' [
        | inl same ↦ inl (chosen_now b p.orders_to_cancel same)
        | inr in_rest ↦ inr (inr in_rest)
      ]

  pub cancel_one_side-IsAccounted :
      (p : Pools) → IsAccounted o p → IsAccounted o (cancel_one_side p)
  unfolding cancel_one_side
  cancel_one_side-IsAccounted p h =
      let after_buy = take_buy p.buy_orders p in
      let bought = take_buy-IsAccounted p.buy_orders p refl h in
      let sold = take_sell-IsAccounted p.sell_orders p refl h in
      let both = take_sell-IsAccounted after_buy.sell_orders after_buy refl bought in
      ground (arith, bought, sold, both)
