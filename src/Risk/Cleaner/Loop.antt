-- ===== src/Risk/Cleaner/Loop.antt =====
-- The loop of Cleanup over the excess: when it ends, and what each round keeps.
use opensqt_market_maker.Common.{
  ℕ, zero, suc, ◌+◌, ◌≤◌, ◌<◌, ◌≡◌, Bool-cases, inl, inr, none, some, List, [], ◌∷◌, arith, ◌==◌,
  length, refl,
}
use opensqt_market_maker.Common.Int.{ℤ}
use opensqt_market_maker.Pb.{Order}
use opensqt_market_maker.Risk.Cleaner.{Pools, cancel_one_side, take_buy, take_sell, balance}

abbrev pub pool_size : Pools → ℕ
pool_size p = length p.buy_orders + length p.sell_orders

abbrev pools_of : ℕ → List Order → List Order → List ℤ → Pools
pools_of e bs ss l = record { excess = e; buy_orders = bs; sell_orders = ss; orders_to_cancel = l }

-- What a round does to the sizes: it takes orders from the pools, as many as it takes off the
-- excess, and at least one if there is one.
pub record Round (p q : Pools) : Type 0 where
  pub kept : pool_size q + p.excess ≡ pool_size p + q.excess
  pub bounded : q.excess ≤ p.excess
  pub progress : 0 < pool_size p → q.excess < p.excess

cancel_at :
    (e : ℕ) (bs ss : List Order) (l : List ℤ)
    → 0 < e
    → Round (pools_of e bs ss l) (cancel_one_side (pools_of e bs ss l))
unfolding cancel_one_side take_buy take_sell
cancel_at e [] [] l h = record {
  kept = ground arith;
  bounded = ground arith;
  progress = λ i. ground arith;
}
cancel_at e [] (c ∷ cs) l h = record {
  kept = ground arith;
  bounded = ground arith;
  progress = λ i. ground arith;
}
cancel_at e (b ∷ bs) [] l h = record {
  kept = ground arith;
  bounded = ground arith;
  progress = λ i. ground arith;
}
cancel_at e (b ∷ bs) (c ∷ cs) l h = record {
  kept = ground arith;
  bounded = ground arith;
  progress = λ i. ground arith;
}

pub cancel_one_side-Round : (p : Pools) → 0 < p.excess → Round p (cancel_one_side p)
cancel_one_side-Round p = cancel_at p.excess p.buy_orders p.sell_orders p.orders_to_cancel

-- With orders enough, the loop ends within its excess.
pub balance_ends :
    (k : ℕ) (p : Pools)
    → p.excess < k
    → p.excess ≤ pool_size p
    → (q : Pools) × (balance k p ≡ some q)
unfolding balance
balance_ends zero p f h = absurd (omega arith)
balance_ends (suc k) p f h = elim (Bool-cases (p.excess == 0)) [
  | inl done ↦ (p, rw done refl)
  | inr more ↦
      let r = cancel_one_side-Round p (ground arith) in
      rw more (
        balance_ends k (cancel_one_side p) (omega (arith, r.progress (ground arith)))
          (omega (arith, r.kept, r.bounded)))
]

-- With too few, it goes on for ever.
pub balance_runs_on : (k : ℕ) (p : Pools) → pool_size p < p.excess → balance k p ≡ none
unfolding balance
balance_runs_on zero p h = refl
balance_runs_on (suc k) p h =
    let r = cancel_one_side-Round p (omega arith) in
    let rest = balance_runs_on k (cancel_one_side p) (omega (arith, r.kept, r.bounded)) in
    ground (arith, rest)

-- What holds before the loop and is kept by a round holds after it, with no excess left.
pub balance_inv {κ} :
    (P : Pools → Type κ)
    → ((p : Pools) → 0 < p.excess → P p → P (cancel_one_side p))
    → (k : ℕ) (p q : Pools) → balance k p ≡ some q
    → P p
    → P q × (q.excess ≡ 0)
unfolding balance
balance_inv P keep zero p q e h = ground arith
balance_inv P keep (suc k) p q e h = elim (Bool-cases (p.excess == 0)) [
  | inl done ↦ let same : p ≡ q = ground arith in rw (← same) (h, ground arith)
  | inr more ↦ balance_inv P keep k (cancel_one_side p) q (ground arith) (keep p (ground arith) h)
]
