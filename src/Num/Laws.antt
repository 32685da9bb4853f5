-- ===== src/Num/Laws.antt =====
-- What the theorems rely on of the decimal library: its documented arithmetic, in parts.
use Prim.Native.Nat.{Ordering}
use opensqt_market_maker.Common.{◌≡◌, ◌≢◌, some}
use opensqt_market_maker.Common.Int.{ℤ, pos}
use opensqt_market_maker.Num.{Num}

module _ (n : Num) where
  open n use {D, zero, from_int, add, sub, mul, div, neg, abs, round, cmp, show, read}

  -- Cmp is a total order on values.
  pub record IsOrdered : Type 0 where
    pub cmp_self : (a : D) → cmp a a ≡ Ordering.eq
    pub cmp_eq : (a b : D) → cmp a b ≡ Ordering.eq → a ≡ b
    pub cmp_gt : (a b : D) → cmp a b ≡ Ordering.lt → cmp b a ≡ Ordering.gt
    pub cmp_lt : (a b : D) → cmp a b ≡ Ordering.gt → cmp b a ≡ Ordering.lt
    pub cmp_trans :
        (a b c : D) → cmp a b ≡ Ordering.lt → cmp b c ≡ Ordering.lt → cmp a c ≡ Ordering.lt

  -- Add, Sub and Neg are exact.
  pub record IsGroup : Type 0 where
    pub add_comm : (a b : D) → add a b ≡ add b a
    pub add_assoc : (a b c : D) → add (add a b) c ≡ add a (add b c)
    pub add_zero : (a : D) → add a zero ≡ a
    pub add_neg : (a : D) → add a (neg a) ≡ zero
    pub sub_neg : (a b : D) → sub a b ≡ add a (neg b)

  -- The order is that of an ordered group.
  pub record IsOrderedGroup : Type 0 where
    pub cmp_add : (a b c : D) → cmp (add a c) (add b c) ≡ cmp a b
    pub cmp_neg : (a b : D) → cmp (neg a) (neg b) ≡ cmp b a
    pub neg_zero : neg zero ≡ zero
    pub abs_neg : (a : D) → cmp a zero ≡ Ordering.lt → abs a ≡ neg a
    pub abs_pos : (a : D) → cmp a zero ≡ Ordering.gt → abs a ≡ a

  -- NewFromString reads what String prints.
  pub record HasText : Type 0 where
    pub read-show : (a : D) → read (show a) ≡ some a

  -- A quotient that can be written down is exact, and Round(0) keeps an integer.
  pub record IsDividing : Type 0 where
    pub div_mul : (k : ℤ) (a : D) → (a ≢ zero) → div (mul (from_int k) a) a ≡ from_int k
    pub round_int : (k : ℤ) → round (from_int k) (pos 0) ≡ from_int k
