-- ===== src/Num.antt =====
-- The numbers of the program: github.com/shopspring/decimal and float64, neither of which is code
-- of the repository. They are the parameter `n : Num` of every definition that calculates, and
-- what a theorem relies on is one of the records of laws below.
pub mod Laws
pub mod Group
pub mod Order
pub mod Fixed
use Prim.Native.Nat.{Ordering}
use opensqt_market_maker.Common.{ℕ, Bool, true, false, not, Option, String}
use opensqt_market_maker.Common.Int.{ℤ}

-- `D` holds the values of decimals: 1.5 and 1.50 are one value, as they are for Cmp and String.
pub record Num : Type 1 where
  pub D : Type 0
  pub zero : D
  pub from_int : ℤ → D
  pub add : D → D → D
  pub sub : D → D → D
  pub mul : D → D → D
  pub div : D → D → D
  pub neg : D → D
  pub abs : D → D
  -- d.Round(places), d.Ceil() and d.IntPart()
  pub round : D → ℤ → D
  pub ceil : D → D
  pub int_part : D → ℤ
  -- d.Pow(e)
  pub pow : D → D → D
  -- d.Cmp(e), as an ordering.
  pub cmp : D → D → Ordering
  -- d.String() and NewFromString, whose error is `none`.
  pub show : D → String
  pub read : String → Option D
  -- float64, its literals m · 10^-e, NewFromFloat, d.InexactFloat64(), and the conversion to int.
  pub F : Type 0
  pub literal : ℕ → ℕ → F
  pub f_add : F → F → F
  pub f_sub : F → F → F
  pub f_mul : F → F → F
  pub f_div : F → F → F
  pub f_lt : F → F → Bool
  pub f_le : F → F → Bool
  pub from_float : F → D
  pub to_float : D → F
  pub f_trunc : F → ℤ

module _ (n : Num) where
  abbrev pub less_than : n.D → n.D → Bool
  less_than a b = elim (n.cmp a b) [ Ordering.lt ↦ true | _ ↦ false ]

  abbrev pub less_eq : n.D → n.D → Bool
  less_eq a b = elim (n.cmp a b) [ Ordering.gt ↦ false | _ ↦ true ]

  abbrev pub greater_than : n.D → n.D → Bool
  greater_than a b = elim (n.cmp a b) [ Ordering.gt ↦ true | _ ↦ false ]

  -- d.Equal(e)
  abbrev pub equal : n.D → n.D → Bool
  equal a b = elim (n.cmp a b) [ Ordering.eq ↦ true | _ ↦ false ]

  abbrev pub is_zero : n.D → Bool
  is_zero a = equal a n.zero

  abbrev pub is_negative : n.D → Bool
  is_negative a = less_than a n.zero

  abbrev pub is_positive : n.D → Bool
  is_positive a = greater_than a n.zero
