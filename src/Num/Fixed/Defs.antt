-- ===== src/Num/Fixed/Defs.antt =====
-- Integers that count tenths.
use Prim.Native.Nat.{Ordering, compare}
use Prim.Native.Char.{code}
use Prim.Native.String.{String}
use opensqt_market_maker.Common.{
  ℕ, zero, suc, ◌+◌, ◌*◌, ◌/◌, ◌^◌, Option, none, some, if◌then◌else◌, ◌==◌,
}
use opensqt_market_maker.Common.Int.{
  ℤ, pos, negsuc, pos_part, neg_part, ◌+ℤ◌, ◌-ℤ◌, ◌*ℤ◌, leb_ℤ, ltb_ℤ,
}
use opensqt_market_maker.Num.{Num}

abbrev pub neg_ℕ : ℕ → ℤ
neg_ℕ zero = pos 0
neg_ℕ (suc k) = negsuc k

abbrev pub negate : ℤ → ℤ
negate (pos a) = neg_ℕ a
negate (negsuc a) = pos (suc a)

abbrev pub magnitude : ℤ → ℕ
magnitude (pos a) = a
magnitude (negsuc a) = suc a

-- Keeps the sign, and changes the magnitude.
abbrev pub on_magnitude : (ℕ → ℕ) → ℤ → ℤ
on_magnitude f (pos a) = pos (f a)
on_magnitude f (negsuc a) = neg_ℕ (f (suc a))

abbrev pub compare_ℤ : ℤ → ℤ → Ordering
compare_ℤ a b = compare (pos_part a + neg_part b) (pos_part b + neg_part a)

-- How many tenths the last place holds.
unfoldable pub unit : ℤ → ℕ
unit (pos zero) = 10
unit (pos (suc k)) = 1
unit (negsuc k) = 10 ^ (k + 2)

unfoldable pub round_tenths : ℤ → ℤ → ℤ
unfolding unit
round_tenths a places =
    on_magnitude (λ m. (2 * m + unit places) / (2 * unit places) * unit places) a

unfoldable pub ceil_tenths : ℤ → ℤ
ceil_tenths (pos a) = pos ((a + 9) / 10 * 10)
ceil_tenths (negsuc a) = neg_ℕ (suc a / 10 * 10)

unfoldable pub divide : ℤ → ℤ → ℤ
divide a (pos b) = on_magnitude (λ m. m * 10 / b) a
divide a (negsuc b) = negate (on_magnitude (λ m. m * 10 / suc b) a)

unfoldable pub power : ℤ → ℕ → ℤ
power a zero = pos 10
power a (suc k) = on_magnitude (λ m. m / 10) (a *ℤ power a k)

unfoldable pub marks : ℕ → String
marks zero = String.[]
marks (suc k) = String.◌∷◌ "1" (marks k)

unfoldable pub count_marks : String → ℕ
count_marks String.[] = 0
count_marks (String.◌∷◌ c s) = suc (count_marks s)

unfoldable pub show_ℤ : ℤ → String
unfolding marks
show_ℤ (pos a) = String.◌∷◌ "+" (marks a)
show_ℤ (negsuc a) = String.◌∷◌ "-" (marks a)

unfoldable pub read_ℤ : String → Option ℤ
unfolding count_marks
read_ℤ String.[] = none
read_ℤ (String.◌∷◌ c s) =
    if code c == b'+' then some (pos (count_marks s)) else some (negsuc (count_marks s))

-- float64 in tenths as well.
abbrev pub fixed : Num
fixed = record {
  D = ℤ;
  zero = pos 0;
  from_int = on_magnitude (λ m. m * 10);
  add = ◌+ℤ◌;
  sub = ◌-ℤ◌;
  mul = λ a b. on_magnitude (λ m. m / 10) (a *ℤ b);
  div = divide;
  neg = negate;
  abs = λ a. pos (magnitude a);
  round = round_tenths;
  ceil = ceil_tenths;
  int_part = on_magnitude (λ m. m / 10);
  pow = λ a e. power a (magnitude e / 10);
  cmp = compare_ℤ;
  show = show_ℤ;
  read = read_ℤ;
  F = ℤ;
  literal = λ m e. pos (m * 10 / 10 ^ e);
  f_add = ◌+ℤ◌;
  f_sub = ◌-ℤ◌;
  f_mul = λ a b. on_magnitude (λ m. m / 10) (a *ℤ b);
  f_div = divide;
  f_lt = ltb_ℤ;
  f_le = leb_ℤ;
  from_float = λ f. f;
  to_float = λ d. d;
  f_trunc = on_magnitude (λ m. m / 10);
}
