-- ===== src/Num/Fixed/Proofs.antt =====
-- The tenths obey the laws.
use opensqt_market_maker.Common.{ℕ, zero, suc, ◌+◌, ◌*◌, ◌/◌, ◌<◌, ◌≡◌, ◌≢◌, refl, ap, some, arith}
use opensqt_market_maker.Common.Int.{ℤ, pos, negsuc, ◌+ℤ◌, ◌-ℤ◌, ◌*ℤ◌}
use native.Mathlib.Nat.{mul-div_cancel}
use opensqt_market_maker.Num.Laws.{IsOrdered, IsGroup, IsOrderedGroup, HasText, IsDividing}
use opensqt_market_maker.Num.Fixed.Defs.{
  fixed, marks, count_marks, show_ℤ, read_ℤ, negate, neg_ℕ, divide, round_tenths, on_magnitude,
}

pub fixed-IsOrdered : IsOrdered fixed
fixed-IsOrdered = record {
  cmp_self = λ a. ground arith;
  cmp_eq = λ a b e. ground arith;
  cmp_gt = λ a b e. ground arith;
  cmp_lt = λ a b e. ground arith;
  cmp_trans = λ a b c e f. ground arith;
}

pub fixed-IsGroup : IsGroup fixed
unfolding ◌+ℤ◌ ◌-ℤ◌
fixed-IsGroup = record {
  add_comm = λ a b. ground arith;
  add_assoc = λ a b c. ground arith;
  add_zero = λ a. ground arith;
  add_neg = λ a. ground arith;
  sub_neg = λ a b. ground arith;
}

pub fixed-IsOrderedGroup : IsOrderedGroup fixed
unfolding ◌+ℤ◌
fixed-IsOrderedGroup = record {
  cmp_add = λ a b c. ground arith;
  cmp_neg = λ a b. ground arith;
  neg_zero = refl;
  abs_neg = λ a h. ground arith;
  abs_pos = λ a h. ground arith;
}

count-marks : (k : ℕ) → count_marks (marks k) ≡ k
unfolding marks count_marks
count-marks zero = refl
count-marks (suc k) = ap suc (count-marks k)

read-show : (a : ℤ) → read_ℤ (show_ℤ a) ≡ some a
unfolding read_ℤ show_ℤ
read-show (pos a) = ap (λ k. some (pos k)) (count-marks a)
read-show (negsuc a) = ap (λ k. some (negsuc k)) (count-marks a)

pub fixed-HasText : HasText fixed
fixed-HasText = record { read-show = read-show }

times : (x y : ℕ) → pos x *ℤ pos y ≡ pos (x * y)
unfolding ◌*ℤ◌
times x y = ground arith

times_neg : (x y : ℕ) → pos x *ℤ negsuc y ≡ neg_ℕ (x * suc y)
unfolding ◌*ℤ◌
times_neg x y = ground arith

neg_times : (x y : ℕ) → neg_ℕ x *ℤ pos y ≡ neg_ℕ (x * y)
unfolding ◌*ℤ◌
neg_times zero y = ground arith
neg_times (suc x) y = ground arith

neg_times_neg : (x y : ℕ) → neg_ℕ x *ℤ negsuc y ≡ pos (x * suc y)
unfolding ◌*ℤ◌
neg_times_neg zero y = ground arith
neg_times_neg (suc x) y = ground arith

on_neg : (f : ℕ → ℕ) (m : ℕ) → f 0 ≡ 0 → on_magnitude f (neg_ℕ m) ≡ neg_ℕ (f m)
on_neg f zero e = rw e
on_neg f (suc m) e = refl

negate-neg_ℕ : (m : ℕ) → negate (neg_ℕ m) ≡ pos m
negate-neg_ℕ zero = refl
negate-neg_ℕ (suc m) = refl

quotient : (k a : ℕ) → 0 < a → k * 10 * a / 10 * 10 / a ≡ k * 10
quotient k a h =
    let e : k * 10 * a / 10 * 10 ≡ k * 10 * a = omega arith in rw e (mul-div_cancel (k * 10) h)

div_mul : (k a : ℤ) → a ≢ pos 0 → divide (fixed.mul (fixed.from_int k) a) a ≡ fixed.from_int k
unfolding divide
div_mul (pos k) (pos a) h = rw times (ap pos (quotient k a (ground arith)))
div_mul (pos k) (negsuc a) h =
    rw
      (
        times_neg,
        on_neg (λ m. m / 10) _ refl,
        on_neg (λ m. m * 10 / suc a) _ (omega arith),
        negate-neg_ℕ,
      )
      (ap pos (quotient k (suc a) (omega arith)))
div_mul (negsuc k) (pos a) h =
    rw (neg_times, on_neg (λ m. m / 10) _ refl, on_neg (λ m. m * 10 / a) _ (omega arith))
      (ap neg_ℕ (quotient (suc k) a (ground arith)))
div_mul (negsuc k) (negsuc a) h =
    rw neg_times_neg (ap (λ t. negate (pos t)) (quotient (suc k) (suc a) (omega arith)))

round_int : (k : ℤ) → round_tenths (fixed.from_int k) (pos 0) ≡ fixed.from_int k
unfolding round_tenths
round_int (pos k) = ap pos (omega arith)
round_int (negsuc k) = rw (on_neg (λ m. (2 * m + 10) / 20 * 10) _ refl) (ap neg_ℕ (omega arith))

pub fixed-IsDividing : IsDividing fixed
fixed-IsDividing = record { div_mul = div_mul; round_int = round_int }
