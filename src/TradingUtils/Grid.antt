-- ===== src/TradingUtils/Grid.antt =====
-- The levels of a grid, and the level nearest to a price.
use opensqt_market_maker.Common.{
  ℕ, zero, suc, ◌+◌, ◌≡◌, ◌≢◌, refl, ap, none, some, arith, length, get_elem?, ltb, if◌then◌else◌,
}
use opensqt_market_maker.Common.Int.{ℤ, pos}
use opensqt_market_maker.Num.{Num}
use opensqt_market_maker.Num.Laws.{IsOrdered, IsGroup, IsDividing}
use opensqt_market_maker.Num.Group.{add-sub_left}
use opensqt_market_maker.Num.Order.{is_zero_of_ne}
use opensqt_market_maker.TradingUtils.{levels_from, calculate_price_levels, find_nearest_grid_price}

module _ (n : Num) where
  open n use {D, from_int, add, sub, mul, div, cmp}

  get_elem?-levels_from :
      (start : ℕ) (anchor interval : D) (count i : ℕ)
      → get_elem? (levels_from n start anchor interval count) i ≡ (
          if ltb i count
          then some (add anchor (mul interval (from_int (pos (start + i)))))
          else none)
  unfolding levels_from
  get_elem?-levels_from start anchor interval zero i = ground arith
  get_elem?-levels_from start anchor interval (suc count) zero = ground arith
  get_elem?-levels_from start anchor interval (suc count) (suc i) =
      ground (arith, get_elem?-levels_from (suc start) anchor interval count i)

  -- There are `count` levels, and the one at place i, from 0, is i + 1 intervals from the anchor.
  pub get_elem?-price_levels :
      (anchor interval : D) (count i : ℕ)
      → get_elem? (calculate_price_levels n anchor interval count) i
        ≡ (if ltb i count then some (add anchor (mul interval (from_int (pos (i + 1))))) else none)
  unfolding calculate_price_levels
  get_elem?-price_levels anchor interval count i =
      ground (arith, get_elem?-levels_from 1 anchor interval count i)

  length-levels_from :
      (start : ℕ) (anchor interval : D) (count : ℕ)
      → length (levels_from n start anchor interval count) ≡ count
  unfolding levels_from
  length-levels_from start anchor interval zero = refl
  length-levels_from start anchor interval (suc count) =
      ap suc (length-levels_from (suc start) anchor interval count)

  pub length-price_levels :
      (anchor interval : D) (count : ℕ)
      → length (calculate_price_levels n anchor interval count) ≡ count
  unfolding calculate_price_levels
  length-price_levels anchor interval count = length-levels_from 1 anchor interval count

  -- Whatever the interval but zero, a price that stands on the grid is its own nearest level.
  pub find_nearest_grid_price_on_grid :
      (k : ℤ) (anchor interval : D)
      → IsOrdered n
      → IsGroup n
      → IsDividing n
      → interval ≢ n.zero
      → let level = add anchor (mul (from_int k) interval) in
        find_nearest_grid_price n level anchor interval ≡ level
  unfolding find_nearest_grid_price
  find_nearest_grid_price_on_grid k anchor interval o g d h = rw (
    is_zero_of_ne n o interval h,
    add-sub_left n g anchor (mul (from_int k) interval),
    d.div_mul k interval h,
    d.round_int k,
  )
