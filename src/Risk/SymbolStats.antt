-- ===== src/Risk/SymbolStats.antt =====
-- market_maker/internal/risk/monitor.go: the statistics of a symbol, with checkAnomaly and
-- calculateATR.
use mathlib.Core.List.{reverse}
use opensqt_market_maker.Common.{
  ℕ, zero, suc, ◌+◌, ◌-◌, Bool, false, ◌&&◌, Option, none, some, List, [], ◌∷◌, if◌then◌else◌, ltb,
  ◌==◌, length, drop,
}
use opensqt_market_maker.Common.Int.{ℤ, pos}
use opensqt_market_maker.Common.Assoc.{string_eq}
use opensqt_market_maker.Num.{Num, greater_than}
use opensqt_market_maker.Pb.{Candle}
use opensqt_market_maker.Pb.Convert.{to_go_decimal}

pub record SymbolStats (D F : Type 0) : Type 0 where
  pub candles : List Candle
  pub average_volume : F
  pub average_price : F
  pub last_price : D
  pub is_triggered : Bool
  pub last_update : ℤ
  pub atr : D

-- A candle that is not closed is replaced by the next one.
unfoldable pub push_candle : Candle → List Candle → List Candle
push_candle c [] = c ∷ []
push_candle c (x ∷ []) = if x.is_closed then x ∷ c ∷ [] else c ∷ []
push_candle c (x ∷ y ∷ l) = x ∷ push_candle c (y ∷ l)

-- Only a closed candle shortens the list to its window.
unfoldable pub update_candles : ℕ → Candle → List Candle → List Candle
unfolding push_candle
update_candles window c l =
    let l' = push_candle c l in
    if c.is_closed && ltb (window + 1) (length l') then drop (length l' - (window + 1)) l' else l'

-- The sums that checkAnomaly makes over closed candles.
pub record Sums (F : Type 0) : Type 0 where
  pub sum_vol : F
  pub sum_price : F
  pub count : ℕ

module _ (n : Num) where
  open n use {D, F, from_int, add, sub, div, abs, literal, to_float, f_add, f_mul, f_div, f_lt}

  unfoldable pub empty_stats : ℤ → SymbolStats D F
  empty_stats zero_time = record {
    candles = [];
    average_volume = literal 0 0;
    average_price = literal 0 0;
    last_price = n.zero;
    is_triggered = false;
    last_update = zero_time;
    atr = n.zero;
  }

  -- One round of checkAnomaly's loop adds a closed candle.
  unfoldable pub add_candle : Candle → Sums F → Sums F
  add_candle c sums = record {
    sum_vol = f_add sums.sum_vol (to_float (to_go_decimal n c.volume));
    sum_price = f_add sums.sum_price (to_float (to_go_decimal n c.close));
    count = suc sums.count;
  }

  -- The loop, over the candles from the last but one backwards, with the number that it still takes.
  unfoldable pub sum_closed : ℕ → List Candle → Sums F → Sums F
  unfolding add_candle
  sum_closed zero l sums = sums
  sum_closed (suc k) [] sums = sums
  sum_closed (suc k) (c ∷ l) sums =
      let taken = sum_closed k l (add_candle c sums) in
      let skipped = sum_closed (suc k) l sums in if c.is_closed then taken else skipped

  -- float64(count)
  abbrev pub float_of : ℕ → F
  float_of k = to_float (from_int (pos k))

  unfoldable pub no_sums : Sums F
  no_sums = record { sum_vol = literal 0 0; sum_price = literal 0 0; count = 0 }

  -- The averages, and whether the current candle has a volume spike with a price drop.
  unfoldable pub judge : F → Candle → Sums F → SymbolStats D F → SymbolStats D F
  judge multiplier current sums s =
      let price = to_float (to_go_decimal n current.close) in
      let volume = to_float (to_go_decimal n current.volume) in
      let avg_vol = f_div sums.sum_vol (float_of sums.count) in
      let avg_price = f_div sums.sum_price (float_of sums.count) in
      record s {
        average_volume = avg_vol;
        average_price = avg_price;
        is_triggered = f_lt (f_mul avg_vol multiplier) volume && f_lt price avg_price;
      }

  -- checkAnomaly, on the candles from the last one backwards; `none` where it returns early.
  unfoldable pub check_candles : F → ℕ → List Candle → SymbolStats D F → Option (SymbolStats D F)
  unfolding sum_closed no_sums judge
  check_candles multiplier window [] s = none
  check_candles multiplier window (current ∷ older) s =
      let sums = sum_closed window older no_sums in
      if ltb sums.count window then none else some (judge multiplier current sums s)

  unfoldable pub check_anomaly : F → ℕ → SymbolStats D F → Option (SymbolStats D F)
  unfolding check_candles
  check_anomaly multiplier window s =
      if ltb (length s.candles) (window + 1)
      then none
      else check_candles multiplier window (reverse s.candles) s

  -- The true range of a candle after the previous one.
  unfoldable pub true_range : Candle → Candle → D
  true_range current prev =
      let high = to_go_decimal n current.high in
      let low = to_go_decimal n current.low in
      let prev_close = to_go_decimal n prev.close in
      let tr1 = sub high low in
      let tr2 = abs (sub high prev_close) in
      let tr3 = abs (sub low prev_close) in
      let tr = if greater_than n tr2 tr1 then tr2 else tr1 in
      if greater_than n tr3 tr then tr3 else tr

  -- The loop of calculateATR, over the candles from the last one backwards.
  unfoldable pub sum_ranges : ℕ → List Candle → D × ℕ → D × ℕ
  unfolding true_range
  sum_ranges zero l acc = acc
  sum_ranges (suc k) [] acc = acc
  sum_ranges (suc k) (c ∷ []) acc = acc
  sum_ranges (suc k) (c ∷ p ∷ l) acc =
      let taken = sum_ranges k (p ∷ l) (add acc.0 (true_range c p), suc acc.1) in
      let skipped = sum_ranges (suc k) (p ∷ l) acc in if c.is_closed then taken else skipped

  unfoldable pub calculate_atr : ℕ → SymbolStats D F → SymbolStats D F
  unfolding sum_ranges
  calculate_atr window s =
      let ranges = sum_ranges window (reverse s.candles) (n.zero, 0) in
      if ltb (length s.candles) (window + 1)
      then s
      else if ranges.1 == 0
      then s
      else record s { atr = div ranges.0 (from_int (pos ranges.1)) }

  -- What handleKlineUpdate writes before it looks for an anomaly.
  unfoldable pub take_candle : ℤ → ℕ → Candle → SymbolStats D F → SymbolStats D F
  unfolding update_candles
  take_candle now window c s = record s {
    last_price = to_go_decimal n c.close;
    candles = update_candles window c s.candles;
    last_update = now;
  }
