-- ===== src/Risk/Monitor/Window.antt =====
-- The candles that a monitor keeps of each symbol.
use mathlib.Core.List.{reverse, reverse-append}
use opensqt_market_maker.Common.{
  ℕ, zero, suc, ◌+◌, ◌-◌, ◌≤◌, ◌<◌, ◌≡◌, refl, ap, ◌∙◌, true, false, Bool, some, List, [], ◌∷◌,
  ◌++◌, arith, All, All-append, length, length-append, length-drop, drop, if◌then◌else◌,
}
use opensqt_market_maker.Common.Assoc.{string_eq}
use opensqt_market_maker.Num.{Num}
use opensqt_market_maker.Pb.{Candle}
use opensqt_market_maker.Risk.SymbolStats.{
  SymbolStats, Sums, push_candle, update_candles, add_candle, sum_closed, no_sums, judge,
  check_candles, check_anomaly,
}

-- All candles but the last are closed.
abbrev pub ClosedBefore : List Candle → Type 0
ClosedBefore [] = Unit
ClosedBefore (x ∷ []) = Unit
ClosedBefore (x ∷ y ∷ l) = (x.is_closed ≡ true) × ClosedBefore (y ∷ l)

abbrev pub ends_open : List Candle → Bool
ends_open [] = false
ends_open (x ∷ []) = if x.is_closed then false else true
ends_open (x ∷ y ∷ l) = ends_open (y ∷ l)

-- The window holds one closed candle more than it averages over, and an open one at the end.
pub record IsWindow (window : ℕ) (l : List Candle) : Type 0 where
  pub closed : ClosedBefore l
  pub short : length l ≤ (if ends_open l then window + 2 else window + 1)

push_candle-ClosedBefore :
    (c : Candle) (l : List Candle) → ClosedBefore l → ClosedBefore (push_candle c l)
unfolding push_candle
push_candle-ClosedBefore c [] h = tt
push_candle-ClosedBefore c (x ∷ []) h = ground arith
push_candle-ClosedBefore c (x ∷ y ∷ []) h = ground arith
push_candle-ClosedBefore c (x ∷ y ∷ z ∷ l) h = (h.0, push_candle-ClosedBefore c (y ∷ z ∷ l) h.1)

ends_open-push :
    (c : Candle) (l : List Candle)
    → ends_open (push_candle c l) ≡ (if c.is_closed then false else true)
unfolding push_candle
ends_open-push c [] = refl
ends_open-push c (x ∷ []) = ground arith
ends_open-push c (x ∷ y ∷ []) = ground arith
ends_open-push c (x ∷ y ∷ z ∷ l) = ends_open-push c (y ∷ z ∷ l)

length-push :
    (c : Candle) (l : List Candle)
    → length (push_candle c l) ≡ (if ends_open l then length l else length l + 1)
unfolding push_candle
length-push c [] = refl
length-push c (x ∷ []) = ground arith
length-push c (x ∷ y ∷ l) = ground (arith, length-push c (y ∷ l))

drop-ClosedBefore : (k : ℕ) (l : List Candle) → ClosedBefore l → ClosedBefore (drop k l)
drop-ClosedBefore zero l h = h
drop-ClosedBefore (suc k) [] h = tt
drop-ClosedBefore (suc zero) (x ∷ []) h = tt
drop-ClosedBefore (suc (suc k)) (x ∷ []) h = tt
drop-ClosedBefore (suc k) (x ∷ y ∷ l) h = drop-ClosedBefore k (y ∷ l) h.1

ends_open-drop : (k : ℕ) (l : List Candle) → ends_open l ≡ false → ends_open (drop k l) ≡ false
ends_open-drop zero l h = h
ends_open-drop (suc k) [] h = refl
ends_open-drop (suc zero) (x ∷ []) h = refl
ends_open-drop (suc (suc k)) (x ∷ []) h = refl
ends_open-drop (suc k) (x ∷ y ∷ l) h = ends_open-drop k (y ∷ l) h

pub update_candles-IsWindow :
    (window : ℕ) (c : Candle) (l : List Candle)
    → IsWindow window l
    → IsWindow window (update_candles window c l)
unfolding update_candles
update_candles-IsWindow window c l w =
    let l' = push_candle c l in
    let k = length l' - (window + 1) in
    let closed = push_candle-ClosedBefore c l w.closed in
    record {
      closed = ground (arith, closed, drop-ClosedBefore k l' closed);
      short = ground (
        arith,
        w.short,
        length-push c l,
        ends_open-push c l,
        length-drop k l',
        ends_open-drop k l',
      );
    }

abbrev AllClosed : List Candle → Type 0
AllClosed = All (λ c. c.is_closed ≡ true)

-- The candles backwards: the current one, and closed ones.
backwards :
    (x : Candle) (l : List Candle)
    → ClosedBefore (x ∷ l)
    → (c : Candle) × (older : List Candle) × (reverse (x ∷ l) ≡ c ∷ older)
      × AllClosed older
      × (length older ≡ length l)
backwards x [] h = (x, [], refl, tt, refl)
backwards x (y ∷ l) h =
    let (c, older, e, all, size) = backwards y l h.1 in
    (
      c,
      older ++ x ∷ [],
      reverse-append (x ∷ []) (y ∷ l) ∙ ap (λ z. z ++ x ∷ []) e,
      All-append (λ c. c.is_closed ≡ true) older (x ∷ []) all (h.0, tt),
      omega (arith, size, length-append older (x ∷ [])),
    )

module _ (n : Num) where
  open n use {D, F}

  sum_closed-count :
      (k : ℕ) (l : List Candle) (sums : Sums F)
      → AllClosed l
      → k ≤ length l
      → (sum_closed n k l sums).count ≡ sums.count + k
  unfolding sum_closed add_candle
  sum_closed-count zero l sums all h = omega arith
  sum_closed-count (suc k) [] sums all h = absurd (omega arith)
  sum_closed-count (suc k) (c ∷ l) sums all h =
      ground (arith, all.0, sum_closed-count k l (add_candle n c sums) all.1 (omega arith))

  check_reversed :
      (m : F) (window : ℕ) (c : Candle) (older : List Candle) (s : SymbolStats D F)
      → AllClosed older
      → window ≤ length older
      → (s' : SymbolStats D F) × (check_candles n m window (c ∷ older) s ≡ some s')
  unfolding check_candles no_sums
  check_reversed m window c older s all h =
      let sums = sum_closed n window older (no_sums n) in
      (judge n m c sums s, ground (arith, sum_closed-count window older (no_sums n) all h))

  -- Over a window, checkAnomaly passes a judgement as soon as there are candles enough.
  pub check_anomaly-answers :
      (m : F) (window : ℕ) (s : SymbolStats D F)
      → IsWindow window s.candles
      → window < length s.candles
      → (s' : SymbolStats D F) × (check_anomaly n m window s ≡ some s')
  unfolding check_anomaly
  check_anomaly-answers m window s w h = by_list s.candles refl w.closed
    where
      by_list :
          (l : List Candle)
          → s.candles ≡ l
          → ClosedBefore l
          → (s' : SymbolStats D F) × (check_anomaly n m window s ≡ some s')
      by_list [] e c = absurd (ground arith)
      by_list (x ∷ l) e c =
          let (cur, older, r, all, size) = backwards x l c in
          let (s', found) = check_reversed m window cur older s all (ground arith) in
          (s', ground (arith, h, ap (λ z. check_candles n m window z s) (ap reverse e ∙ r) ∙ found))
