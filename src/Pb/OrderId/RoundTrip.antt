-- ===== src/Pb/OrderId/RoundTrip.antt =====
-- An identifier that is generated and parsed.
use Prim.Native.Char.{Char, code}
use Prim.Native.String.{◌++◌ as ◌+++◌, char_at}
use text.Mathlib.TextLemmas.{cons-append, nil-append}
use opensqt_market_maker.Common.{
  ℕ, zero, suc, ◌/◌, ◌%◌, ◌≤◌, ◌<◌, ◌≡◌, refl, ap, ◌∙◌, Bool, true, false, String, none, some, [],
  ◌∷◌, if◌then◌else◌, arith, ltb, ◌==◌, Bool-cases, inl, inr,
}
use opensqt_market_maker.Common.Int.{ℤ, pos, negsuc}
use opensqt_market_maker.Common.Assoc.{string_eq}
use opensqt_market_maker.Num.{Num}
use opensqt_market_maker.Pb.OrderId.{
  IdGen, next_id, digit, digits, print_ℤ, print_padded, price_int, side_code,
  generate_compact_order_id, strip_prefix, strip_broker, push_char, split, parsed_side, parse_parts,
  parse_compact_order_id,
}

-- The text has no character above the digits.
Plain : String → Type 0
Plain String.[] = Unit
Plain (String.◌∷◌ c s) = (code c ≤ 57) × Plain s

digit-le : (k : ℕ) → k < 10 → code (digit k) ≤ 57
digit-le zero h = omega arith
digit-le (suc zero) h = omega arith
digit-le (suc (suc zero)) h = omega arith
digit-le (suc (suc (suc zero))) h = omega arith
digit-le (suc (suc (suc (suc zero)))) h = omega arith
digit-le (suc (suc (suc (suc (suc zero))))) h = omega arith
digit-le (suc (suc (suc (suc (suc (suc zero)))))) h = omega arith
digit-le (suc (suc (suc (suc (suc (suc (suc zero))))))) h = omega arith
digit-le (suc (suc (suc (suc (suc (suc (suc (suc zero)))))))) h = omega arith
digit-le (suc (suc (suc (suc (suc (suc (suc (suc (suc zero))))))))) h = omega arith
digit-le (suc (suc (suc (suc (suc (suc (suc (suc (suc (suc k)))))))))) h = omega arith

digits-Plain : (fuel k : ℕ) (tail : String) → Plain tail → Plain (digits fuel k tail)
unfolding digits Plain
digits-Plain zero k tail h = h
digits-Plain (suc fuel) k tail h = elim (Bool-cases (ltb k 10)) [
  | inl e ↦ rw e (digit-le k (ground arith), h)
  | inr e ↦ rw e (
      digits-Plain fuel (k / 10) (String.◌∷◌ (digit (k % 10)) tail)
        (digit-le (k % 10) (omega arith), h))
]

Plain-append : (s t : String) → Plain s → Plain t → Plain (s +++ t)
unfolding Plain
Plain-append String.[] t h k = rw (nil-append t) k
Plain-append (String.◌∷◌ c s) t h k = rw (cons-append c s t) (h.0, Plain-append s t h.1 k)

print_ℤ-Plain : (z : ℤ) → Plain (print_ℤ z)
unfolding print_ℤ Plain
print_ℤ-Plain (pos k) = digits-Plain 20 k "" tt
print_ℤ-Plain (negsuc k) =
    Plain-append "-" (digits 20 (suc k) "") (omega arith, tt) (digits-Plain 20 (suc k) "" tt)

if-Plain : (b : Bool) (s t : String) → Plain s → Plain t → Plain (if b then s else t)
if-Plain true s t h k = h
if-Plain false s t h k = k

print_padded-Plain : (k : ℕ) → Plain (print_padded k)
unfolding Plain
print_padded-Plain k =
    let zeros =
      if-Plain (ltb k 10) "00" (if ltb k 100 then "0" else "") (omega arith, (omega arith, tt))
        (if-Plain (ltb k 100) "0" "" (omega arith, tt) tt) in
    Plain-append (if ltb k 10 then "00" else (if ltb k 100 then "0" else "")) (print_ℤ (pos k))
      zeros (print_ℤ-Plain (pos k))

bar-append : (t : String) → "_" +++ t ≡ String.◌∷◌ (char_at "_" 0) t
bar-append t = cons-append (char_at "_" 0) "" t ∙ ap (String.◌∷◌ (char_at "_" 0)) (nil-append t)

split_first : (c : Char) (s : String) → code c ≤ 57 → split (String.◌∷◌ c s) ≡ push_char c (split s)
unfolding split
split_first c s h = let other : (code c == 95) ≡ false = ground arith in rw other refl

split_bar : (t : String) → split ("_" +++ t) ≡ "" ∷ split t
unfolding split
split_bar t = rw (bar-append t) refl

-- A part without an underscore is split off.
split_part : (s t : String) → Plain s → split (s +++ ("_" +++ t)) ≡ s ∷ split t
unfolding Plain
split_part String.[] t h = ap split (nil-append ("_" +++ t)) ∙ split_bar t
split_part (String.◌∷◌ c s) t h =
    ap split (cons-append c s ("_" +++ t))
    ∙ split_first c (s +++ ("_" +++ t)) h.0
    ∙ ap (push_char c) (split_part s t h.1)

-- So is the one-letter code of a side.
split_side : (side t : String) → split (side_code side +++ ("_" +++ t)) ≡ side_code side ∷ split t
unfolding split
split_side side t = elim (Bool-cases (string_eq.beq side "SELL")) [
  | inl e ↦ rw e (
      ap split (
        cons-append (char_at "S" 0) "" ("_" +++ t)
        ∙ ap (String.◌∷◌ (char_at "S" 0)) (nil-append ("_" +++ t)))
      ∙ ap (push_char (char_at "S" 0)) (split_bar t))
  | inr e ↦ rw e (
      ap split (
        cons-append (char_at "B" 0) "" ("_" +++ t)
        ∙ ap (String.◌∷◌ (char_at "B" 0)) (nil-append ("_" +++ t)))
      ∙ ap (push_char (char_at "B" 0)) (split_bar t))
]

split_last : (s : String) → Plain s → split s ≡ s ∷ []
unfolding Plain split
split_last String.[] h = refl
split_last (String.◌∷◌ c s) h = split_first c s h.0 ∙ ap (push_char c) (split_last s h.1)

-- A prefix that begins with a letter is not one of a text that begins with a plain part and an
-- underscore.
no_prefix :
    (d : Char) (p s t : String)
    → 95 < code d
    → Plain s
    → strip_prefix (String.◌∷◌ d p) (s +++ ("_" +++ t)) ≡ none
unfolding strip_prefix Plain
no_prefix d p String.[] t lt h =
    let other : (code d == 95) ≡ false = ground arith in
    rw (nil-append ("_" +++ t), bar-append t, other) refl
no_prefix d p (String.◌∷◌ c s) t lt h =
    let other : (code d == code c) ≡ false = ground arith in
    rw (cons-append c s ("_" +++ t), other) refl

strip_generated : (s t : String) → Plain s → strip_broker (s +++ ("_" +++ t)) ≡ s +++ ("_" +++ t)
unfolding strip_broker
strip_generated s t h =
    let x : strip_prefix "x-zdfVM8vY" (s +++ ("_" +++ t)) ≡ none =
      no_prefix (char_at "x" 0) "-zdfVM8vY" s t (omega arith) h in
    let y : strip_prefix "t-" (s +++ ("_" +++ t)) ≡ none =
      no_prefix (char_at "t" 0) "-" s t (omega arith) h in
    rw (x, strip_broker, y) refl

side_of_code :
    (side : String)
    → parsed_side (side_code side) ≡ (if string_eq.beq side "SELL" then "SELL" else "BUY")
side_of_code side = elim (Bool-cases (string_eq.beq side "SELL")) [
  | inl e ↦ rw e refl
  | inr e ↦ rw e refl
]

module _ (n : Num) where
  open n use {D}

  parts_of :
      (price : D) (side : String) (places : ℤ) (g : IdGen)
      → split (strip_broker (generate_compact_order_id n price side places g).0)
        ≡ print_ℤ (price_int n price places)
          ∷ side_code side
          ∷ (print_ℤ (next_id g).last_sec +++ print_padded (next_id g).id_seq)
          ∷ []
  unfolding generate_compact_order_id
  parts_of price side places g =
      let p = print_ℤ (price_int n price places) in
      let last = print_ℤ (next_id g).last_sec +++ print_padded (next_id g).id_seq in
      ap split (strip_generated p (side_code side +++ ("_" +++ last)) (print_ℤ-Plain _))
      ∙ split_part p (side_code side +++ ("_" +++ last)) (print_ℤ-Plain _)
      ∙ ap (λ l. p ∷ l) (split_side side last)
      ∙ ap (λ l. p ∷ side_code side ∷ l)
          (split_last last (
            Plain-append _ _ (print_ℤ-Plain (next_id g).last_sec)
              (print_padded-Plain (next_id g).id_seq)))

  -- ParseCompactOrderID reads an identifier that GenerateCompactOrderID made: it gives the price,
  -- rounded to the decimal places, and the side SELL if the identifier was made for the text "SELL",
  -- and BUY for any other one. The library reads the digits of the rounded price as
  -- this integer.
  pub parse-generate :
      (price : D) (side : String) (places : ℤ) (g : IdGen)
      → n.read (print_ℤ (price_int n price places)) ≡ some (n.from_int (price_int n price places))
      → parse_compact_order_id n (generate_compact_order_id n price side places g).0 places
        ≡ some (
          n.div
              (n.from_int (price_int n price places))
              (n.pow (n.from_float (n.literal 10 0)) (n.from_int places)),
          if string_eq.beq side "SELL" then "SELL" else "BUY",
        )
  unfolding parse_compact_order_id parse_parts
  parse-generate price side places g reads =
      ap (λ l. parse_parts n l places) (parts_of price side places g)
      ∙ rw (parse_parts, reads, side_of_code side) refl
