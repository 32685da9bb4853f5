-- ===== src/Pb/OrderId.antt =====
-- market_maker/pkg/pbu/helpers.go: GenerateCompactOrderID, AddBrokerPrefix and truncateID. The
-- package's variables lastSec and idSeq are the state `IdGen`, which holds the clock as well: the
-- seconds that its k-th reading gives. Identifiers are ASCII, so a byte is a character.
pub mod RoundTrip
mod Tests
use Prim.Native.Char.{Char, code}
use Prim.Native.String.{◌++◌ as ◌+++◌, char_at}
use opensqt_market_maker.Common.{
  ℕ, zero, suc, ◌+◌, ◌/◌, ◌%◌, Bool, true, false, ◌&&◌, String, Option, none, some, List, [], ◌∷◌,
  if◌then◌else◌, ltb, leb, ◌==◌,
}
use opensqt_market_maker.Common.Int.{ℤ, pos, negsuc, eqb_ℤ}
use opensqt_market_maker.Common.Assoc.{string_eq}
use opensqt_market_maker.Num.{Num}

abbrev pub digit : ℕ → Char
digit k = char_at "0123456789" k

-- The decimal digits of `k`, before `tail`.
unfoldable pub digits : ℕ → ℕ → String → String
digits zero k tail = tail
digits (suc fuel) k tail =
    let rest = digits fuel (k / 10) (String.◌∷◌ (digit (k % 10)) tail) in
    if ltb k 10 then String.◌∷◌ (digit k) tail else rest

-- %d: an int64 has at most 19 digits.
unfoldable pub print_ℤ : ℤ → String
unfolding digits
print_ℤ (pos k) = digits 20 k ""
print_ℤ (negsuc k) = "-" +++ digits 20 (suc k) ""

-- %03d of a number that is not negative.
abbrev pub print_padded : ℕ → String
print_padded k = (if ltb k 10 then "00" else (if ltb k 100 then "0" else "")) +++ print_ℤ (pos k)

pub record IdGen : Type 0 where
  pub last_sec : ℤ
  pub id_seq : ℕ
  pub clock : ℕ → ℤ
  pub readings : ℕ  -- how often the clock has been read

-- A second that is not the last one starts the sequence anew.
abbrev pub next_id : IdGen → IdGen
next_id g =
    let now = g.clock g.readings in
    record g {
      last_sec = now;
      id_seq = suc (if eqb_ℤ now g.last_sec then g.id_seq else 0);
      readings = suc g.readings;
    }

-- The code of a side is one letter.
abbrev pub side_code : String → String
side_code side = if string_eq.beq side "SELL" then "S" else "B"

-- The side that a code stands for.
abbrev pub parsed_side : String → String
parsed_side code = if string_eq.beq code "S" then "SELL" else "BUY"

module _ (n : Num) where
  open n use {D}

  -- The price as a number of its last decimal places.
  abbrev pub price_int : D → ℤ → ℤ
  price_int price price_decimals = n.int_part (
      n.round (n.mul price (n.pow (n.from_float (n.literal 10 0)) (n.from_int price_decimals)))
        (pos 0))

  unfoldable pub generate_compact_order_id : D → String → ℤ → IdGen → String × IdGen
  generate_compact_order_id price side price_decimals g =
      let g' = next_id g in
      (
        print_ℤ (price_int price price_decimals)
            +++ "_"
            +++ side_code side
            +++ "_"
            +++ print_ℤ g'.last_sec
            +++ print_padded g'.id_seq,
        g',
      )

-- A character's number after strings.ToLower.
abbrev lower : ℕ → ℕ
lower c = if leb 65 c && leb c 90 then c + 32 else c

-- strings.ToLower(s) == t
unfoldable pub lower_is : String → String → Bool
lower_is String.[] String.[] = true
lower_is String.[] (String.◌∷◌ d t) = false
lower_is (String.◌∷◌ c s) String.[] = false
lower_is (String.◌∷◌ c s) (String.◌∷◌ d t) = (lower (code c) == code d) && lower_is s t

-- id[:maxLen], of an id that is longer.
unfoldable pub truncate_id : String → ℕ → String
truncate_id String.[] max_len = ""
truncate_id (String.◌∷◌ c s) zero = ""
truncate_id (String.◌∷◌ c s) (suc max_len) = String.◌∷◌ c (truncate_id s max_len)

unfoldable pub add_broker_prefix : String → String → String
unfolding lower_is truncate_id
add_broker_prefix exchange client_oid =
    if lower_is exchange "binance"
    then truncate_id ("x-zdfVM8vY" +++ client_oid) 36
    else if lower_is exchange "gate"
    then truncate_id ("t-" +++ client_oid) 30
    else client_oid

-- strings.HasPrefix and TrimPrefix: what follows the prefix, if the text has it.
unfoldable pub strip_prefix : String → String → Option String
strip_prefix String.[] s = some s
strip_prefix (String.◌∷◌ c p) String.[] = none
strip_prefix (String.◌∷◌ c p) (String.◌∷◌ d s) =
    let rest = strip_prefix p s in if code c == code d then rest else none

-- The first of the broker's prefixes that the text has is taken off.
unfoldable pub strip_broker : String → String
unfolding strip_prefix
strip_broker oid = elim (strip_prefix "x-zdfVM8vY" oid) [
  | some rest ↦ rest
  | none ↦ elim (strip_prefix "t-" oid) [ some rest ↦ rest | none ↦ oid ]
]

-- A character before the first part.
abbrev pub push_char : Char → List String → List String
push_char c [] = String.◌∷◌ c "" ∷ []
push_char c (w ∷ ws) = String.◌∷◌ c w ∷ ws

-- strings.Split(s, "_")
unfoldable pub split : String → List String
split String.[] = "" ∷ []
split (String.◌∷◌ c s) = let rest = split s in if code c == 95 then "" ∷ rest else push_char c rest

module _ (n : Num) where
  open n use {D}

  -- The price of the first part, and the side of the second.
  unfoldable pub parse_parts : List String → ℤ → Option (D × String)
  parse_parts (p ∷ s ∷ t ∷ []) price_decimals = elim (n.read p) [
    | none ↦ none
    | some price ↦ some (
      n.div price (n.pow (n.from_float (n.literal 10 0)) (n.from_int price_decimals)),
      parsed_side s,
    )
  ]
  parse_parts [] price_decimals = none
  parse_parts (_ ∷ []) price_decimals = none
  parse_parts (_ ∷ _ ∷ []) price_decimals = none
  parse_parts (_ ∷ _ ∷ _ ∷ _ ∷ _) price_decimals = none

  -- ParseCompactOrderID
  unfoldable pub parse_compact_order_id : String → ℤ → Option (D × String)
  unfolding strip_broker split parse_parts
  parse_compact_order_id client_oid price_decimals =
      parse_parts (split (strip_broker client_oid)) price_decimals
