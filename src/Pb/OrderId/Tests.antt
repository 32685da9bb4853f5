-- ===== src/Pb/OrderId/Tests.antt =====
-- Identifiers on decimals that count tenths, and are read from their digits.
use Prim.Native.Char.{code}
use opensqt_market_maker.Common.{◌≡◌, refl, ℕ, ◌+◌, ◌-◌, ◌*◌, String, some}
use opensqt_market_maker.Common.Int.{pos, ◌*ℤ◌}
use opensqt_market_maker.Num.{Num}
use opensqt_market_maker.Num.Fixed.{fixed, divide, round_tenths, unit, power}
use opensqt_market_maker.Pb.OrderId.{
  IdGen, print_ℤ, digits, generate_compact_order_id, add_broker_prefix, lower_is, truncate_id,
  parse_compact_order_id, strip_broker, strip_prefix, split, parse_parts,
}
use opensqt_market_maker.Pb.OrderId.RoundTrip.{parse-generate}

-- The number whose digits follow `value`.
read_from : ℕ → String → ℕ
read_from value String.[] = value
read_from value (String.◌∷◌ c s) = read_from (value * 10 + (code c - 48)) s

abbrev decimals : Num
decimals = record fixed { read = λ s. some (pos (read_from 0 s * 10)) }

abbrev gen : IdGen
gen = record { last_sec = pos 7; id_seq = 1; clock = λ _. pos 7; readings = 0 }

-- The price 2.5, with one decimal place.
parse-generate_example :
    parse_compact_order_id decimals
      (generate_compact_order_id decimals (pos 25) "SELL" (pos 1) gen).0
      (pos 1)
    ≡ some (pos 25, "SELL")
unfolding print_ℤ digits read_from round_tenths unit power divide ◌*ℤ◌
parse-generate_example = parse-generate decimals (pos 25) "SELL" (pos 1) gen refl

-- With a broker's prefix.
prefixed :
    parse_compact_order_id decimals
      (add_broker_prefix "Binance"
        (generate_compact_order_id decimals (pos 25) "SELL" (pos 1) gen).0)
      (pos 1)
    ≡ some (pos 25, "SELL")
unfolding parse_compact_order_id strip_broker strip_prefix split parse_parts add_broker_prefix
    lower_is truncate_id generate_compact_order_id print_ℤ digits read_from round_tenths unit power
    divide ◌*ℤ◌
prefixed = refl
