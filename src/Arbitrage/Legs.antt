-- ===== src/Arbitrage/Legs.antt =====
-- market_maker/internal/trading/arbitrage/leg_manager.go. The answer of GetPositions is an argument,
-- `none` being an error. UpdateFromOrder does nothing.
pub mod Signed
mod Tests
use opensqt_market_maker.Common.{
  ℕ, suc, Bool, true, false, not, ◌&&◌, Option, none, some, List, [], ◌∷◌, String, if◌then◌else◌,
  leb,
}
use opensqt_market_maker.Common.Assoc.{lookup, insert, delete, string_eq}
use opensqt_market_maker.Num.{Num, less_than, is_zero, is_negative}
use opensqt_market_maker.Pb.{Position}
use opensqt_market_maker.Pb.Convert.{to_go_decimal}
use opensqt_market_maker.Pb.Enums.{OrderSide, side_unspecified, buy, sell, is_sell}
use Prim.Native.String.{◌++◌}

pub record Leg (D : Type 0) : Type 0 where
  pub exchange : String
  pub symbol : String
  pub side : OrderSide
  pub size : D

-- The exchanges that are known, and the legs.
pub record LegManager (D : Type 0) : Type 0 where
  pub exchanges : List String
  pub legs : List (String × Leg D)

pub data LegError : Type 0 where
  exchange_not_found positions_failed : LegError

-- fmt.Sprintf("%s:%s", exchange, symbol)
unfoldable pub leg_key : String → String → String
leg_key exchange symbol = exchange ++ ":" ++ symbol

unfoldable pub is_known : String → List String → Bool
is_known name [] = false
is_known name (e ∷ exchanges) = if string_eq.beq e name then true else is_known name exchanges

module _ (n : Num) where
  open n use {D, zero, add, neg, abs, literal, from_float}

  unfoldable pub leg_of : String → String → D → Leg D
  leg_of exchange symbol size = record {
    exchange = exchange;
    symbol = symbol;
    side = if is_negative n size then sell else buy;
    size = if is_negative n size then abs size else size;
  }

  -- The body of SyncState's loop.
  unfoldable pub sync_position :
      String → String → Position → List (String × Leg D) → List (String × Leg D)
  unfolding leg_of leg_key
  sync_position exchange symbol p legs =
      let size = to_go_decimal n p.size in
      if not (string_eq.beq p.symbol symbol) && not (string_eq.beq symbol "")
      then legs
      else if is_zero n size
      then legs
      else insert (leg_key exchange p.symbol) (leg_of exchange p.symbol size) legs

  unfoldable pub sync_positions :
      String → String → List Position → List (String × Leg D) → List (String × Leg D)
  unfolding sync_position
  sync_positions exchange symbol [] legs = legs
  sync_positions exchange symbol (p ∷ positions) legs =
      sync_positions exchange symbol positions (sync_position exchange symbol p legs)

  unfoldable pub sync_answer :
      String → String → Option (List Position) → LegManager D → LegManager D × Option LegError
  unfolding sync_positions
  sync_answer exchange symbol none m = (m, some positions_failed)
  sync_answer exchange symbol (some positions) m = (
    record m {
      legs = sync_positions exchange symbol positions (delete (leg_key exchange symbol) m.legs);
    },
    none,
  )

  unfoldable pub sync_state :
      String → String → Option (List Position) → LegManager D → LegManager D × Option LegError
  unfolding sync_answer is_known
  sync_state exchange symbol positions m =
      if is_known exchange m.exchanges
      then sync_answer exchange symbol positions m
      else (m, some exchange_not_found)

  -- The size with its sign.
  unfoldable pub signed : Leg D → D
  signed leg = if is_sell leg.side then neg leg.size else leg.size

  unfoldable pub signed_of : Option (Leg D) → D
  unfolding signed
  signed_of none = zero
  signed_of (some leg) = signed leg

  unfoldable pub get_signed_size : String → String → LegManager D → D
  unfolding signed_of
  get_signed_size exchange symbol m = signed_of (lookup (leg_key exchange symbol) m.legs)

  -- The sum of the signed sizes of a symbol, and the number of its legs.
  unfoldable pub total_delta : String → List (String × Leg D) → D → ℕ → D × ℕ
  unfolding signed
  total_delta symbol [] delta count = (delta, count)
  total_delta symbol ((k, leg) ∷ legs) delta count =
      let counted = total_delta symbol legs (add delta (signed leg)) (suc count) in
      let skipped = total_delta symbol legs delta count in
      if string_eq.beq leg.symbol symbol then counted else skipped

  unfoldable pub is_delta_neutral : String → LegManager D → Bool
  unfolding total_delta
  is_delta_neutral symbol m =
      let (delta, count) = total_delta symbol m.legs zero 0 in
      leb 2 count && less_than n (abs delta) (from_float (literal 1 4))

  unfoldable pub get_side : String → String → LegManager D → OrderSide
  get_side exchange symbol m = elim (lookup (leg_key exchange symbol) m.legs) [
    | none ↦ side_unspecified
    | some leg ↦ leg.side
  ]

  unfoldable pub get_size : String → String → LegManager D → D
  get_size exchange symbol m = elim (lookup (leg_key exchange symbol) m.legs) [
    | none ↦ zero
    | some leg ↦ leg.size
  ]

  unfoldable pub any_open : String → List (String × Leg D) → Bool
  any_open symbol [] = false
  any_open symbol ((k, leg) ∷ legs) =
      if string_eq.beq leg.symbol symbol && not (is_zero n leg.size)
      then true
      else any_open symbol legs

  unfoldable pub has_open_position : String → LegManager D → Bool
  unfolding any_open
  has_open_position symbol m = any_open symbol m.legs
