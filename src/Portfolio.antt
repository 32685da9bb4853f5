-- ===== src/Portfolio.antt =====
-- market_maker/internal/trading/portfolio/allocator.go.
pub mod Caps
mod Tests
use opensqt_market_maker.Common.{
  ℕ, Bool, true, false, not, ◌||◌, Option, none, some, List, [], ◌∷◌, String, map, if◌then◌else◌,
  take,
}
use opensqt_market_maker.Common.Int.{pos}
use opensqt_market_maker.Common.Assoc.{lookup, insert, string_eq}
use opensqt_market_maker.Num.{Num, greater_than, is_zero, is_positive, is_negative}

-- What the allocator reads of an opportunity.
pub record Opportunity (D : Type 0) : Type 0 where
  pub symbol : String
  pub short_exchange : String
  pub quality_score : D
  pub narrative_sector : String

pub record TargetPosition (D : Type 0) : Type 0 where
  pub symbol : String
  pub weight : D
  pub notional : D
  pub exchange : String
  pub quality_score : D

pub record PortfolioAllocator (D : Type 0) : Type 0 where
  pub max_pairs : ℕ
  pub max_weight : D
  pub sector_cap : D
  pub round_trip_cost : D
  pub hysteresis_mult : D

module _ (n : Num) where
  open n use {D, zero, from_int, add, sub, mul, div, abs, literal, from_float}

  unfoldable pub new_portfolio_allocator : PortfolioAllocator D
  new_portfolio_allocator = record {
    max_pairs = 10;
    max_weight = from_float (literal 25 2);
    sector_cap = from_float (literal 30 2);
    round_trip_cost = from_float (literal 3 3);
    hysteresis_mult = from_float (literal 25 1);
  }

  -- The sum of the scores that are positive.
  unfoldable pub total_score : List (Opportunity D) → D → D
  total_score [] total = total
  total_score (o ∷ opps) total =
      total_score opps (if is_positive n o.quality_score then add total o.quality_score else total)

  unfoldable pub sector_of : Opportunity D → String
  sector_of o = if string_eq.beq o.narrative_sector "" then "unknown" else o.narrative_sector

  -- sectorExposure[sector], which is the zero decimal where there is no entry.
  unfoldable pub exposure : String → List (String × D) → D
  exposure sector exposures = elim (lookup sector exposures) [ none ↦ zero | some d ↦ d ]

  unfoldable pub cap_pair : PortfolioAllocator D → D → D
  cap_pair a weight = if greater_than n weight a.max_weight then a.max_weight else weight

  unfoldable pub cap_sector : PortfolioAllocator D → D → D → D
  cap_sector a current weight =
      let room = sub a.sector_cap current in
      if greater_than n (add current weight) a.sector_cap
      then (if is_negative n room then zero else room)
      else weight

  unfoldable pub target_of : D → Opportunity D → D → TargetPosition D
  target_of capacity o weight = record {
    symbol = o.symbol;
    weight = weight;
    notional = mul capacity weight;
    exchange = o.short_exchange;
    quality_score = o.quality_score;
  }

  -- The loop of Allocate. Each target comes with its sector, which Allocate does not keep.
  unfoldable pub allocate_from :
      PortfolioAllocator D
      → D
      → D
      → List (Opportunity D)
      → List (String × D)
      → List (String × TargetPosition D)
  unfolding exposure cap_pair cap_sector target_of sector_of
  allocate_from a total capacity [] exposures = []
  allocate_from a total capacity (o ∷ opps) exposures =
      let sector = sector_of o in
      let current = exposure sector exposures in
      let weight = cap_sector a current (cap_pair a (div o.quality_score total)) in
      let skipped = allocate_from a total capacity opps exposures in
      let taken =
        allocate_from a total capacity opps (insert sector (add current weight) exposures) in
      if not (is_positive n o.quality_score)
      then skipped
      else if is_positive n weight
      then (sector, target_of capacity o weight) ∷ taken
      else skipped

  unfoldable pub allocate_sectors :
      PortfolioAllocator D → List (Opportunity D) → D → D → List (String × TargetPosition D)
  unfolding total_score allocate_from
  allocate_sectors a opps total_equity leverage =
      let top = take a.max_pairs opps in
      let total = total_score top zero in
      if is_zero n total then [] else allocate_from a total (mul total_equity leverage) top []

  -- Allocate, where an empty list is nil.
  unfoldable pub allocate :
      PortfolioAllocator D → List (Opportunity D) → D → D → List (TargetPosition D)
  unfolding allocate_sectors
  allocate a opps total_equity leverage =
      map (λ t. t.1) (allocate_sectors a opps total_equity leverage)

  unfoldable pub should_rebalance : PortfolioAllocator D → D → D → Bool
  should_rebalance a current target =
      let diff = abs (sub target current) in
      let threshold = mul a.round_trip_cost a.hysteresis_mult in
      let base = add current (from_int (pos 1)) in
      if is_zero n diff
      then false
      else greater_than n (div diff base) (from_float (literal 5 2))
        || greater_than n diff (mul threshold base)
