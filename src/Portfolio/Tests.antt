-- ===== src/Portfolio/Tests.antt =====
-- The allocator on decimals that count tenths: two opportunities of one sector.
use opensqt_market_maker.Common.{◌≡◌, refl, List, [], ◌∷◌, true, All, String}
use opensqt_market_maker.Common.Int.{ℤ, pos, ◌+ℤ◌, ◌-ℤ◌, ◌*ℤ◌}
use opensqt_market_maker.Common.Assoc.{lookup, insert, string_eq}
use opensqt_market_maker.Num.{less_eq}
use opensqt_market_maker.Num.Fixed.{
  fixed, fixed-IsOrdered, fixed-IsGroup, fixed-IsOrderedGroup, divide,
}
use opensqt_market_maker.Portfolio.{
  Opportunity, PortfolioAllocator, new_portfolio_allocator, allocate, allocate_sectors,
  allocate_from, total_score, sector_of, exposure, cap_pair, cap_sector, target_of,
}
use opensqt_market_maker.Portfolio.Caps.{IsCapped, sector_total, allocate-IsCapped}

abbrev allocator : PortfolioAllocator ℤ
allocator = new_portfolio_allocator fixed

abbrev opportunity : String → Opportunity ℤ
opportunity symbol = record {
  symbol = symbol;
  short_exchange = "a";
  quality_score = pos 10;
  narrative_sector = "";
}

abbrev opportunities : List (Opportunity ℤ)
opportunities = opportunity "BTC" ∷ opportunity "ETH" ∷ []

-- The second one gets what the first leaves of the sector.
shares :
    allocate fixed allocator opportunities (pos 100) (pos 10)
    ≡ record {
      symbol = "BTC";
      weight = pos 2;
      notional = pos 20;
      exchange = "a";
      quality_score = pos 10;
    }
      ∷ record {
        symbol = "ETH";
        weight = pos 1;
        notional = pos 10;
        exchange = "a";
        quality_score = pos 10;
      }
      ∷ []
unfolding allocate allocate_sectors allocate_from total_score sector_of exposure cap_pair cap_sector
    target_of new_portfolio_allocator lookup insert divide ◌+ℤ◌ ◌-ℤ◌ ◌*ℤ◌
shares = refl

allocate-IsCapped_example :
    let targets = allocate_sectors fixed allocator opportunities (pos 100) (pos 10) in
    All (IsCapped fixed allocator) targets
    × (less_eq fixed (sector_total fixed "unknown" targets) allocator.sector_cap ≡ true)
allocate-IsCapped_example =
    allocate-IsCapped fixed fixed-IsOrdered fixed-IsGroup fixed-IsOrderedGroup allocator
      (unfold new_portfolio_allocator in refl) opportunities (pos 100) (pos 10) "unknown"
