-- ===== src/Safety/Passes.antt =====
-- What holds when the checks pass.
use opensqt_market_maker.Common.{
  refl, ◌≡◌, ◌⊎◌, inl, inr, true, false, Bool-cases, Option, none, some, List, arith,
}
use opensqt_market_maker.Common.Int.{ℤ, pos, leb_ℤ}
use opensqt_market_maker.Common.Assoc.{string_eq}
use opensqt_market_maker.Num.{Num, less_eq, is_zero}
use opensqt_market_maker.Pb.{Account, Position}
use opensqt_market_maker.Pb.Convert.{to_go_decimal}
use opensqt_market_maker.Safety.{
  Check, existing_size, clamp_positions, safe_max_positions, calculate_max_positions, net_profit,
  check_account, with_account, check_account_safety,
}

clamp_positions-le : (k : ℤ) → leb_ℤ (clamp_positions k) (pos 1000) ≡ true
unfolding clamp_positions
clamp_positions-le k = ground arith

module _ (n : Num) where
  open n use {D, zero}

  -- An account on which a check may pass.
  pub record IsSafe (c : Check D) (account : Account) : Type 0 where
    pub solvent : less_eq n (to_go_decimal n account.available_balance) zero ≡ false
    pub moderate : leb_ℤ account.account_leverage (pos 10) ≡ true
    pub enough :
        leb_ℤ c.required_positions (
          calculate_max_positions n
            (to_go_decimal n account.available_balance)
            account.account_leverage
            c.order_amount)
        ≡ true
    pub few : leb_ℤ c.required_positions (pos 1000) ≡ true
    pub profitable :
        less_eq n (net_profit n c.current_price c.price_interval c.fee_rate) zero ≡ false
    pub decimals_low : leb_ℤ (pos 0) c.price_decimals ≡ true
    pub decimals_high : leb_ℤ c.price_decimals (pos 8) ≡ true

  max_positions-le :
      (balance : D) (leverage : ℤ) (amount : D)
      → leb_ℤ (calculate_max_positions n balance leverage amount) (pos 1000) ≡ true
  unfolding calculate_max_positions
  max_positions-le balance leverage amount = elim (Bool-cases (is_zero n amount)) [
    | inl z ↦ rw z refl
    | inr z ↦ rw z (clamp_positions-le (safe_max_positions n balance leverage amount))
  ]

  check_account-IsSafe :
      (c : Check D) (account : Account) → check_account n c account ≡ none → IsSafe c account
  unfolding check_account
  check_account-IsSafe c account e =
      let most =
        max_positions-le (to_go_decimal n account.available_balance) account.account_leverage
          c.order_amount in
      record {
        solvent = ground arith;
        moderate = ground arith;
        enough = ground arith;
        few = ground (arith, most);
        profitable = ground arith;
        decimals_low = ground arith;
        decimals_high = ground arith;
      }

  with_account-IsSafe :
      (c : Check D) (account : Option Account)
      → with_account n c account ≡ none
      → (a : Account) × (account ≡ some a) × IsSafe c a
  unfolding with_account
  with_account-IsSafe c none e = absurd (ground arith)
  with_account-IsSafe c (some a) e = (a, refl, check_account-IsSafe c a e)

  -- If CheckAccountSafety passes, then the account has a position of the symbol already, or it is
  -- safe: its balance is positive, its leverage at most 10, the positions that are required are no
  -- more than the balance allows and no more than 1000, a trade makes a profit after its fees, and
  -- the price has 0 to 8 decimals.
  pub check_account_safety-IsSafe :
      (c : Check D) (positions : Option (List Position)) (account : Option Account)
      → check_account_safety n c positions account ≡ none
      → (ps : List Position) × (positions ≡ some ps)
        × ((is_zero n (existing_size n c.symbol ps zero) ≡ false)
            ⊎ ((a : Account) × (account ≡ some a) × IsSafe c a))
  unfolding check_account_safety
  check_account_safety-IsSafe c none account e = absurd (ground arith)
  check_account_safety-IsSafe c (some ps) account e = (
    ps,
    refl,
    elim (Bool-cases (is_zero n (existing_size n c.symbol ps zero))) [
      | inl z ↦ inr (with_account-IsSafe c account (ground (arith, z)))
      | inr z ↦ inl z
    ],
  )
