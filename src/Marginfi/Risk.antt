-- ===== src/Marginfi/Risk.antt =====
-- The initial health check of `RiskEngine`
-- (marginfi-v2/programs/marginfi/src/state/marginfi_account.rs). The prices come from oracle
-- accounts: loading the banks and weighing one balance is the argument `load`, and what it returns
-- for each active balance is a `BankAccountWithPrice`. The health cache, a record for clients, is
-- left out.
pub mod Tiers
pub mod Conditions
use bot_flash_loan.Prelude.{
  ℕ, ◌+◌, Bool, true, false, ◌||◌, List, [], ◌∷◌, Result, ok, err, check, ok_or, ◌>>=◌, ◌>>◌, ◌==◌,
  if◌then◌else◌, ltb,
}
use bot_flash_loan.Solana.{AccountInfo}
use bot_flash_loan.Marginfi.Error.{MarginfiError}
use bot_flash_loan.Marginfi.Fixed.{Fixed, I80F48, zero_fixed, leb_fixed}
use bot_flash_loan.Marginfi.Account.{
  MarginfiAccount, Balance, Failure, marginfi, liabilities, is_empty, get_flag,
  account_in_flashloan,
}

pub data RiskTier : Type 0 where
  collateral isolated : RiskTier

-- A balance with its bank's risk tier and `calc_weighted_value` at one requirement: the weighted
-- asset and liability values.
pub record BankAccountWithPrice : Type 0 where
  pub balance : Balance
  pub risk_tier : RiskTier
  pub weighted_value : Result Failure (I80F48 × I80F48)

abbrev pub math_error : Failure
math_error = marginfi MarginfiError.math_error

abbrev pub is_isolated : RiskTier → Bool
is_isolated collateral = false
is_isolated isolated = true

module _ (fx : Fixed) where
  unfoldable pub health_components_from :
      I80F48 → I80F48 → List BankAccountWithPrice → Result Failure (I80F48 × I80F48)
  health_components_from total_assets total_liabilities [] = ok (total_assets, total_liabilities)
  health_components_from total_assets total_liabilities (b ∷ bs) = do
    value ← b.weighted_value
    total_assets' ← ok_or (fx.checked_add total_assets value.0) math_error
    total_liabilities' ← ok_or (fx.checked_add total_liabilities value.1) math_error
    health_components_from total_assets' total_liabilities' bs

  unfoldable pub get_account_health_components :
      List BankAccountWithPrice → Result Failure (I80F48 × I80F48)
  unfolding health_components_from
  get_account_health_components = health_components_from zero_fixed zero_fixed

-- The loop of `check_account_risk_tiers` over the balances: how many isolated liabilities and how
-- many liabilities it has counted when it stops, which it does at the second isolated one.
unfoldable pub count_liabilities : ℕ → ℕ → List BankAccountWithPrice → ℕ × ℕ
count_liabilities isolated_count total [] = (isolated_count, total)
count_liabilities isolated_count total (b ∷ bs) =
    let skipped = count_liabilities isolated_count total bs in
    let plain = count_liabilities isolated_count (total + 1) bs in
    let counted = count_liabilities (isolated_count + 1) (total + 1) bs in
    if is_empty b.balance liabilities
    then skipped
    else if is_isolated b.risk_tier
    then if ltb 1 (isolated_count + 1) then (isolated_count + 1, total + 1) else counted
    else plain

unfoldable pub check_account_risk_tiers : List BankAccountWithPrice → Result Failure (Unit {0})
unfolding count_liabilities
check_account_risk_tiers bs =
    let counts = count_liabilities 0 0 bs in
    check (counts.0 == 0 || counts.1 == 1) (marginfi MarginfiError.isolated_account_illegal_state)

module _ (fx : Fixed)
    (load : MarginfiAccount → List AccountInfo → Result Failure (List BankAccountWithPrice)) where
  unfoldable pub check_account_health : List BankAccountWithPrice → Result Failure (Unit {0})
  check_account_health bs = do
    totals ← get_account_health_components fx bs
    check (leb_fixed totals.1 totals.0) (marginfi MarginfiError.risk_engine_init_rejected)
    check_account_risk_tiers bs

  unfoldable pub check_account_init_health :
      MarginfiAccount → List AccountInfo → Result Failure (Unit {0})
  check_account_init_health a remaining =
      if get_flag a account_in_flashloan then ok tt else load a remaining >>= check_account_health
