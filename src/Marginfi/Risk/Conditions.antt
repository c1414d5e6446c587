-- ===== src/Marginfi/Risk/Conditions.antt =====
-- The checks of `RiskEngine` around liquidation and bankruptcy, with `calc_value` and `calc_amount`,
-- of marginfi-v2/programs/marginfi/src/state/marginfi_account.rs. The checks are given the balances
-- of the account as they are weighed at the requirement that they ask for.
use bot_flash_loan.Prelude.{
  ℕ, Bool, not, ◌&&◌, List, [], ◌∷◌, Option, none, some, Result, ok, check, ok_or, ◌>>=◌, ◌>>◌,
  ◌==◌, if◌then◌else◌,
}
use bot_flash_loan.Prelude.Int.{pos, ltb_ℤ}
use bot_flash_loan.Solana.{Pubkey}
use bot_flash_loan.Marginfi.Error.{MarginfiError}
use bot_flash_loan.Marginfi.Fixed.{
  Fixed, I80F48, zero_fixed, zero_amount_threshold, leb_fixed, eq_fixed,
}
use bot_flash_loan.Marginfi.Account.{
  MarginfiAccount, Failure, marginfi, panic, assets, liabilities, is_empty, get_flag,
  account_in_flashloan,
}
use bot_flash_loan.Marginfi.Risk.{BankAccountWithPrice, math_error, get_account_health_components}
use bot_flash_loan.Marginfi.Bank.{exp_10_fixed}

-- `BANKRUPT_THRESHOLD`, 0.1 to the nearest 2 ^ -48.
abbrev pub bankrupt_threshold : I80F48
bankrupt_threshold = pos 28147497671066

unfoldable pub find_bank : Pubkey → List BankAccountWithPrice → Option BankAccountWithPrice
find_bank bank_pk [] = none
find_bank bank_pk (b ∷ bs) =
    let later = find_bank bank_pk bs in if b.balance.bank_pk == bank_pk then some b else later

-- The check at the start of `RiskEngine::new`, which the conditions repeat.
unfoldable pub check_not_in_flashloan : MarginfiAccount → Result Failure (Unit {0})
check_not_in_flashloan a =
    check (not (get_flag a account_in_flashloan)) (marginfi MarginfiError.account_in_flashloan)

-- The conditions on the liability that is liquidated.
unfoldable pub check_liability :
    Option Pubkey → List BankAccountWithPrice → Result Failure (Unit {0})
check_liability none bs = ok tt
check_liability (some bank_pk) bs = do
  b ← ok_or (find_bank bank_pk bs) (marginfi MarginfiError.lending_account_balance_not_found)
  check (not (is_empty b.balance liabilities))
      (marginfi MarginfiError.no_liabilities_in_liability_bank)
  check (is_empty b.balance assets) (marginfi MarginfiError.assets_in_liability_bank)

module _ (fx : Fixed) where
  -- A product that does not fit with the weight panics; a mint with 24 or more decimals does too.
  unfoldable pub calc_value : I80F48 → I80F48 → ℕ → Option I80F48 → Result Failure I80F48
  calc_value amount price mint_decimals weight =
      if eq_fixed amount zero_fixed then ok zero_fixed else do
        scaling_factor ← exp_10_fixed mint_decimals
        weighted_asset_amount ← (elim weight [
          | none ↦ ok amount
          | some w ↦ ok_or (fx.checked_mul amount w) panic
        ])
        value ← ok_or (fx.checked_mul weighted_asset_amount price) math_error
        ok_or (fx.checked_div value scaling_factor) math_error

  unfoldable pub calc_amount : I80F48 → I80F48 → ℕ → Result Failure I80F48
  calc_amount value price mint_decimals = do
    scaling_factor ← exp_10_fixed mint_decimals
    scaled ← ok_or (fx.checked_mul value scaling_factor) math_error
    ok_or (fx.checked_div scaled price) math_error

  -- The weighted assets less the weighted liabilities, with both.
  unfoldable pub account_health :
      List BankAccountWithPrice → Result Failure (I80F48 × I80F48 × I80F48)
  account_health bs = do
    totals ← get_account_health_components fx bs
    health ← ok_or (fx.checked_sub totals.0 totals.1) math_error
    ok (health, totals.0, totals.1)

  unfoldable pub check_pre_liquidation_condition_and_get_account_health :
      MarginfiAccount
      → Option Pubkey
      → Bool
      → List BankAccountWithPrice
      → Result Failure (I80F48 × I80F48 × I80F48)
  check_pre_liquidation_condition_and_get_account_health a bank_pk ignore_healthy bs = do
    check_not_in_flashloan a
    check_liability bank_pk bs
    health ← account_health bs
    check (not (ltb_ℤ zero_fixed health.0 && not ignore_healthy))
        (marginfi MarginfiError.healthy_account)
    ok health

  unfoldable pub check_post_liquidation_condition_and_get_account_health :
      MarginfiAccount → Pubkey → I80F48 → List BankAccountWithPrice → Result Failure I80F48
  check_post_liquidation_condition_and_get_account_health a bank_pk pre_liquidation_health bs = do
    check_not_in_flashloan a
    b ← ok_or (find_bank bank_pk bs) panic
    check (not (is_empty b.balance liabilities)) (marginfi MarginfiError.exhausted_liability)
    check (is_empty b.balance assets) (marginfi MarginfiError.too_severe_payoff)
    health ← account_health bs
    check (leb_fixed health.0 zero_fixed) (marginfi MarginfiError.too_severe_liquidation)
    check (not (leb_fixed health.0 pre_liquidation_health))
        (marginfi MarginfiError.worse_health_post_liquidation)
    ok health.0

  unfoldable pub check_account_bankrupt :
      MarginfiAccount → List BankAccountWithPrice → Result Failure (I80F48 × I80F48)
  check_account_bankrupt a bs = do
    totals ← get_account_health_components fx bs
    check_not_in_flashloan a
    check (ltb_ℤ totals.0 totals.1) (marginfi MarginfiError.account_not_bankrupt)
    check (ltb_ℤ totals.0 bankrupt_threshold && ltb_ℤ zero_amount_threshold totals.1)
        (marginfi MarginfiError.account_not_bankrupt)
    ok totals
