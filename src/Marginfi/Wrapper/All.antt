-- ===== src/Marginfi/Wrapper/All.antt =====
-- Withdrawing, repaying and closing a balance in full: `withdraw_all`, `repay_all` and
-- `close_balance` of marginfi-v2/programs/marginfi/src/state/marginfi_account.rs.
use bot_flash_loan.Prelude.{ℕ, true, false, Result, ok, check, ok_or, ◌>>=◌, ◌>>◌}
use bot_flash_loan.Marginfi.Error.{MarginfiError}
use bot_flash_loan.Marginfi.Fixed.{Fixed, I80F48}
use bot_flash_loan.Marginfi.Account.{Failure, marginfi, panic}
use bot_flash_loan.Marginfi.Risk.{math_error}
use bot_flash_loan.Marginfi.Bank.{
  Bank, get_asset_amount, get_liability_amount, change_asset_shares, change_liability_shares,
  check_utilization_ratio, saturating_dec,
}
use bot_flash_loan.Marginfi.Wrapper.{
  BankAccountWrapper, is_positive_with_tolerance, is_zero_with_tolerance, close, claim_emissions,
}

-- `decrement_lending_position_count` and `decrement_borrowing_position_count`.
abbrev pub decrement_lending_position_count : Bank → Bank
decrement_lending_position_count b = record b {
  lending_position_count = saturating_dec b.lending_position_count;
}

abbrev pub decrement_borrowing_position_count : Bank → Bank
decrement_borrowing_position_count b = record b {
  borrowing_position_count = saturating_dec b.borrowing_position_count;
}

module _ (fx : Fixed) where
  -- What rounding to whole tokens leaves goes to the insurance fund.
  unfoldable pub collect_insurance_fees : Bank → I80F48 → I80F48 → Result Failure Bank
  collect_insurance_fees b more less = do
    dust ← ok_or (fx.checked_sub more less) math_error
    fees ← ok_or (fx.checked_add dust b.collected_insurance_fees_outstanding) math_error
    ok (record b { collected_insurance_fees_outstanding = fees })

  unfoldable pub withdraw_all : ℕ → BankAccountWrapper → Result Failure (BankAccountWrapper × ℕ)
  withdraw_all now w = do
    claimed ← claim_emissions fx now w
    asset_amount ← get_asset_amount fx claimed.bank claimed.balance.asset_shares
    liability_amount ← get_liability_amount fx claimed.bank claimed.balance.liability_shares
    check (is_positive_with_tolerance asset_amount) (marginfi MarginfiError.no_asset_found)
    no_debt ← is_zero_with_tolerance fx liability_amount
    check no_debt (marginfi MarginfiError.no_asset_found)
    closed ← close fx claimed.balance true
    shares ← ok_or (fx.neg claimed.balance.asset_shares) panic
    bank ← change_asset_shares fx (decrement_lending_position_count claimed.bank) shares false
    check_utilization_ratio fx bank
    spl_withdraw_amount ← ok_or (fx.checked_floor asset_amount) math_error
    collected ← collect_insurance_fees bank asset_amount spl_withdraw_amount
    amount ← ok_or (fx.checked_to_u64 spl_withdraw_amount) math_error
    ok (record { balance = closed; bank = collected }, amount)

  unfoldable pub repay_all : ℕ → BankAccountWrapper → Result Failure (BankAccountWrapper × ℕ)
  repay_all now w = do
    claimed ← claim_emissions fx now w
    liability_amount ← get_liability_amount fx claimed.bank claimed.balance.liability_shares
    asset_amount ← get_asset_amount fx claimed.bank claimed.balance.asset_shares
    check (is_positive_with_tolerance liability_amount) (marginfi MarginfiError.no_liability_found)
    no_assets ← is_zero_with_tolerance fx asset_amount
    check no_assets (marginfi MarginfiError.no_liability_found)
    closed ← close fx claimed.balance true
    shares ← ok_or (fx.neg claimed.balance.liability_shares) panic
    bank ← change_liability_shares fx (decrement_borrowing_position_count claimed.bank) shares false
    spl_deposit_amount ← ok_or (fx.checked_ceil liability_amount) math_error
    collected ← collect_insurance_fees bank spl_deposit_amount liability_amount
    amount ← ok_or (fx.checked_to_u64 spl_deposit_amount) math_error
    ok (record { balance = closed; bank = collected }, amount)

  unfoldable pub close_balance : ℕ → BankAccountWrapper → Result Failure BankAccountWrapper
  close_balance now w = do
    claimed ← claim_emissions fx now w
    liability_amount ← get_liability_amount fx claimed.bank claimed.balance.liability_shares
    asset_amount ← get_asset_amount fx claimed.bank claimed.balance.asset_shares
    no_debt ← is_zero_with_tolerance fx liability_amount
    check no_debt (marginfi MarginfiError.illegal_balance_state)
    no_assets ← is_zero_with_tolerance fx asset_amount
    check no_assets (marginfi MarginfiError.illegal_balance_state)
    closed ← close fx claimed.balance true
    ok (record claimed { balance = closed })
