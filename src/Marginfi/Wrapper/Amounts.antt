-- ===== src/Marginfi/Wrapper/Amounts.antt =====
-- The changes of one balance by an amount: `increase_balance_internal` and
-- `decrease_balance_internal` of marginfi-v2/programs/marginfi/src/state/marginfi_account.rs, and the
-- primitives on top of them.
use bot_flash_loan.Prelude.{
  ℕ, Bool, true, false, not, ◌&&◌, Result, ok, check, ok_or, ◌>>=◌, ◌>>◌, if◌then◌else◌,
}
use bot_flash_loan.Marginfi.Error.{MarginfiError}
use bot_flash_loan.Marginfi.Fixed.{Fixed, I80F48, zero_fixed, min_fixed, max_fixed}
use bot_flash_loan.Marginfi.Account.{Failure, marginfi, panic}
use bot_flash_loan.Marginfi.Risk.{math_error}
use bot_flash_loan.Marginfi.Bank
use bot_flash_loan.Marginfi.Bank.{
  Bank, get_asset_amount, get_liability_amount, get_asset_shares, get_liability_shares,
  check_utilization_ratio, saturating_inc, saturating_dec,
}
use bot_flash_loan.Marginfi.Wrapper.{
  BankAccountWrapper, is_positive_with_tolerance, is_zero_with_tolerance, change_asset_shares,
  change_liability_shares, claim_emissions,
}

-- `BalanceIncreaseType` has a fourth constructor, `Any`, which no caller uses.
pub data BalanceIncreaseType : Type 0 where
  any repay_only deposit_only bypass_deposit_limit : BalanceIncreaseType

pub data BalanceDecreaseType : Type 0 where
  withdraw_only borrow_only bypass_borrow_limit : BalanceDecreaseType

abbrev pub is_bypass_deposit_limit : BalanceIncreaseType → Bool
is_bypass_deposit_limit bypass_deposit_limit = true
is_bypass_deposit_limit any = false
is_bypass_deposit_limit repay_only = false
is_bypass_deposit_limit deposit_only = false

abbrev pub is_bypass_borrow_limit : BalanceDecreaseType → Bool
is_bypass_borrow_limit bypass_borrow_limit = true
is_bypass_borrow_limit withdraw_only = false
is_bypass_borrow_limit borrow_only = false

-- The position counts of the bank after the balance went from `had` to `has`.
unfoldable pub count_positions : Bool → Bool → Bool → Bool → Bank → Bank
count_positions had_assets has_assets had_liabs has_liabs b =
    let lending =
      if not had_assets && has_assets
      then saturating_inc b.lending_position_count
      else if had_assets && not has_assets
      then saturating_dec b.lending_position_count
      else b.lending_position_count in
    let borrowing =
      if not had_liabs && has_liabs
      then saturating_inc b.borrowing_position_count
      else if had_liabs && not has_liabs
      then saturating_dec b.borrowing_position_count
      else b.borrowing_position_count in
    record b { lending_position_count = lending; borrowing_position_count = borrowing }

module _ (fx : Fixed) where
  -- The same shares to the balance and to the total of its bank.
  unfoldable pub shift_asset_shares :
      BankAccountWrapper → I80F48 → Bool → Result Failure BankAccountWrapper
  shift_asset_shares w shares bypass = do
    balance ← change_asset_shares fx w.balance shares
    bank ← Bank.change_asset_shares fx w.bank shares bypass
    ok (record { balance = balance; bank = bank })

  unfoldable pub shift_liability_shares :
      BankAccountWrapper → I80F48 → Bool → Result Failure BankAccountWrapper
  shift_liability_shares w shares bypass = do
    balance ← change_liability_shares fx w.balance shares
    bank ← Bank.change_liability_shares fx w.bank shares bypass
    ok (record { balance = balance; bank = bank })

  abbrev pub recount : BankAccountWrapper → BankAccountWrapper → BankAccountWrapper
  recount before w = record w {
    bank =
        count_positions (is_positive_with_tolerance before.balance.asset_shares)
          (is_positive_with_tolerance w.balance.asset_shares)
          (is_positive_with_tolerance before.balance.liability_shares)
          (is_positive_with_tolerance w.balance.liability_shares) w.bank;
  }

  unfoldable pub check_increase : BalanceIncreaseType → I80F48 → I80F48 → Result Failure (Unit {0})
  check_increase repay_only liability_decrease asset_increase = do
    zero ← is_zero_with_tolerance fx asset_increase
    check zero (marginfi MarginfiError.operation_repay_only)
  check_increase deposit_only liability_decrease asset_increase = do
    zero ← is_zero_with_tolerance fx liability_decrease
    check zero (marginfi MarginfiError.operation_deposit_only)
  check_increase any liability_decrease asset_increase = ok tt
  check_increase bypass_deposit_limit liability_decrease asset_increase = ok tt

  unfoldable pub check_decrease : BalanceDecreaseType → I80F48 → I80F48 → Result Failure (Unit {0})
  check_decrease withdraw_only asset_decrease liability_increase = do
    zero ← is_zero_with_tolerance fx liability_increase
    check zero (marginfi MarginfiError.operation_withdraw_only)
  check_decrease borrow_only asset_decrease liability_increase = do
    zero ← is_zero_with_tolerance fx asset_decrease
    check zero (marginfi MarginfiError.operation_borrow_only)
  check_decrease bypass_borrow_limit asset_decrease liability_increase = ok tt

  -- Only liquidation bypasses the check.
  unfoldable pub check_utilization :
      BalanceDecreaseType → BankAccountWrapper → Result Failure (Unit {0})
  check_utilization kind w =
      if is_bypass_borrow_limit kind then ok tt else check_utilization_ratio fx w.bank

  unfoldable pub increase_balance_internal :
      ℕ → BankAccountWrapper → I80F48 → BalanceIncreaseType → Result Failure BankAccountWrapper
  increase_balance_internal now w balance_delta operation_type = do
    claimed ← claim_emissions fx now w
    owed ← get_liability_amount fx claimed.bank claimed.balance.liability_shares
    over ← ok_or (fx.checked_sub balance_delta owed) math_error
    check_increase operation_type (min_fixed owed balance_delta) (max_fixed over zero_fixed)
    asset_shares_increase ← get_asset_shares fx claimed.bank (max_fixed over zero_fixed)
    deposited ←
        shift_asset_shares claimed asset_shares_increase (is_bypass_deposit_limit operation_type)
    liability_shares ← get_liability_shares fx deposited.bank (min_fixed owed balance_delta)
    liability_shares_decrease ← ok_or (fx.neg liability_shares) panic
    repaid ← shift_liability_shares deposited liability_shares_decrease true
    ok (recount claimed repaid)

  unfoldable pub decrease_balance_internal :
      ℕ → BankAccountWrapper → I80F48 → BalanceDecreaseType → Result Failure BankAccountWrapper
  decrease_balance_internal now w balance_delta operation_type = do
    claimed ← claim_emissions fx now w
    owned ← get_asset_amount fx claimed.bank claimed.balance.asset_shares
    over ← ok_or (fx.checked_sub balance_delta owned) math_error
    check_decrease operation_type (min_fixed owned balance_delta) (max_fixed over zero_fixed)
    asset_shares ← get_asset_shares fx claimed.bank (min_fixed owned balance_delta)
    asset_shares_decrease ← ok_or (fx.neg asset_shares) panic
    withdrawn ← shift_asset_shares claimed asset_shares_decrease false
    liability_shares_increase ← get_liability_shares fx withdrawn.bank (max_fixed over zero_fixed)
    borrowed ←
        shift_liability_shares withdrawn liability_shares_increase
          (is_bypass_borrow_limit operation_type)
    check_utilization operation_type borrowed
    ok (recount claimed borrowed)

  unfoldable pub deposit : ℕ → BankAccountWrapper → I80F48 → Result Failure BankAccountWrapper
  deposit now w amount = increase_balance_internal now w amount deposit_only

  unfoldable pub deposit_no_repay :
      ℕ → BankAccountWrapper → I80F48 → Result Failure BankAccountWrapper
  deposit_no_repay now w amount = increase_balance_internal now w amount deposit_only

  unfoldable pub repay : ℕ → BankAccountWrapper → I80F48 → Result Failure BankAccountWrapper
  repay now w amount = increase_balance_internal now w amount repay_only

  unfoldable pub withdraw : ℕ → BankAccountWrapper → I80F48 → Result Failure BankAccountWrapper
  withdraw now w amount = decrease_balance_internal now w amount withdraw_only

  unfoldable pub borrow : ℕ → BankAccountWrapper → I80F48 → Result Failure BankAccountWrapper
  borrow now w amount = decrease_balance_internal now w amount borrow_only

  unfoldable pub deposit_ignore_deposit_cap :
      ℕ → BankAccountWrapper → I80F48 → Result Failure BankAccountWrapper
  deposit_ignore_deposit_cap now w amount =
      increase_balance_internal now w amount bypass_deposit_limit

  unfoldable pub withdraw_ignore_borrow_cap :
      ℕ → BankAccountWrapper → I80F48 → Result Failure BankAccountWrapper
  withdraw_ignore_borrow_cap now w amount =
      decrease_balance_internal now w amount bypass_borrow_limit
