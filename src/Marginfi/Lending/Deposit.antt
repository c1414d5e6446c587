-- ===== src/Marginfi/Lending/Deposit.antt =====
-- The deposit instruction, of
-- marginfi-v2/programs/marginfi/src/instructions/marginfi_account/deposit.rs. Events are left out.
use bot_flash_loan.Prelude.{
  ℕ, min, Bool, false, not, ◌&&◌, Option, Result, ok, check, ◌>>=◌, ◌>>◌, ◌==◌, if◌then◌else◌,
}
use bot_flash_loan.Prelude.Int.{ℤ}
use bot_flash_loan.Prelude.Machine.{as_u64}
use bot_flash_loan.Marginfi.Error.{MarginfiError}
use bot_flash_loan.Marginfi.Fixed.{Fixed}
use bot_flash_loan.Marginfi.Account
use bot_flash_loan.Marginfi.Account.{
  Failure, marginfi, MarginfiAccount, account_disabled, account_in_receivership,
}
use bot_flash_loan.Marginfi.Bank
use bot_flash_loan.Marginfi.Bank.{Bank, get_remaining_deposit_capacity}
use bot_flash_loan.Marginfi.Bank.Accrual.{accrue_interest, update_bank_cache}
use bot_flash_loan.Marginfi.Wrapper.Amounts.{deposit}
use bot_flash_loan.Marginfi.Wrapper.Slots.{find_or_create, set_balance}
use bot_flash_loan.Marginfi.Policy.{
  validate_asset_tags, validate_bank_state, fails_if_paused_or_reduce_state,
}
use bot_flash_loan.Marginfi.Group.{program_fees_of}
use bot_flash_loan.Marginfi.Lending.{
  Accounts, Outside, try_lending_accounts, tokenless_repayments_allowed, wrap, pre_fee,
  sort_balances,
}
use bot_flash_loan.Marginfi.Lending.Repay.{deposit_spl_transfer}

module _ (fx : Fixed) where
  unfoldable pub deposit_amount : Bank → ℕ → Bool → Result Failure ℕ
  deposit_amount b amount deposit_up_to_limit =
      if deposit_up_to_limit
      then get_remaining_deposit_capacity fx b >>= (λ capacity. ok (min amount capacity))
      else ok amount

  module _ {M W : Type 0} (env : Outside M W) where
    -- What follows the early return for an amount of zero.
    unfoldable pub deposit_some :
        ℤ → Accounts → Option M → ℕ → W → Result Failure (MarginfiAccount × Bank × W)
    deposit_some now a mint amount tokens = do
      accrued ← accrue_interest fx now (program_fees_of a.group) a.bank
      place ← find_or_create (as_u64 now) a.bank_key accrued a.marginfi_account.balances
      w ← wrap accrued place.1 place.0
      deposited ← deposit fx (as_u64 now) w (fx.from_u64 amount)
      amount_pre_fee ← pre_fee env mint amount
      tokens' ← deposit_spl_transfer env a deposited.bank amount_pre_fee tokens
      cached ← update_bank_cache fx now (program_fees_of a.group) deposited.bank
      ok (
        record a.marginfi_account {
          balances = sort_balances (set_balance place.1 place.0 deposited.balance);
          last_update = as_u64 now;
        },
        cached,
        tokens',
      )

    unfoldable pub lending_account_deposit :
        ℤ → Accounts → ℕ → Bool → W → Result Failure (MarginfiAccount × Bank × W)
    lending_account_deposit now a amount deposit_up_to_limit tokens = do
      try_lending_accounts now a false
      check (not (Bank.get_flag a.bank tokenless_repayments_allowed))
          (marginfi MarginfiError.bank_reduce_only)
      taken ← env.maybe_take_bank_mint a.bank a.remaining_accounts
      validate_asset_tags a.bank a.marginfi_account.balances
      validate_bank_state a.bank fails_if_paused_or_reduce_state
      check
          (not (Account.get_flag a.marginfi_account account_disabled)
            && not (Account.get_flag a.marginfi_account account_in_receivership))
          (marginfi MarginfiError.account_disabled)
      due ← deposit_amount a.bank amount deposit_up_to_limit
      if due == 0
          then ok (a.marginfi_account, a.bank, tokens)
          else deposit_some now a taken.0 due tokens
