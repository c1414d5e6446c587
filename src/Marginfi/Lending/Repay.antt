-- ===== src/Marginfi/Lending/Repay.antt =====
-- The repay instruction, of
-- marginfi-v2/programs/marginfi/src/instructions/marginfi_account/repay.rs. Events are left out.
use bot_flash_loan.Prelude.{
  ℕ, Bool, true, not, Option, ◌&&◌, Result, ok, check, ok_or, ◌>>=◌, ◌>>◌, ◌==◌, if◌then◌else◌,
}
use bot_flash_loan.Prelude.Int.{ℤ, pos, ltb_ℤ}
use bot_flash_loan.Prelude.Machine.{as_u64}
use bot_flash_loan.Marginfi.Error.{MarginfiError}
use bot_flash_loan.Marginfi.Fixed.{Fixed, I80F48, zero_fixed}
use bot_flash_loan.Marginfi.Account
use bot_flash_loan.Marginfi.Account.{Failure, marginfi, panic, MarginfiAccount, account_disabled}
use bot_flash_loan.Marginfi.Bank
use bot_flash_loan.Marginfi.Bank.{Bank, update_flag}
use bot_flash_loan.Marginfi.Bank.Accrual.{accrue_interest, update_bank_cache}
use bot_flash_loan.Marginfi.Wrapper.{BankAccountWrapper}
use bot_flash_loan.Marginfi.Wrapper.Amounts.{repay}
use bot_flash_loan.Marginfi.Wrapper.All.{repay_all}
use bot_flash_loan.Marginfi.Wrapper.Slots.{find, set_balance}
use bot_flash_loan.Marginfi.Policy.{validate_bank_state, fails_in_paused_state}
use bot_flash_loan.Marginfi.Group.{program_fees_of}
use bot_flash_loan.Marginfi.Lending.{
  Accounts, Outside, try_lending_accounts, tokenless_repayments_allowed,
  tokenless_repayments_complete, wrap, pre_fee, sort_balances,
}

-- `ZERO_AMOUNT_THRESHOLD * 10`
abbrev pub purge_threshold : I80F48
purge_threshold = pos 281474976710

-- The risk admin may repay all of a balance without tokens where the bank allows it.
unfoldable pub is_tokenless : Accounts → Bank → Bool → Bool
is_tokenless a bank all =
    a.authority == a.group.risk_admin && Bank.get_flag bank tokenless_repayments_allowed && all

-- The check of the vault, and the transfer.
unfoldable pub deposit_spl_transfer :
    {M W : Type 0} → Outside M W → Accounts → Bank → ℕ → W → Result Failure W
deposit_spl_transfer env a bank amount tokens = do
  check (a.vault == bank.liquidity_vault) (marginfi MarginfiError.invalid_transfer)
  env.transfer a.wallet a.vault amount tokens

module _ (fx : Fixed) where
  unfoldable pub repay_some_or_all :
      ℕ → BankAccountWrapper → ℕ → Bool → Result Failure (BankAccountWrapper × ℕ)
  repay_some_or_all now w amount all =
      if all
      then repay_all fx now w
      else repay fx now w (fx.from_u64 amount) >>= (λ repaid. ok (repaid, amount))

  -- The last repayment in a bank that is wound up.
  unfoldable pub complete_repayments : Bank → Result Failure Bank
  complete_repayments b =
      if Bank.get_flag b tokenless_repayments_allowed
      then (do
        size ←
            (if ltb_ℤ b.total_liability_shares zero_fixed
              then ok_or (fx.neg b.total_liability_shares) panic
              else ok b.total_liability_shares)
        if ltb_ℤ size purge_threshold
            then update_flag b true tokenless_repayments_complete
            else ok b)
      else ok b

  module _ {M W : Type 0} (env : Outside M W) where
    unfoldable pub pay : Accounts → Option M → Bank → ℕ → Bool → W → Result Failure W
    pay a mint bank repay_amount_post_fee all tokens =
        if is_tokenless a bank all then ok tokens else do
          repay_amount_pre_fee ← pre_fee env mint repay_amount_post_fee
          deposit_spl_transfer env a bank repay_amount_pre_fee tokens

    unfoldable pub lending_account_repay :
        ℤ → Accounts → ℕ → Bool → W → Result Failure (MarginfiAccount × Bank × W)
    lending_account_repay now a amount all tokens = do
      try_lending_accounts now a true
      taken ← env.maybe_take_bank_mint a.bank a.remaining_accounts
      check (not (Account.get_flag a.marginfi_account account_disabled))
          (marginfi MarginfiError.account_disabled)
      validate_bank_state a.bank fails_in_paused_state
      accrued ← accrue_interest fx now (program_fees_of a.group) a.bank
      i ← find a.bank_key a.marginfi_account.balances
      w ← wrap accrued a.marginfi_account.balances i
      repaid ← repay_some_or_all (as_u64 now) w amount all
      tokens' ← pay a taken.0 repaid.0.bank repaid.1 all tokens
      completed ← complete_repayments repaid.0.bank
      cached ← update_bank_cache fx now (program_fees_of a.group) completed
      ok (
        record a.marginfi_account {
          balances = sort_balances (set_balance a.marginfi_account.balances i repaid.0.balance);
          last_update = as_u64 now;
        },
        cached,
        tokens',
      )
