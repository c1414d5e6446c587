-- ===== src/Marginfi/Lending/Borrow.antt =====
-- The borrow instruction, of
-- marginfi-v2/programs/marginfi/src/instructions/marginfi_account/borrow.rs. Events (but for the
-- sum that one of them computes) and the health cache, which only clients read, are left out.
use bot_flash_loan.Prelude.{
  ℕ, ◌+◌, leb, List, false, not, ◌&&◌, Result, ok, check, ok_or, ◌>>=◌, ◌>>◌, if◌then◌else◌,
}
use bot_flash_loan.Prelude.Int.{ℤ}
use bot_flash_loan.Prelude.Machine.{as_u64}
use bot_flash_loan.Solana.{AccountInfo}
use bot_flash_loan.Marginfi.Error.{MarginfiError}
use bot_flash_loan.Marginfi.Fixed.{Fixed, I80F48, zero_fixed, eq_fixed}
use bot_flash_loan.Marginfi.Account
use bot_flash_loan.Marginfi.Account.{
  Failure, marginfi, panic, MarginfiAccount, Balance, account_disabled, account_in_receivership,
}
use bot_flash_loan.Marginfi.Risk.{math_error, check_account_init_health}
use bot_flash_loan.Marginfi.Bank
use bot_flash_loan.Marginfi.Bank.{Bank, u64_max}
use bot_flash_loan.Marginfi.Bank.Accrual.{accrue_interest, update_bank_cache, update_cache_price}
use bot_flash_loan.Marginfi.Wrapper.{BankAccountWrapper}
use bot_flash_loan.Marginfi.Wrapper.Amounts.{borrow}
use bot_flash_loan.Marginfi.Wrapper.Slots.{find_or_create, set_balance}
use bot_flash_loan.Marginfi.Policy.{
  validate_asset_tags, validate_bank_state, fails_if_paused_or_reduce_state,
}
use bot_flash_loan.Marginfi.Group.{program_fees_of}
use bot_flash_loan.Marginfi.Lending.{
  Accounts, Outside, try_lending_accounts, tokenless_repayments_allowed, wrap, pre_fee,
  sort_balances,
}

module _ (fx : Fixed) where
  -- The balance after borrowing the amount with the origination fee, and that fee.
  unfoldable pub borrow_with_fee :
      ℕ → BankAccountWrapper → ℕ → Result Failure (BankAccountWrapper × I80F48)
  borrow_with_fee now w amount =
      if not (eq_fixed w.bank.config.interest_rate_config.protocol_origination_fee zero_fixed)
      then (do
        origination_fee ←
            ok_or
              (fx.checked_mul (fx.from_u64 amount)
                w.bank.config.interest_rate_config.protocol_origination_fee)
              math_error
        origination_fee_u64 ← ok_or (fx.checked_to_u64 origination_fee) math_error
        total ← ok_or (fx.checked_add (fx.from_u64 amount) origination_fee) panic
        borrowed ← borrow fx now w total
        ok (borrowed, origination_fee))
      else borrow fx now w (fx.from_u64 amount) >>= (λ borrowed. ok (borrowed, zero_fixed))

  -- The amount of the event; a sum that is not a `u64` panics.
  unfoldable pub event_amount : ℕ → I80F48 → Result Failure ℕ
  event_amount amount_pre_fee origination_fee = do
    origination_fee_u64 ←
        (if eq_fixed origination_fee zero_fixed
          then ok 0
          else ok_or (fx.checked_to_u64 origination_fee) math_error)
    check (leb (amount_pre_fee + origination_fee_u64) u64_max) panic
    ok (amount_pre_fee + origination_fee_u64)

  -- The program and the group share the origination fee.
  unfoldable pub share_fee : I80F48 → I80F48 → Bank → Result Failure Bank
  share_fee origination_fee program_fee_rate b =
      if eq_fixed origination_fee zero_fixed
      then ok b
      else if not (eq_fixed program_fee_rate zero_fixed)
      then (do
        program_fee_amount ← ok_or (fx.checked_mul origination_fee program_fee_rate) math_error
        ok (record b {
          collected_group_fees_outstanding =
              fx.saturating_add b.collected_group_fees_outstanding
                (fx.saturating_sub origination_fee program_fee_amount);
          collected_program_fees_outstanding =
              fx.saturating_add b.collected_program_fees_outstanding program_fee_amount;
        }))
      else ok (record b {
        collected_group_fees_outstanding =
            fx.saturating_add b.collected_group_fees_outstanding origination_fee;
      })

  module _ {M W : Type 0} (env : Outside M W) where
    -- What follows the change of the balance `place`: the transfer, the fees, the health check.
    unfoldable pub settle_borrow :
        ℤ
        → Accounts
        → List AccountInfo
        → ℕ × List Balance
        → ℕ
        → BankAccountWrapper × I80F48
        → W
        → Result Failure (MarginfiAccount × Bank × W)
    settle_borrow now a remaining place amount_pre_fee borrowed tokens = do
      tokens' ← env.transfer a.vault a.wallet amount_pre_fee tokens
      amount_of_event ← event_amount amount_pre_fee borrowed.1
      bank ← share_fee borrowed.1 a.group.fee_state_cache.program_fee_rate borrowed.0.bank
      let account : MarginfiAccount = record a.marginfi_account {
        balances = sort_balances (set_balance place.1 place.0 borrowed.0.balance);
        last_update = as_u64 now;
      }
      check_account_init_health fx env.load account remaining
      cached ← update_bank_cache fx now (program_fees_of a.group) bank
      ok (account, update_cache_price now (env.price account remaining a.bank_key) cached, tokens')

    unfoldable pub lending_account_borrow :
        ℤ → Accounts → ℕ → W → Result Failure (MarginfiAccount × Bank × W)
    lending_account_borrow now a amount tokens = do
      try_lending_accounts now a false
      check (not (Bank.get_flag a.bank tokenless_repayments_allowed))
          (marginfi MarginfiError.forbidden_ix)
      taken ← env.maybe_take_bank_mint a.bank a.remaining_accounts
      check
          (not (Account.get_flag a.marginfi_account account_disabled)
            && not (Account.get_flag a.marginfi_account account_in_receivership))
          (marginfi MarginfiError.account_disabled)
      accrued ← accrue_interest fx now (program_fees_of a.group) a.bank
      validate_asset_tags accrued a.marginfi_account.balances
      validate_bank_state accrued fails_if_paused_or_reduce_state
      place ← find_or_create (as_u64 now) a.bank_key accrued a.marginfi_account.balances
      w ← wrap accrued place.1 place.0
      amount_pre_fee ← pre_fee env taken.0 amount
      borrowed ← borrow_with_fee (as_u64 now) w amount_pre_fee
      settle_borrow now a taken.1 place amount_pre_fee borrowed tokens
