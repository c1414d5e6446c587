-- ===== src/Marginfi/Bankruptcy.antt =====
-- Settling the debt of a bankrupt account, of
-- marginfi-v2/programs/marginfi/src/instructions/marginfi_group/handle_bankruptcy.rs. Events and the
-- health cache are left out.
pub mod Settled
use bot_flash_loan.Prelude.{
  ℕ, Bool, true, false, not, ◌||◌, List, Option, none, some, Result, ok, check, ok_or, ◌>>=◌, ◌>>◌,
  ◌==◌, if◌then◌else◌,
}
use bot_flash_loan.Prelude.Int.{ℤ, ltb_ℤ}
use bot_flash_loan.Prelude.Machine.{as_u64}
use bot_flash_loan.Solana.{AccountInfo, Pubkey}
use bot_flash_loan.Marginfi.Error.{MarginfiError}
use bot_flash_loan.Marginfi.Fixed.{
  Fixed, I80F48, zero_fixed, zero_amount_threshold, min_fixed, max_fixed,
}
use bot_flash_loan.Marginfi.Account
use bot_flash_loan.Marginfi.Account.{
  Failure, marginfi, panic, MarginfiAccount, set_flag, account_disabled, account_in_receivership,
  account_in_flashloan,
}
use bot_flash_loan.Marginfi.Risk.{BankAccountWithPrice, math_error}
use bot_flash_loan.Marginfi.Risk.Conditions.{check_not_in_flashloan, check_account_bankrupt}
use bot_flash_loan.Marginfi.Bank
use bot_flash_loan.Marginfi.Bank.{Bank, killed_by_bankruptcy, get_liability_amount, socialize_loss}
use bot_flash_loan.Marginfi.Bank.Config.{permissionless_bad_debt_settlement_flag}
use bot_flash_loan.Marginfi.Bank.Accrual.{accrue_interest, update_bank_cache, update_cache_price}
use bot_flash_loan.Marginfi.Wrapper.Amounts.{repay}
use bot_flash_loan.Marginfi.Wrapper.Slots.{position, is_of, find, set_balance}
use bot_flash_loan.Marginfi.Policy.{validate_bank_state, fails_in_paused_state}
use bot_flash_loan.Marginfi.Group.{MarginfiGroup, is_protocol_paused, program_fees_of}
use bot_flash_loan.Marginfi.Lending.{Outside, is_marginfi_asset_tag, wrap, pre_fee}
use bot_flash_loan.Marginfi.Liquidation.{constraint_seeds}

-- The accounts of the instruction, by value; `insurance_amount` is what the insurance vault holds.
pub record BankruptcyAccounts : Type 0 where
  pub group_key : Pubkey
  pub group : MarginfiGroup
  pub signer : Pubkey
  pub bank_key : Pubkey
  pub bank : Bank
  pub marginfi_account : MarginfiAccount
  pub liquidity_vault : Pubkey
  pub insurance_vault : Pubkey
  pub insurance_amount : ℕ
  pub remaining_accounts : List AccountInfo

-- What is not part of the program besides `Outside`: `load` weighs the balances at the equity
-- requirement, `post_fee` is what a mint with transfer fees leaves of an amount, `vaults` derives the
-- addresses of a bank's liquidity and insurance vault.
pub record Insurance (M : Type 0) : Type 0 where
  pub load : MarginfiAccount → List AccountInfo → Result Failure (List BankAccountWithPrice)
  pub post_fee : M → ℕ → Result Failure ℕ
  pub vaults : Pubkey → Pubkey × Pubkey

unfoldable pub try_handle_bankruptcy :
    {M : Type 0} → Insurance M → ℤ → BankruptcyAccounts → Result Failure (Unit {0})
try_handle_bankruptcy ins now a = do
  protocol_paused ← is_protocol_paused a.group now
  check (not protocol_paused) (marginfi MarginfiError.protocol_paused)
  check (a.bank.group == a.group_key) (marginfi MarginfiError.invalid_group)
  check (is_marginfi_asset_tag a.bank.config.asset_tag)
      (marginfi MarginfiError.wrong_asset_tag_for_standard_instructions)
  check (a.marginfi_account.group == a.group_key) (marginfi MarginfiError.invalid_group)
  check (not (Account.get_flag a.marginfi_account account_in_receivership))
      (marginfi MarginfiError.unexpected_liquidation_state)
  check (not (Account.get_flag a.marginfi_account account_in_flashloan))
      (marginfi MarginfiError.account_in_flashloan)
  check (a.liquidity_vault == (ins.vaults a.bank_key).0) constraint_seeds
  check (a.insurance_vault == (ins.vaults a.bank_key).1) constraint_seeds

-- Where the bank does not let everyone settle bad debt, its group's risk admin and admin may.
abbrev pub may_settle : BankruptcyAccounts → Bool
may_settle a =
    Bank.get_flag a.bank permissionless_bad_debt_settlement_flag
    || (a.signer == a.group.risk_admin || a.signer == a.group.admin)

-- How a bad debt is shared.
pub record Cover : Type 0 where
  pub bad_debt : I80F48
  pub covered_by_insurance : I80F48
  pub socialized_loss : I80F48

-- The account is disabled, and a bank without value left is killed.
unfoldable pub conclude :
    ℤ → Option (I80F48 × I80F48) → MarginfiAccount × Bank × Bool → MarginfiAccount × Bank
conclude now price r =
    let account = set_flag r.0 account_disabled in
    let bank = update_cache_price now price r.1 in
    (
      record account { last_update = as_u64 now },
      if r.2
          then record bank {
            config = record bank.config { operational_state = killed_by_bankruptcy };
          }
          else bank,
    )

module _ (fx : Fixed) where
  -- The insurance fund covers what it can; the difference panics on an overflow.
  unfoldable pub cover : I80F48 → I80F48 → Result Failure Cover
  cover bad_debt available_insurance_fund = do
    let covered = min_fixed bad_debt available_insurance_fund
    rest ← ok_or (fx.checked_sub bad_debt covered) panic
    ok (record {
      bad_debt = bad_debt;
      covered_by_insurance = covered;
      socialized_loss = max_fixed rest zero_fixed;
    })

  -- The debt is socialized among the bank's depositors and repaid.
  unfoldable pub settle :
      ℤ → BankruptcyAccounts → Bank → Cover → Result Failure (MarginfiAccount × Bank × Bool)
  settle now a bank c = do
    loss ← socialize_loss fx bank c.socialized_loss
    i ← find a.bank_key a.marginfi_account.balances
    w ← wrap loss.0 a.marginfi_account.balances i
    repaid ← repay fx (as_u64 now) w c.bad_debt
    cached ← update_bank_cache fx now (program_fees_of a.group) repaid.bank
    ok (
      record a.marginfi_account {
        balances = set_balance a.marginfi_account.balances i repaid.balance;
      },
      cached,
      loss.1,
    )

  module _ {M W : Type 0} (env : Outside M W) (ins : Insurance M) where
    unfoldable pub available_insurance : Option M → ℕ → Result Failure ℕ
    available_insurance none amount = ok amount
    available_insurance (some mint) amount = ins.post_fee mint amount

    -- The bad debt of the account at the bank, and how it is covered.
    unfoldable pub assess : BankruptcyAccounts → Bank → Option M → Result Failure Cover
    assess a bank mint = do
      i ←
          ok_or (position (is_of a.bank_key) a.marginfi_account.balances)
            (marginfi MarginfiError.lending_account_balance_not_found)
      w ← wrap bank a.marginfi_account.balances i
      bad_debt ← get_liability_amount fx bank w.balance.liability_shares
      check (ltb_ℤ zero_amount_threshold bad_debt) (marginfi MarginfiError.balance_not_bad_debt)
      available ← available_insurance mint a.insurance_amount
      cover bad_debt (fx.from_u64 available)

    -- The covered part goes, rounded up to whole tokens, from the insurance vault to the liquidity
    -- vault.
    unfoldable pub pay_cover : BankruptcyAccounts → Option M → I80F48 → W → Result Failure W
    pay_cover a mint covered tokens = do
      ceiled ← ok_or (fx.checked_ceil covered) math_error
      rounded_up ← ok_or (fx.checked_to_u64 ceiled) math_error
      amount ← pre_fee env mint rounded_up
      env.transfer a.insurance_vault a.liquidity_vault amount tokens

    unfoldable pub lending_pool_handle_bankruptcy :
        ℤ → BankruptcyAccounts → W → Result Failure ((MarginfiAccount × Bank) × W)
    lending_pool_handle_bankruptcy now a tokens = do
      try_handle_bankruptcy ins now a
      validate_bank_state a.bank fails_in_paused_state
      taken ← env.maybe_take_bank_mint a.bank a.remaining_accounts
      check (may_settle a) (marginfi MarginfiError.unauthorized)
      check_not_in_flashloan a.marginfi_account
      weighed ← ins.load a.marginfi_account taken.1
      totals ← check_account_bankrupt fx a.marginfi_account weighed
      bank ← accrue_interest fx now (program_fees_of a.group) a.bank
      c ← assess a bank taken.0
      tokens' ← pay_cover a taken.0 c.covered_by_insurance tokens
      settled ← settle now a bank c
      ok (conclude now (env.price a.marginfi_account taken.1 a.bank_key) settled, tokens')
