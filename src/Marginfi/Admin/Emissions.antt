-- ===== src/Marginfi/Admin/Emissions.antt =====
-- The instructions on the emissions of a bank, of
-- marginfi-v2/programs/marginfi/src/instructions/marginfi_group/configure_bank.rs.
use bot_flash_loan.Prelude.{ℕ, not, Option, none, some, Result, ok, check, ok_or, ◌>>=◌, ◌>>◌, ◌==◌}
use bot_flash_loan.Solana.{Pubkey}
use bot_flash_loan.Marginfi.Error.{MarginfiError}
use bot_flash_loan.Marginfi.Fixed.{Fixed}
use bot_flash_loan.Marginfi.Account.{Failure, marginfi, default_pubkey}
use bot_flash_loan.Marginfi.Risk.{math_error}
use bot_flash_loan.Marginfi.Interest.{set_if_some}
use bot_flash_loan.Marginfi.Bank.{Bank, override_emissions_flag}
use bot_flash_loan.Marginfi.Lending.{Outside}
use bot_flash_loan.Marginfi.Admin.{BankAccounts, try_bank_accounts}

-- The accounts besides the bank: the mint, with its address, and the token accounts of the transfer.
pub record EmissionsAccounts (M : Type 0) : Type 0 where
  pub of_bank : BankAccounts
  pub emissions_mint : Pubkey
  pub mint : M
  pub emissions_funding_account : Pubkey
  pub emissions_token_account : Pubkey

module _ (fx : Fixed) {M W : Type 0} (env : Outside M W) where
  -- The amount is sent with the mint's transfer fee on top.
  unfoldable pub fund_emissions : EmissionsAccounts M → ℕ → W → Result Failure W
  fund_emissions a amount tokens = do
    amount_pre_fee ← env.calculate_pre_fee a.mint amount
    env.transfer a.emissions_funding_account a.emissions_token_account amount_pre_fee tokens

  unfoldable pub lending_pool_setup_emissions :
      EmissionsAccounts M → ℕ → ℕ → ℕ → W → Result Failure (Bank × W)
  lending_pool_setup_emissions a emissions_flags emissions_rate total_emissions tokens = do
    try_bank_accounts a.of_bank.group.delegate_emissions_admin a.of_bank
    check (a.of_bank.bank.emissions_mint == default_pubkey)
        (marginfi MarginfiError.emissions_already_setup)
    flagged ← override_emissions_flag a.of_bank.bank emissions_flags
    tokens' ← fund_emissions a total_emissions tokens
    ok (
      record flagged {
        emissions_mint = a.emissions_mint;
        emissions_rate = emissions_rate;
        emissions_remaining = fx.from_u64 total_emissions;
      },
      tokens',
    )

  -- More emissions are added and paid for.
  unfoldable pub add_emissions :
      EmissionsAccounts M → Bank → Option ℕ → W → Result Failure (Bank × W)
  add_emissions a b none tokens = ok (b, tokens)
  add_emissions a b (some additional) tokens = do
    remaining ← ok_or (fx.checked_add b.emissions_remaining (fx.from_u64 additional)) math_error
    tokens' ← fund_emissions a additional tokens
    ok (record b { emissions_remaining = remaining }, tokens')

  unfoldable pub lending_pool_update_emissions_parameters :
      EmissionsAccounts M → Option ℕ → Option ℕ → Option ℕ → W → Result Failure (Bank × W)
  lending_pool_update_emissions_parameters a emissions_flags emissions_rate additional_emissions
        tokens =
      do
        try_bank_accounts a.of_bank.group.delegate_emissions_admin a.of_bank
        check (not (a.of_bank.bank.emissions_mint == default_pubkey))
            (marginfi MarginfiError.emissions_update_error)
        check (a.of_bank.bank.emissions_mint == a.emissions_mint)
            (marginfi MarginfiError.emissions_update_error)
        add_emissions a
            (record a.of_bank.bank {
              flags = set_if_some a.of_bank.bank.flags emissions_flags;
              emissions_rate = set_if_some a.of_bank.bank.emissions_rate emissions_rate;
            })
            additional_emissions tokens
