-- ===== src/Marginfi/Bankruptcy/Settled.antt =====
-- What a bankruptcy that was handled leaves (Bankruptcy).
use bot_flash_loan.Prelude.{ℕ, ◌≡◌, ◌⊎◌, Bool, true, false, List, Option, some, ok}
use bot_flash_loan.Prelude.Int.{ℤ, ◌+ℤ◌, ltb_ℤ}
use bot_flash_loan.Prelude.Machine.{as_u64}
use bot_flash_loan.Solana.{AccountInfo}
use bot_flash_loan.Marginfi.Fixed.{
  Fixed, FixedLaws, I80F48, zero_fixed, zero_amount_threshold, leb_fixed, min_fixed,
}
use bot_flash_loan.Marginfi.Account
use bot_flash_loan.Marginfi.Account.{Failure, MarginfiAccount, Balance}
use bot_flash_loan.Marginfi.Account.Flags.{has, disabled}
use bot_flash_loan.Marginfi.Risk.{BankAccountWithPrice, get_account_health_components}
use bot_flash_loan.Marginfi.Risk.Conditions.{bankrupt_threshold}
use bot_flash_loan.Marginfi.Bank.{Bank, killed_by_bankruptcy, get_liability_amount, socialize_loss}
use bot_flash_loan.Marginfi.Bank.Accrual.{accrue_interest}
use bot_flash_loan.Marginfi.Wrapper.{BankAccountWrapper}
use bot_flash_loan.Marginfi.Wrapper.Amounts.{repay}
use bot_flash_loan.Marginfi.Wrapper.Slots.{position, is_of}
use bot_flash_loan.Marginfi.Group.{program_fees_of}
use bot_flash_loan.Marginfi.Lending.{Outside, wrap}
use bot_flash_loan.Marginfi.Lending.Changed.{Changed, found}
use bot_flash_loan.Marginfi.Lending.Totals.{SameTotals}
use bot_flash_loan.Marginfi.Bankruptcy.{
  BankruptcyAccounts, Insurance, Cover, may_settle, available_insurance, pay_cover,
}

-- The bad debt is more than a rounding error, and is split: what the insurance covers, which is at
-- most the debt and at most `available`, and the rest, which is not negative.
pub record Split (c : Cover) (available : I80F48) : Type 0 where
  pub is_debt : ltb_ℤ zero_amount_threshold c.bad_debt ≡ true
  pub covered_is : c.covered_by_insurance ≡ min_fixed c.bad_debt available
  pub sums_up : c.covered_by_insurance +ℤ c.socialized_loss ≡ c.bad_debt
  pub not_negative : leb_fixed zero_fixed c.socialized_loss ≡ true

-- How the debt of the account at `bank` was assessed: what the account's balance there owes, and how
-- it is split with what the insurance has.
record Assessed {M W : Type 0} (fx : Fixed) (env : Outside M W) (ins : Insurance M)
    (a : BankruptcyAccounts) (bank : Bank) (mint : Option M) (c : Cover) : Type 0 where
  place : ℕ
  place_is : position (is_of a.bank_key) a.marginfi_account.balances ≡ some place
  wrapper : BankAccountWrapper
  wrapper_is : wrap bank a.marginfi_account.balances place ≡ ok wrapper
  debt_is : get_liability_amount fx bank wrapper.balance.liability_shares ≡ ok c.bad_debt
  available : ℕ
  available_is : available_insurance fx env ins mint a.insurance_amount ≡ ok available
  split : Split c (fx.from_u64 available)

-- A bankruptcy that was handled: who may, of which account, how its debt was shared, and what is left.
pub record Settled {M W : Type 0} (fx : Fixed) (env : Outside M W) (ins : Insurance M) (now : ℤ)
    (a : BankruptcyAccounts) (tokens : W) (result : (MarginfiAccount × Bank) × W) : Type 0 where
  pub permitted : may_settle a ≡ true
  pub liquidity_vault_is : a.liquidity_vault ≡ (ins.vaults a.bank_key).0
  pub insurance_vault_is : a.insurance_vault ≡ (ins.vaults a.bank_key).1
  pub taken : Option M × List AccountInfo
  pub taken_is : env.maybe_take_bank_mint a.bank a.remaining_accounts ≡ ok taken
  pub weighed : List BankAccountWithPrice
  pub weighed_is : ins.load a.marginfi_account taken.1 ≡ ok weighed
  pub totals : I80F48 × I80F48
  pub totals_is : get_account_health_components fx weighed ≡ ok totals
  pub insolvent : ltb_ℤ totals.0 totals.1 ≡ true
  pub worthless : ltb_ℤ totals.0 bankrupt_threshold ≡ true
  pub bank : Bank
  pub bank_is : accrue_interest fx now (program_fees_of a.group) a.bank ≡ ok bank
  pub shared : Cover
  pub place : ℕ
  pub place_is : position (is_of a.bank_key) a.marginfi_account.balances ≡ some place
  pub wrapper : BankAccountWrapper
  pub wrapper_is : wrap bank a.marginfi_account.balances place ≡ ok wrapper
  pub debt_is : get_liability_amount fx bank wrapper.balance.liability_shares ≡ ok shared.bad_debt
  pub available : ℕ
  pub available_is : available_insurance fx env ins taken.0 a.insurance_amount ≡ ok available
  pub split : Split shared (fx.from_u64 available)
  pub paid : pay_cover fx env ins a taken.0 shared.covered_by_insurance tokens ≡ ok result.1
  pub loss : Bank × Bool
  pub loss_is : socialize_loss fx bank shared.socialized_loss ≡ ok loss
  pub balances : List Balance
  pub repaid_bank : Bank
  pub repays :
      Changed
        (found a.bank_key a.marginfi_account.balances)
        (λ w w'. repay fx (as_u64 now) w shared.bad_debt ≡ ok w')
        loss.0
        balances
        repaid_bank
  pub stored : result.0.0.balances ≡ balances
  pub bank_totals : SameTotals repaid_bank result.0.1
  pub disabled_after : has disabled result.0.0 ≡ true
  pub killed : (loss.1 ≡ false) ⊎ (result.0.1.config.operational_state ≡ killed_by_bankruptcy)

module _ (fx : Fixed) (laws : FixedLaws fx) where
  module _ {M W : Type 0} (env : Outside M W) (ins : Insurance M) where
    -- The loss and the repayment, and the account and the bank after them.
    record Written (now : ℤ) (a : BankruptcyAccounts) (bank : Bank) (c : Cover)
        (r : MarginfiAccount × Bank × Bool) : Type 0 where
      loss : Bank × Bool
      loss_is : socialize_loss fx bank c.socialized_loss ≡ ok loss
      dead : loss.1 ≡ r.2
      repaid_bank : Bank
      repays :
          Changed
            (found a.bank_key a.marginfi_account.balances)
            (λ w w'. repay fx (as_u64 now) w c.bad_debt ≡ ok w')
            loss.0
            r.0.balances
            repaid_bank
      totals : SameTotals repaid_bank r.1
