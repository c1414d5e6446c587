-- ===== src/Marginfi/Wrapper.antt =====
-- One balance of an account together with its bank, and how they change:
-- `BankAccountWrapper` of marginfi-v2/programs/marginfi/src/state/marginfi_account.rs. The clock is
-- the argument `now`; the pair of mutable references is a record that the operations return. The
-- changes of amounts are in Wrapper/Amounts and Wrapper/All.
pub mod Amounts
pub mod All
pub mod Slots
pub mod Shares
pub mod Conservation
pub mod Repayment
pub mod Ledger
use bot_flash_loan.Prelude.{
  ℕ, Bool, not, ◌&&◌, ◌||◌, Option, none, some, Result, ok, check, ok_or, ◌>>=◌, ◌>>◌, ltb,
  checked_sub, if◌then◌else◌,
}
use bot_flash_loan.Prelude.Int.{ltb_ℤ}
use bot_flash_loan.Marginfi.Error.{MarginfiError}
use bot_flash_loan.Marginfi.Fixed.{
  Fixed, I80F48, zero_fixed, one_fixed, zero_amount_threshold, seconds_per_year, min_fixed,
  max_fixed,
}
use bot_flash_loan.Marginfi.Account.{
  Failure, marginfi, panic, Balance, assets, liabilities, get_side, empty_deactivated,
}
use bot_flash_loan.Marginfi.Risk.{math_error}
use bot_flash_loan.Marginfi.Bank
use bot_flash_loan.Marginfi.Bank.{
  Bank, get_asset_amount, get_liability_amount, get_balance_decimals, exp_10_fixed,
  emissions_flag_lending_active, emissions_flag_borrow_active,
}

pub record BankAccountWrapper : Type 0 where
  pub balance : Balance
  pub bank : Bank

abbrev pub min_emissions_start_time : ℕ
min_emissions_start_time = 1681989983

abbrev pub is_positive_with_tolerance : I80F48 → Bool
is_positive_with_tolerance a = ltb_ℤ zero_amount_threshold a

module _ (fx : Fixed) where
  -- `abs` panics, as negation does, at the least number.
  unfoldable pub is_zero_with_tolerance : I80F48 → Result Failure Bool
  is_zero_with_tolerance a = do
    size ← (if ltb_ℤ a zero_fixed then ok_or (fx.neg a) panic else ok a)
    ok (ltb_ℤ size zero_amount_threshold)

  unfoldable pub change_asset_shares : Balance → I80F48 → Result Failure Balance
  change_asset_shares b delta = do
    shares ← ok_or (fx.checked_add b.asset_shares delta) math_error
    ok (record b { asset_shares = shares })

  unfoldable pub change_liability_shares : Balance → I80F48 → Result Failure Balance
  change_liability_shares b delta = do
    shares ← ok_or (fx.checked_add b.liability_shares delta) math_error
    ok (record b { liability_shares = shares })

  unfoldable pub close : Balance → Bool → Result Failure Balance
  close b check_emissions = do
    check (not check_emissions || ltb_ℤ b.emissions_outstanding one_fixed)
        (marginfi MarginfiError.cannot_close_outstanding_emissions)
    ok empty_deactivated

  unfoldable pub calc_emissions : I80F48 → I80F48 → ℕ → I80F48 → Result Failure I80F48
  calc_emissions period balance_amount mint_decimals emissions_rate = do
    exponent ← exp_10_fixed mint_decimals
    balance_amount_ui ← ok_or (fx.checked_div balance_amount exponent) math_error
    weighted ← ok_or (fx.checked_mul period balance_amount_ui) math_error
    yearly ← ok_or (fx.checked_div weighted (fx.from_u64 seconds_per_year)) math_error
    ok_or (fx.checked_mul yearly emissions_rate) math_error

  -- The amount that earns emissions, if the side of the balance does.
  unfoldable pub emissions_amount : BankAccountWrapper → Result Failure (Option I80F48)
  emissions_amount w = do
    side ← get_side w.balance
    elim side [
      | some assets ↦
          if Bank.get_flag w.bank emissions_flag_lending_active
          then get_asset_amount fx w.bank w.balance.asset_shares >>= (λ a. ok (some a))
          else ok none
      | some liabilities ↦
          if Bank.get_flag w.bank emissions_flag_borrow_active
          then get_liability_amount fx w.bank w.balance.liability_shares >>= (λ a. ok (some a))
          else ok none
      | none ↦ ok none
    ]

  -- Moves what the balance has earned since `last_update` from what the bank has left.
  unfoldable pub earn_emissions :
      ℕ → BankAccountWrapper → I80F48 → Result Failure BankAccountWrapper
  earn_emissions now w balance_amount = do
    period ←
        ok_or
          (checked_sub now (
            if ltb w.balance.last_update min_emissions_start_time
            then now
            else w.balance.last_update))
          math_error
    emissions ←
        calc_emissions (fx.from_u64 period) balance_amount (get_balance_decimals fx w.bank)
          (fx.from_u64 w.bank.emissions_rate)
    outstanding ←
        ok_or
          (fx.checked_add w.balance.emissions_outstanding
            (min_fixed emissions w.bank.emissions_remaining))
          math_error
    remaining ←
        ok_or
          (fx.checked_sub w.bank.emissions_remaining
            (min_fixed emissions w.bank.emissions_remaining))
          math_error
    ok (record {
      balance = record w.balance { emissions_outstanding = outstanding };
      bank = record w.bank { emissions_remaining = remaining };
    })

  -- `if let Some(balance_amount)`
  unfoldable pub earn_if :
      ℕ → BankAccountWrapper → Option I80F48 → Result Failure BankAccountWrapper
  earn_if now w none = ok w
  earn_if now w (some amount) = earn_emissions now w amount

  unfoldable pub claim_emissions : ℕ → BankAccountWrapper → Result Failure BankAccountWrapper
  claim_emissions now w = do
    amount ← emissions_amount w
    earned ← earn_if now w amount
    ok (record earned { balance = record earned.balance { last_update = now } })

  unfoldable pub settle_emissions_and_get_transfer_amount :
      ℕ → BankAccountWrapper → Result Failure (BankAccountWrapper × ℕ)
  settle_emissions_and_get_transfer_amount now w = do
    claimed ← claim_emissions now w
    floored ← ok_or (fx.checked_floor claimed.balance.emissions_outstanding) math_error
    left ← ok_or (fx.checked_sub claimed.balance.emissions_outstanding floored) math_error
    amount ← ok_or (fx.checked_to_u64 floored) math_error
    ok (
      record claimed { balance = record claimed.balance { emissions_outstanding = left } },
      amount,
    )
