-- ===== src/Marginfi/Liquidation.antt =====
-- The liquidation of an unhealthy account, of
-- marginfi-v2/programs/marginfi/src/instructions/marginfi_account/liquidate.rs. Events are left out.
pub mod Discount
pub mod Moved
pub mod Liquidated
use bot_flash_loan.Prelude.{
  ℕ, ◌-◌, ◌*◌, ◌^◌, Bool, true, false, not, ◌&&◌, List, Option, none, some, Result, ok, check,
  ok_or, ◌>>=◌, ◌>>◌, ◌==◌, ltb, length, take, drop, checked_sub,
}
use bot_flash_loan.Prelude.Int.{ℤ, pos, ltb_ℤ}
use bot_flash_loan.Prelude.Machine.{as_u64}
use bot_flash_loan.Solana.{AccountInfo, Pubkey}
use bot_flash_loan.Marginfi.Error.{MarginfiError}
use bot_flash_loan.Marginfi.Fixed.{Fixed, I80F48, zero_fixed, one_fixed, leb_fixed, frac}
use bot_flash_loan.Marginfi.Account.{
  Failure, marginfi, program_error, panic, MarginfiAccount, Balance, get_flag,
  account_in_receivership, is_signer_authorized, account_not_frozen_for_authority,
}
use bot_flash_loan.Marginfi.Risk.{BankAccountWithPrice, math_error, check_account_init_health}
use bot_flash_loan.Marginfi.Risk.Conditions.{
  calc_value, calc_amount, check_not_in_flashloan,
  check_pre_liquidation_condition_and_get_account_health,
  check_post_liquidation_condition_and_get_account_health,
}
use bot_flash_loan.Marginfi.Bank.{
  Bank, get_balance_decimals, get_asset_amount, get_liability_amount,
}
use bot_flash_loan.Marginfi.Bank.Accrual.{accrue_interest, update_bank_cache, update_cache_price}
use bot_flash_loan.Marginfi.Wrapper.Amounts.{
  repay, withdraw_ignore_borrow_cap, deposit_ignore_deposit_cap,
}
use bot_flash_loan.Marginfi.Wrapper.Slots.{find, find_or_create, set_balance}
use bot_flash_loan.Marginfi.Policy.{
  validate_bank_asset_tags, validate_asset_tags, validate_bank_state, fails_in_paused_state,
}
use bot_flash_loan.Marginfi.Group.{MarginfiGroup, is_protocol_paused, program_fees_of}
use bot_flash_loan.Marginfi.Lending.{Outside, is_marginfi_asset_tag, wrap, sort_balances}

-- The accounts of the instruction, by value, with the addresses that are compared.
pub record LiquidateAccounts : Type 0 where
  pub group_key : Pubkey
  pub group : MarginfiGroup
  pub asset_bank_key : Pubkey
  pub asset_bank : Bank
  pub liab_bank_key : Pubkey
  pub liab_bank : Bank
  pub liquidator_key : Pubkey
  pub liquidator : MarginfiAccount
  pub authority : Pubkey
  pub liquidatee_key : Pubkey
  pub liquidatee : MarginfiAccount
  pub liquidity_vault : Pubkey
  pub insurance_vault : Pubkey
  pub remaining_accounts : List AccountInfo

-- What the oracles say, and where a bank's vaults are: `vaults` derives the addresses of its
-- liquidity and insurance vault. `load` weighs the balances of an account at the maintenance
-- requirement, with the asset bank and the liability bank as they are at that time.
pub record Market : Type 0 where
  pub load :
      Bank → Bank → MarginfiAccount → List AccountInfo → Result Failure (List BankAccountWithPrice)
  pub unbiased_price : Pubkey → MarginfiAccount → List AccountInfo → Option (I80F48 × I80F48)
  pub asset_price : Pubkey → Bank → List AccountInfo → Result Failure I80F48
  pub liab_price : Bank → Bank → List AccountInfo → Result Failure I80F48
  pub vaults : Pubkey → Pubkey × Pubkey

-- Anchor's `ConstraintSeeds`, and `AccountBorrowFailed` of an account that is loaded twice.
abbrev pub constraint_seeds : Failure
constraint_seeds = program_error 2006

abbrev pub account_borrow_failed : Failure
account_borrow_failed = program_error (12 * 2 ^ 32)

-- 0.025, to the nearest 2 ^ -48.
abbrev pub liquidation_fee : ℕ
liquidation_fee = 7036874417766

abbrev pub liquidator_discount : I80F48
liquidator_discount = pos (2 ^ 48 - liquidation_fee)

abbrev pub final_discount : I80F48
final_discount = pos (2 ^ 48 - 2 * liquidation_fee)

unfoldable pub try_liquidate : Market → ℤ → LiquidateAccounts → Result Failure (Unit {0})
try_liquidate market now a = do
  protocol_paused ← is_protocol_paused a.group now
  check (not protocol_paused) (marginfi MarginfiError.protocol_paused)
  check (a.asset_bank.group == a.group_key) (marginfi MarginfiError.invalid_group)
  check (a.liab_bank.group == a.group_key) (marginfi MarginfiError.invalid_group)
  check (is_marginfi_asset_tag a.liab_bank.config.asset_tag)
      (marginfi MarginfiError.wrong_asset_tag_for_standard_instructions)
  check (a.liquidator.group == a.group_key) (marginfi MarginfiError.invalid_group)
  check (not (get_flag a.liquidator account_in_receivership)) (marginfi MarginfiError.forbidden_ix)
  check (account_not_frozen_for_authority a.liquidator a.authority)
      (marginfi MarginfiError.account_frozen)
  check (is_signer_authorized a.liquidator a.group.admin a.authority false)
      (marginfi MarginfiError.unauthorized)
  check (a.liquidatee.group == a.group_key) (marginfi MarginfiError.invalid_group)
  check (not (get_flag a.liquidatee account_in_receivership)) (marginfi MarginfiError.forbidden_ix)
  check (a.liquidity_vault == (market.vaults a.liab_bank_key).0) constraint_seeds
  check (a.insurance_vault == (market.vaults a.liab_bank_key).1) constraint_seeds

-- The checks before anything is written.
unfoldable pub check_liquidation : LiquidateAccounts → ℕ → Result Failure (Unit {0})
check_liquidation a asset_amount = do
  check (ltb 0 asset_amount) (marginfi MarginfiError.zero_liquidation_amount)
  check (not (a.asset_bank_key == a.liab_bank_key))
      (marginfi MarginfiError.same_asset_and_liability_banks)
  validate_bank_asset_tags a.asset_bank a.liab_bank
  validate_bank_state a.asset_bank fails_in_paused_state
  validate_bank_state a.liab_bank fails_in_paused_state
  validate_asset_tags a.liab_bank a.liquidatee.balances
  validate_asset_tags a.liab_bank a.liquidator.balances
  validate_asset_tags a.asset_bank a.liquidator.balances
  check (not (a.liquidator_key == a.liquidatee_key)) account_borrow_failed

-- What is owed for the seized asset, by the liquidator and to the liquidatee, and their difference.
pub record Amounts : Type 0 where
  pub liquidator : I80F48
  pub final : I80F48
  pub insurance_fund_fee : I80F48

-- What the first part of the instruction finds: the accounts left after the mint, where those of the
-- liquidatee start, the banks with their interest, and the liquidatee with its balances sorted.
pub record Opened : Type 0 where
  pub remaining : List AccountInfo
  pub start : ℕ
  pub asset_bank : Bank
  pub liab_bank : Bank
  pub liquidatee : MarginfiAccount
  pub pre_liquidation_health : I80F48

-- The two accounts' balances and the two banks while they are changed.
pub record Books : Type 0 where
  pub liquidator : List Balance
  pub liquidatee : List Balance
  pub asset_bank : Bank
  pub liab_bank : Bank

module _ (fx : Fixed) where
  unfoldable pub discounted_amount :
      Bank → Bank → I80F48 → I80F48 → I80F48 → I80F48 → Result Failure I80F48
  discounted_amount asset_bank liab_bank asset_amount asset_price liab_price discount = do
    value ←
        calc_value fx asset_amount asset_price (get_balance_decimals fx asset_bank) (some discount)
    calc_amount fx value liab_price (get_balance_decimals fx liab_bank)

  -- The fee that the assertion finds negative panics.
  unfoldable pub liquidation_amounts :
      Bank → Bank → I80F48 → I80F48 → I80F48 → Result Failure Amounts
  liquidation_amounts asset_bank liab_bank asset_amount asset_price liab_price = do
    liquidator ←
        discounted_amount asset_bank liab_bank asset_amount asset_price liab_price
          liquidator_discount
    final ←
        discounted_amount asset_bank liab_bank asset_amount asset_price liab_price final_discount
    fee ← ok_or (fx.checked_sub liquidator final) panic
    check (leb_fixed zero_fixed fee) panic
    ok (record { liquidator = liquidator; final = final; insurance_fund_fee = fee })

  -- The liquidator takes on the debt. The amounts before and after are computed for the event, and
  -- may overflow.
  unfoldable pub take_debt : ℕ → Pubkey → I80F48 → Books → Result Failure Books
  take_debt now liab_bank_key amount k = do
    place ← find_or_create now liab_bank_key k.liab_bank k.liquidator
    w ← wrap k.liab_bank place.1 place.0
    pre_balance ← get_liability_amount fx w.bank w.balance.liability_shares
    w' ← withdraw_ignore_borrow_cap fx now w amount
    post_balance ← get_liability_amount fx w'.bank w'.balance.liability_shares
    ok (record k { liquidator = set_balance place.1 place.0 w'.balance; liab_bank = w'.bank })

  -- The liquidatee loses the asset, of which it must have that much.
  unfoldable pub seize_asset : ℕ → Pubkey → I80F48 → Books → Result Failure Books
  seize_asset now asset_bank_key amount k = do
    i ← find asset_bank_key k.liquidatee
    w ← wrap k.asset_bank k.liquidatee i
    pre_balance ← get_asset_amount fx w.bank w.balance.asset_shares
    check (leb_fixed amount pre_balance) (marginfi MarginfiError.overliquidation_attempt)
    w' ← withdraw_ignore_borrow_cap fx now w amount
    post_balance ← get_asset_amount fx w'.bank w'.balance.asset_shares
    ok (record k { liquidatee = set_balance k.liquidatee i w'.balance; asset_bank = w'.bank })

  unfoldable pub gain_asset : ℕ → Pubkey → I80F48 → Books → Result Failure Books
  gain_asset now asset_bank_key amount k = do
    place ← find_or_create now asset_bank_key k.asset_bank k.liquidator
    w ← wrap k.asset_bank place.1 place.0
    pre_balance ← get_asset_amount fx w.bank w.balance.asset_shares
    w' ← deposit_ignore_deposit_cap fx now w amount
    post_balance ← get_asset_amount fx w'.bank w'.balance.asset_shares
    ok (record k { liquidator = set_balance place.1 place.0 w'.balance; asset_bank = w'.bank })

  unfoldable pub lose_debt : ℕ → Pubkey → I80F48 → Books → Result Failure Books
  lose_debt now liab_bank_key amount k = do
    i ← find liab_bank_key k.liquidatee
    w ← wrap k.liab_bank k.liquidatee i
    pre_balance ← get_liability_amount fx w.bank w.balance.liability_shares
    w' ← repay fx now w amount
    post_balance ← get_liability_amount fx w'.bank w'.balance.liability_shares
    ok (record k { liquidatee = set_balance k.liquidatee i w'.balance; liab_bank = w'.bank })

  module _ {M W : Type 0} (env : Outside M W) (market : Market) where
    -- Up to the condition on the account's health.
    unfoldable pub open_liquidation : ℤ → LiquidateAccounts → ℕ → ℕ → Result Failure Opened
    open_liquidation now a asset_amount liquidatee_accounts = do
      try_liquidate market now a
      check_liquidation a asset_amount
      taken ← env.maybe_take_bank_mint a.liab_bank a.remaining_accounts
      asset_bank ← accrue_interest fx now (program_fees_of a.group) a.asset_bank
      liab_bank ← accrue_interest fx now (program_fees_of a.group) a.liab_bank
      start ← ok_or (checked_sub (length taken.1) liquidatee_accounts) panic
      let sorted : MarginfiAccount = record a.liquidatee {
        balances = sort_balances a.liquidatee.balances;
      }
      check_not_in_flashloan sorted
      before ← market.load asset_bank liab_bank sorted (drop start taken.1)
      pre ←
          check_pre_liquidation_condition_and_get_account_health fx sorted (some a.liab_bank_key)
            false before
      ok (record {
        remaining = taken.1;
        start = start;
        asset_bank = asset_bank;
        liab_bank = liab_bank;
        liquidatee = sorted;
        pre_liquidation_health = pre.0;
      })

    unfoldable pub priced_amounts : LiquidateAccounts → I80F48 → Opened → Result Failure Amounts
    priced_amounts a amount o = do
      asset_price ← market.asset_price a.asset_bank_key o.asset_bank o.remaining
      check (ltb_ℤ zero_fixed asset_price) (marginfi MarginfiError.zero_asset_price)
      liab_price ← market.liab_price o.asset_bank o.liab_bank o.remaining
      check (ltb_ℤ zero_fixed liab_price) (marginfi MarginfiError.zero_liability_price)
      liquidation_amounts o.asset_bank o.liab_bank amount asset_price liab_price

    -- The four changes of balances, with the insurance fee in tokens.
    unfoldable pub move_balances :
        ℕ → LiquidateAccounts → I80F48 → Amounts → Opened → Result Failure (Books × ℕ)
    move_balances now a amount amounts o = do
      owing ← take_debt now a.liab_bank_key amounts.liquidator (record {
        liquidator = a.liquidator.balances;
        liquidatee = o.liquidatee.balances;
        asset_bank = o.asset_bank;
        liab_bank = o.liab_bank;
      })
      seized ← seize_asset now a.asset_bank_key amount owing
      gained ← gain_asset now a.asset_bank_key amount seized
      fee ← ok_or (fx.checked_to_u64 amounts.insurance_fund_fee) math_error
      settled ← lose_debt now a.liab_bank_key amounts.final gained
      ok (settled, fee)

    -- What the fee has beyond whole tokens stays in the bank's books.
    unfoldable pub collect_fee : ℤ → LiquidateAccounts → I80F48 → Books → Result Failure Books
    collect_fee now a insurance_fund_fee k = do
      fees ←
          ok_or
            (fx.checked_add k.liab_bank.collected_insurance_fees_outstanding
              (frac insurance_fund_fee))
            math_error
      asset_bank ← update_bank_cache fx now (program_fees_of a.group) k.asset_bank
      liab_bank ←
          update_bank_cache fx now (program_fees_of a.group)
            (record k.liab_bank { collected_insurance_fees_outstanding = fees })
      ok (record k { asset_bank = asset_bank; liab_bank = liab_bank })

    unfoldable pub settle_liquidation :
        ℤ → LiquidateAccounts → ℕ → Opened → W → Result Failure (Books × W)
    settle_liquidation now a asset_amount o tokens = do
      amounts ← priced_amounts a (fx.from_u64 asset_amount) o
      moved ← move_balances (as_u64 now) a (fx.from_u64 asset_amount) amounts o
      tokens' ← env.transfer a.liquidity_vault a.insurance_vault moved.1 tokens
      settled ← collect_fee now a amounts.insurance_fund_fee moved.0
      ok (settled, tokens')

    -- The price that the engine had for a bank before the liquidation, in the bank's cache.
    unfoldable pub cache_price_of : ℤ → Opened → Pubkey → Bank → Bank
    cache_price_of now o key b =
        update_cache_price now (market.unbiased_price key o.liquidatee (drop o.start o.remaining)) b

    -- The conditions on the two accounts after it.
    unfoldable pub close_liquidation :
        ℤ
        → LiquidateAccounts
        → ℕ
        → Opened
        → Books
        → Result Failure (MarginfiAccount × MarginfiAccount × Bank × Bank)
    close_liquidation now a liquidator_accounts o k = do
      let asset_bank = cache_price_of now o a.asset_bank_key k.asset_bank
      let liab_bank = cache_price_of now o a.liab_bank_key k.liab_bank
      liquidator_start ← ok_or (checked_sub o.start liquidator_accounts) panic
      let liquidatee : MarginfiAccount = record a.liquidatee {
        balances = k.liquidatee;
        last_update = as_u64 now;
      }
      check_not_in_flashloan liquidatee
      after ← market.load asset_bank liab_bank liquidatee (drop o.start o.remaining)
      post ←
          check_post_liquidation_condition_and_get_account_health fx liquidatee a.liab_bank_key
            o.pre_liquidation_health after
      let liquidator : MarginfiAccount = record a.liquidator {
        balances = sort_balances k.liquidator;
        last_update = as_u64 now;
      }
      check_account_init_health fx env.load liquidator
          (take liquidator_accounts (drop liquidator_start o.remaining))
      ok (liquidator, liquidatee, asset_bank, liab_bank)

    unfoldable pub lending_account_liquidate :
        ℤ
        → LiquidateAccounts
        → ℕ
        → ℕ
        → ℕ
        → W
        → Result Failure ((MarginfiAccount × MarginfiAccount × Bank × Bank) × W)
    lending_account_liquidate now a asset_amount liquidatee_accounts liquidator_accounts tokens = do
      opened ← open_liquidation now a asset_amount liquidatee_accounts
      settled ← settle_liquidation now a asset_amount opened tokens
      closed ← close_liquidation now a liquidator_accounts opened settled.0
      ok (closed, settled.1)
