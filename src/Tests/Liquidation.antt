-- ===== src/Tests/Liquidation.antt =====
-- A liquidation of 44 tokens, and the bankruptcy of an account that owes 30.
use bot_flash_loan.Prelude.{
  ℕ, ◌-◌, ◌*◌, ◌/◌, ◌^◌, ◌≤◌, ◌≡◌, refl, List, [], ◌∷◌, none, ok, err, arith,
}
use bot_flash_loan.Prelude.Bits.{bit_and, combine}
use bot_flash_loan.Prelude.Int.{pos, negsuc, ◌+ℤ◌, ◌-ℤ◌}
use bot_flash_loan.Marginfi.Fixed.{I80F48}
use bot_flash_loan.Marginfi.Account.{
  account_not_frozen_for_authority, get_flag, is_signer_authorized, MarginfiAccount, Balance,
  empty_deactivated,
}
use bot_flash_loan.Marginfi.Risk.{
  BankAccountWithPrice, check_account_init_health, check_account_health,
  get_account_health_components, health_components_from, check_account_risk_tiers,
  count_liabilities, collateral,
}
use bot_flash_loan.Marginfi.Risk.Conditions.{
  find_bank, check_not_in_flashloan, check_liability, calc_value, calc_amount, account_health,
  check_pre_liquidation_condition_and_get_account_health,
  check_post_liquidation_condition_and_get_account_health,
}
use bot_flash_loan.Marginfi.Bank
use bot_flash_loan.Marginfi.Bank.{
  get_liability_amount, get_asset_amount, get_asset_shares, get_liability_shares,
  check_utilization_ratio, check_deposit_limit, check_borrow_limit, Bank,
}
use bot_flash_loan.Marginfi.Panic.{flag_set}
use bot_flash_loan.Marginfi.Group.{is_protocol_paused}
use bot_flash_loan.Marginfi.Lending.{wrap, pre_fee, insert, sort_balances}
use bot_flash_loan.Marginfi.Bank.Accrual.{
  accrue_interest, update_bank_cache, cache_rates, update_interest_rates, milli_to_u32,
  update_cache_price,
}
use bot_flash_loan.Marginfi.Interest.Rates.{
  create_interest_rate_calculator, get_fees, calc_fee_rate, base_rate, rates_from, assert_rates,
  calc_interest_rate,
}
use bot_flash_loan.Marginfi.Interest.Curve.{
  util_from_u32, rate_from_u32, lerp, curve_from, interest_rate_multipoint_curve,
}
use bot_flash_loan.Marginfi.Policy.{
  validate_asset_tags, validate_bank_asset_tags, scan_tags, validate_bank_state,
}
use bot_flash_loan.Marginfi.Wrapper.Slots.{
  find, find_or_create, position, create, get_first_empty_balance, count, set_balance,
}
use bot_flash_loan.Marginfi.Wrapper.Amounts.{
  repay, withdraw_ignore_borrow_cap, deposit_ignore_deposit_cap, increase_balance_internal,
  check_increase, decrease_balance_internal, check_decrease, shift_asset_shares,
  shift_liability_shares, count_positions, check_utilization,
}
use bot_flash_loan.Marginfi.Wrapper.{
  claim_emissions, emissions_amount, earn_if, is_zero_with_tolerance, change_asset_shares,
  change_liability_shares,
}
use bot_flash_loan.Marginfi.Liquidation.{
  LiquidateAccounts, Market, liquidator_discount, final_discount, try_liquidate, check_liquidation,
  discounted_amount, liquidation_amounts, take_debt, seize_asset, gain_asset, lose_debt,
  open_liquidation, priced_amounts, move_balances, collect_fee, settle_liquidation, cache_price_of,
  close_liquidation, lending_account_liquidate,
}
use bot_flash_loan.Marginfi.Liquidation.Discount.{liquidation_amounts-fee}
use bot_flash_loan.Marginfi.Liquidation.Liquidated.{
  Liquidated, lending_account_liquidate-Liquidated,
}
use bot_flash_loan.Marginfi.Bankruptcy.{
  BankruptcyAccounts, Insurance, lending_pool_handle_bankruptcy,
}
use bot_flash_loan.Marginfi.Bankruptcy.Settled.{Settled}
use bot_flash_loan.Tests.Amounts.{pool}
use bot_flash_loan.Tests.Lending.{Transfers, outside, group, accounts}
use bot_flash_loan.Tests.Exact.{exact, exact-FixedRounding, tokens}

abbrev half : I80F48 → I80F48
half (pos n) = pos (n / 2)
half (negsuc n) = pos 0

-- Assets count half, liabilities in full.
abbrev weighed : List Balance → List BankAccountWithPrice
weighed [] = []
weighed (b ∷ bs) =
    record {
      balance = b;
      risk_tier = collateral;
      weighted_value = ok (half b.asset_shares, b.liability_shares);
    }
    ∷ weighed bs

abbrev market : Market
market = record {
  load = λ asset_bank liab_bank account infos. ok (weighed account.balances);
  unbiased_price = λ key account infos. none;
  asset_price = λ key asset_bank infos. ok (tokens 1);
  liab_price = λ asset_bank liab_bank infos. ok (tokens 1);
  vaults = λ key. (77, 79);
}

-- The liquidatee has 50 tokens at bank 12 and owes 45 to bank 13.
abbrev case : LiquidateAccounts
case = record {
  group_key = 9;
  group = group;
  asset_bank_key = 12;
  asset_bank = pool;
  liab_bank_key = 13;
  liab_bank = record pool { total_liability_shares = tokens 45 };
  liquidator_key = 21;
  liquidator = accounts.marginfi_account;
  authority = 3;
  liquidatee_key = 22;
  liquidatee = record accounts.marginfi_account {
    balances =
        record empty_deactivated { active = 1; bank_pk = 13; liability_shares = tokens 45 }
        ∷ record empty_deactivated { active = 1; bank_pk = 12; asset_shares = tokens 50 }
        ∷ [];
  };
  liquidity_vault = 77;
  insurance_vault = 79;
  remaining_accounts = [];
}

abbrev liquidated : (MarginfiAccount × MarginfiAccount × Bank × Bank) × Transfers
liquidated = elim (lending_account_liquidate exact outside market (pos 1700000000) case 44 0 0 []) [
  | ok result ↦ result
  | err e ↦ ((case.liquidator, case.liquidatee, pool, pool), [])
]

liquidated_ok :
    lending_account_liquidate exact outside market (pos 1700000000) case 44 0 0 [] ≡ ok liquidated
unfolding lending_account_liquidate try_liquidate check_liquidation discounted_amount
    liquidation_amounts take_debt seize_asset gain_asset lose_debt open_liquidation priced_amounts
    move_balances collect_fee settle_liquidation cache_price_of close_liquidation find_bank
    check_not_in_flashloan check_liability calc_value calc_amount account_health
    check_pre_liquidation_condition_and_get_account_health
    check_post_liquidation_condition_and_get_account_health withdraw_ignore_borrow_cap
    deposit_ignore_deposit_cap repay find increase_balance_internal check_increase wrap pre_fee
    insert sort_balances is_protocol_paused flag_set bit_and combine
    account_not_frozen_for_authority get_flag is_signer_authorized accrue_interest update_bank_cache
    cache_rates update_interest_rates milli_to_u32 update_cache_price
    create_interest_rate_calculator get_fees calc_fee_rate base_rate rates_from assert_rates
    calc_interest_rate util_from_u32 rate_from_u32 lerp curve_from interest_rate_multipoint_curve
    validate_asset_tags validate_bank_asset_tags scan_tags validate_bank_state find_or_create
    position create get_first_empty_balance count set_balance decrease_balance_internal
    check_decrease shift_asset_shares shift_liability_shares count_positions check_utilization
    claim_emissions emissions_amount earn_if is_zero_with_tolerance change_asset_shares
    change_liability_shares get_liability_amount get_asset_amount get_asset_shares
    get_liability_shares check_utilization_ratio check_deposit_limit check_borrow_limit
    check_account_init_health check_account_health get_account_health_components
    health_components_from check_account_risk_tiers count_liabilities Bank.get_flag
    Bank.change_asset_shares Bank.change_liability_shares ◌+ℤ◌ ◌-ℤ◌
liquidated_ok = refl

lending_account_liquidate-Liquidated_example :
    Liquidated exact outside market (pos 1700000000) case 44 [] liquidated
lending_account_liquidate-Liquidated_example =
    lending_account_liquidate-Liquidated exact outside market (pos 1700000000) case 44 0 0 []
      liquidated liquidated_ok

-- 44 tokens at a price of 1: 0.975 and 0.95 of them.
amounts_ok :
    (r : I80F48 × I80F48) × (discounted_amount exact pool pool
        (tokens 44)
        (tokens 1)
        (tokens 1)
        liquidator_discount
      ≡ ok r.0)
    × (discounted_amount exact pool pool (tokens 44) (tokens 1) (tokens 1) final_discount ≡ ok r.1)
unfolding discounted_amount calc_value calc_amount
amounts_ok = ((_, _), refl, refl)

liquidation_amounts-fee_example :
    (taken relieved : ℕ) × (relieved ≤ taken)
    × (liquidation_amounts exact pool pool (tokens 44) (tokens 1) (tokens 1)
        ≡ ok (record {
          liquidator = pos taken;
          final = pos relieved;
          insurance_fund_fee = pos (taken - relieved);
        }))
liquidation_amounts-fee_example =
    liquidation_amounts-fee exact exact-FixedRounding pool pool (44 * 2 ^ 48) (2 ^ 48) (2 ^ 48)
      amounts_ok.0.0 amounts_ok.0.1 (omega arith) (omega arith) amounts_ok.1 amounts_ok.2

-- The account owes 30 to bank 13 and has nothing; the insurance vault has 12.
abbrev bankruptcy : BankruptcyAccounts
bankruptcy = record {
  group_key = 9;
  group = group;
  signer = 2;
  bank_key = 13;
  bank = record pool { total_liability_shares = tokens 30 };
  marginfi_account = record accounts.marginfi_account {
    balances =
        record empty_deactivated { active = 1; bank_pk = 13; liability_shares = tokens 30 } ∷ [];
  };
  liquidity_vault = 77;
  insurance_vault = 79;
  insurance_amount = 12;
  remaining_accounts = [];
}

abbrev insurance : Insurance (Unit {0})
insurance = record {
  load = λ account infos. ok (weighed account.balances);
  post_fee = λ mint amount. ok amount;
  vaults = λ key. (77, 79);
}

abbrev handled : (MarginfiAccount × Bank) × Transfers
handled =
    elim (lending_pool_handle_bankruptcy exact outside insurance (pos 1700000000) bankruptcy []) [
      | ok result ↦ result
      | err e ↦ ((bankruptcy.marginfi_account, pool), [])
    ]
