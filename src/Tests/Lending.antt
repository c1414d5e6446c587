-- ===== src/Tests/Lending.antt =====
-- A borrow of 50 from the pool, and one while the protocol is paused.
use mathlib.Core.List.{Perm}
use bot_flash_loan.Prelude.{ℕ, ◌≡◌, refl, true, false, List, [], ◌∷◌, none, ok, err, arith}
use bot_flash_loan.Prelude.Int.{pos, ◌+ℤ◌, ◌-ℤ◌}
use bot_flash_loan.Solana.{Pubkey}
use bot_flash_loan.Marginfi.Account.{
  account_not_frozen_for_authority, get_flag, is_signer_authorized, MarginfiAccount,
  empty_deactivated,
}
use bot_flash_loan.Marginfi.Risk.{
  check_account_init_health, check_account_health, get_account_health_components,
  health_components_from, check_account_risk_tiers, count_liabilities, collateral,
}
use bot_flash_loan.Marginfi.Bank
use bot_flash_loan.Marginfi.Bank.{
  get_remaining_deposit_capacity, scaled_deposit_limit, get_liability_amount, get_asset_amount,
  get_asset_shares, get_liability_shares, check_utilization_ratio, check_deposit_limit,
  check_borrow_limit, Bank,
}
use bot_flash_loan.Marginfi.Panic.{flag_set, update_from_panic_state}
use bot_flash_loan.Marginfi.Group.{MarginfiGroup, is_protocol_paused}
use bot_flash_loan.Marginfi.Lending.{
  Accounts, Outside, try_lending_accounts, wrap, pre_fee, insert, sort_balances,
}
use bot_flash_loan.Marginfi.Lending.Borrow.{
  lending_account_borrow, settle_borrow, event_amount, borrow_with_fee, share_fee,
}
use bot_flash_loan.Marginfi.Lending.Safety.{Borrowed, lending_account_borrow-Borrowed}
use bot_flash_loan.Prelude.Bits.{bit_and, combine}
use bot_flash_loan.Marginfi.Bank.Accrual.{
  accrue_interest, update_bank_cache, cache_rates, update_interest_rates, milli_to_u32,
  update_cache_price,
}
use bot_flash_loan.Marginfi.Interest.Rates.{
  create_interest_rate_calculator, get_fees, calc_fee_rate, base_rate, rates_from, assert_rates,
  calc_interest_rate,
}
use bot_flash_loan.Marginfi.Interest.Curve.{
  util_from_u32, rate_from_u32, lerp, curve_from, interest_rate_multipoint_curve,
}
use bot_flash_loan.Marginfi.Policy.{validate_asset_tags, scan_tags, validate_bank_state}
use bot_flash_loan.Marginfi.Wrapper.Slots.{
  find, find_or_create, position, create, get_first_empty_balance, count, set_balance,
}
use bot_flash_loan.Marginfi.Wrapper.Amounts.{
  deposit, repay, increase_balance_internal, check_increase, borrow, decrease_balance_internal,
  check_decrease, shift_asset_shares, shift_liability_shares, count_positions, check_utilization,
}
use bot_flash_loan.Marginfi.Wrapper.{
  claim_emissions, emissions_amount, earn_if, is_zero_with_tolerance, change_asset_shares,
  change_liability_shares,
}
use bot_flash_loan.Marginfi.Lending.Repay.{
  lending_account_repay, repay_some_or_all, complete_repayments, pay, is_tokenless,
  deposit_spl_transfer,
}
use bot_flash_loan.Marginfi.Lending.Deposit.{lending_account_deposit, deposit_amount, deposit_some}
use bot_flash_loan.Marginfi.Lending.Depositing.{Deposited, lending_account_deposit-Deposited}
use bot_flash_loan.Marginfi.Lending.Paying.{Repaid, lending_account_repay-Repaid}
use bot_flash_loan.Marginfi.Lending.Pausing.{is_protocol_paused-Reached}
use bot_flash_loan.Marginfi.Lending.Sort.{Descending, sort_balances_sorts}
use bot_flash_loan.Marginfi.Wrapper.All.{repay_all}
use bot_flash_loan.Tests.Panic.{twice, twice-Reached}
use bot_flash_loan.Tests.Amounts.{pool}
use bot_flash_loan.Tests.Exact.{exact, exact-FixedLaws, tokens}

-- The token program keeps a log of its transfers.
abbrev pub Transfers : Type 0
Transfers = List (Pubkey × Pubkey × ℕ)

abbrev pub outside : Outside (Unit {0}) Transfers
outside = record {
  maybe_take_bank_mint = λ bank infos. ok (none, infos);
  calculate_pre_fee = λ mint amount. ok amount;
  transfer = λ from to amount log. ok ((from, to, amount) ∷ log);
  load = λ account infos. ok (
      record {
        balance = record empty_deactivated { active = 1; bank_pk = 12; asset_shares = tokens 90 };
        risk_tier = collateral;
        weighted_value = ok (tokens 80, tokens 50);
      }
      ∷ []);
  price = λ account infos bank. none;
}

abbrev pub group : MarginfiGroup
group = record {
  admin = 1;
  risk_admin = 2;
  group_flags = 1;
  fee_state_cache = record {
    program_fee_fixed = pos 0;
    program_fee_rate = tokens 0;
    last_update = pos 0;
  };
  banks = 1;
  emode_admin = 4;
  delegate_curve_admin = 5;
  delegate_limit_admin = 6;
  delegate_emissions_admin = 7;
  deleverage_withdraw_window_cache = record {
    daily_limit = 1000;
    withdrawn_today = 0;
    last_daily_reset_timestamp = pos 0;
  };
  metadata_admin = 8;
  emode_max_init_leverage = 644245094;
  emode_max_maint_leverage = 858993459;
  panic_state_cache = record {
    pause_flags = 0;
    pause_start_timestamp = pos 0;
    last_cache_update = pos 0;
  };
}

abbrev pub accounts : Accounts
accounts = record {
  group_key = 9;
  group = group;
  marginfi_account = record {
    group = 9;
    authority = 3;
    balances =
        record empty_deactivated { active = 1; bank_pk = 12; asset_shares = tokens 90 }
        ∷ empty_deactivated
        ∷ [];
    account_flags = 0;
    last_update = 100;
  };
  authority = 3;
  bank_key = 13;
  bank = pool;
  vault = 77;
  wallet = 78;
  remaining_accounts = [];
}

abbrev outcome : MarginfiAccount × Bank × Transfers
outcome = elim (lending_account_borrow exact outside (pos 1700000000) accounts 50 []) [
  | ok result ↦ result
  | err e ↦ (accounts.marginfi_account, pool, [])
]

borrow_ok : lending_account_borrow exact outside (pos 1700000000) accounts 50 [] ≡ ok outcome
unfolding lending_account_borrow settle_borrow event_amount try_lending_accounts wrap pre_fee insert
    sort_balances is_protocol_paused borrow_with_fee share_fee flag_set bit_and combine
    account_not_frozen_for_authority get_flag is_signer_authorized accrue_interest update_bank_cache
    cache_rates update_interest_rates milli_to_u32 update_cache_price
    create_interest_rate_calculator get_fees calc_fee_rate base_rate rates_from assert_rates
    calc_interest_rate util_from_u32 rate_from_u32 lerp curve_from interest_rate_multipoint_curve
    validate_asset_tags scan_tags validate_bank_state find_or_create position create
    get_first_empty_balance count set_balance borrow decrease_balance_internal check_decrease
    shift_asset_shares shift_liability_shares count_positions check_utilization claim_emissions
    emissions_amount earn_if is_zero_with_tolerance change_asset_shares change_liability_shares
    get_liability_amount get_asset_amount get_asset_shares get_liability_shares
    check_utilization_ratio check_deposit_limit check_borrow_limit check_account_init_health
    check_account_health get_account_health_components health_components_from
    check_account_risk_tiers count_liabilities Bank.get_flag Bank.change_asset_shares
    Bank.change_liability_shares ◌+ℤ◌ ◌-ℤ◌
borrow_ok = refl

lending_account_borrow-Borrowed_example :
    Borrowed exact outside (pos 1700000000) accounts 50 [] outcome
lending_account_borrow-Borrowed_example =
    lending_account_borrow-Borrowed exact exact-FixedLaws outside (pos 1700000000) accounts 50 []
      outcome borrow_ok

abbrev debtor : Accounts
debtor = record accounts {
  marginfi_account = record accounts.marginfi_account {
    balances =
        record empty_deactivated { active = 1; bank_pk = 13; liability_shares = tokens 50 }
        ∷ empty_deactivated
        ∷ [];
  };
  bank = record pool { total_liability_shares = tokens 70; borrowing_position_count = pos 2 };
}

abbrev settled : MarginfiAccount × Bank × Transfers
settled = elim (lending_account_repay exact outside (pos 1700000000) debtor 20 false []) [
  | ok result ↦ result
  | err e ↦ (debtor.marginfi_account, pool, [])
]

repay_ok : lending_account_repay exact outside (pos 1700000000) debtor 20 false [] ≡ ok settled
unfolding lending_account_repay repay repay_all repay_some_or_all complete_repayments pay
    is_tokenless deposit_spl_transfer find increase_balance_internal check_increase
    try_lending_accounts wrap pre_fee insert sort_balances is_protocol_paused borrow_with_fee
    share_fee flag_set bit_and combine account_not_frozen_for_authority get_flag
    is_signer_authorized accrue_interest update_bank_cache cache_rates update_interest_rates
    milli_to_u32 update_cache_price create_interest_rate_calculator get_fees calc_fee_rate base_rate
    rates_from assert_rates calc_interest_rate util_from_u32 rate_from_u32 lerp curve_from
    interest_rate_multipoint_curve validate_asset_tags scan_tags validate_bank_state find_or_create
    position create get_first_empty_balance count set_balance borrow decrease_balance_internal
    check_decrease shift_asset_shares shift_liability_shares count_positions check_utilization
    claim_emissions emissions_amount earn_if is_zero_with_tolerance change_asset_shares
    change_liability_shares get_liability_amount get_asset_amount get_asset_shares
    get_liability_shares check_utilization_ratio check_deposit_limit check_borrow_limit
    check_account_init_health check_account_health get_account_health_components
    health_components_from check_account_risk_tiers count_liabilities Bank.get_flag
    Bank.change_asset_shares Bank.change_liability_shares ◌+ℤ◌ ◌-ℤ◌
repay_ok = refl

lending_account_repay-Repaid_example :
    Repaid exact outside (pos 1700000000) debtor 20 false [] settled
lending_account_repay-Repaid_example =
    lending_account_repay-Repaid exact outside (pos 1700000000) debtor 20 false [] settled repay_ok

abbrev after_twice : MarginfiGroup
after_twice = record group { panic_state_cache = update_from_panic_state twice (pos 100700) }

is_protocol_paused-Reached_example : is_protocol_paused after_twice (pos 104200) ≡ ok false
is_protocol_paused-Reached_example =
    is_protocol_paused-Reached 100600 104200 (pos 100700) twice after_twice refl twice-Reached
      (omega arith) (omega arith)

sort_balances_sorts_example :
    Perm (sort_balances debtor.marginfi_account.balances) debtor.marginfi_account.balances
    × Descending (sort_balances debtor.marginfi_account.balances)
sort_balances_sorts_example = sort_balances_sorts debtor.marginfi_account.balances

abbrev with_deposit : MarginfiAccount × Bank × Transfers
with_deposit = elim (lending_account_deposit exact outside (pos 1700000000) accounts 5000 true []) [
  | ok result ↦ result
  | err e ↦ (accounts.marginfi_account, pool, [])
]

-- More than the pool may take, up to its limit.
deposit_ok :
    lending_account_deposit exact outside (pos 1700000000) accounts 5000 true [] ≡ ok with_deposit
unfolding lending_account_deposit deposit_amount deposit_some deposit get_remaining_deposit_capacity
    scaled_deposit_limit repay repay_all repay_some_or_all complete_repayments pay is_tokenless
    deposit_spl_transfer find increase_balance_internal check_increase try_lending_accounts wrap
    pre_fee insert sort_balances is_protocol_paused borrow_with_fee share_fee flag_set bit_and
    combine account_not_frozen_for_authority get_flag is_signer_authorized accrue_interest
    update_bank_cache cache_rates update_interest_rates milli_to_u32 update_cache_price
    create_interest_rate_calculator get_fees calc_fee_rate base_rate rates_from assert_rates
    calc_interest_rate util_from_u32 rate_from_u32 lerp curve_from interest_rate_multipoint_curve
    validate_asset_tags scan_tags validate_bank_state find_or_create position create
    get_first_empty_balance count set_balance borrow decrease_balance_internal check_decrease
    shift_asset_shares shift_liability_shares count_positions check_utilization claim_emissions
    emissions_amount earn_if is_zero_with_tolerance change_asset_shares change_liability_shares
    get_liability_amount get_asset_amount get_asset_shares get_liability_shares
    check_utilization_ratio check_deposit_limit check_borrow_limit check_account_init_health
    check_account_health get_account_health_components health_components_from
    check_account_risk_tiers count_liabilities Bank.get_flag Bank.change_asset_shares
    Bank.change_liability_shares ◌+ℤ◌ ◌-ℤ◌
deposit_ok = refl

lending_account_deposit-Deposited_example :
    Deposited exact outside (pos 1700000000) accounts 5000 true [] with_deposit
lending_account_deposit-Deposited_example =
    lending_account_deposit-Deposited exact outside (pos 1700000000) accounts 5000 true []
      with_deposit deposit_ok
