-- ===== src/Tests/Amounts.antt =====
-- Depositing, borrowing and repaying against one bank.
use bot_flash_loan.Prelude.{◌^◌, ◌≡◌, false, refl, List, [], ◌∷◌, ok}
use bot_flash_loan.Prelude.Bits.{bit_and, combine}
use bot_flash_loan.Prelude.Int.{pos, ◌+ℤ◌, ◌-ℤ◌}
use bot_flash_loan.Marginfi.Fixed.{zero_fixed}
use bot_flash_loan.Marginfi.Account.{Balance, empty_deactivated}
use bot_flash_loan.Marginfi.Risk.{collateral}
use bot_flash_loan.Marginfi.Emode.{padding}
use bot_flash_loan.Marginfi.Bank
use bot_flash_loan.Marginfi.Bank.{
  Bank, operational, pyth_push_oracle, u64_max, get_asset_amount, get_liability_amount,
  get_asset_shares, get_liability_shares, check_deposit_limit, check_borrow_limit,
  check_utilization_ratio,
}
use bot_flash_loan.Marginfi.Wrapper.{
  BankAccountWrapper, change_asset_shares, change_liability_shares, close, claim_emissions,
  emissions_amount, earn_if, is_zero_with_tolerance,
}
use bot_flash_loan.Marginfi.Wrapper.Amounts.{
  deposit_only, borrow_only, shift_asset_shares, shift_liability_shares, check_increase,
  check_decrease, check_utilization, count_positions, increase_balance_internal,
  decrease_balance_internal,
}
use bot_flash_loan.Marginfi.Wrapper.All.{repay_all, collect_insurance_fees}
use bot_flash_loan.Marginfi.Wrapper.Slots.{
  find, find_or_create, create, get_first_empty_balance, position, count, set_balance, created,
}
use bot_flash_loan.Marginfi.Wrapper.Slots.Lookup.{find_or_create-find}
use bot_flash_loan.Marginfi.Wrapper.Conservation.{Solvent, decrease_balance_internal-Solvent}
use bot_flash_loan.Marginfi.Wrapper.Ledger.{
  Ledger, Backed, Runs, moves, done, increases, sum_of, Runs-Backed,
}
use bot_flash_loan.Marginfi.Wrapper.Repayment.{Repaid, repay_all-Repaid}
use bot_flash_loan.Marginfi.Policy.{validate_asset_tags, scan_tags}
use bot_flash_loan.Marginfi.Policy.Tags.{clash, validate_asset_tags-clash}
use bot_flash_loan.Tests.Interest.{config}
use bot_flash_loan.Tests.Exact.{exact, exact-FixedLaws, tokens}

-- Others own 100 tokens of the bank and owe 20; a share is a token.
abbrev pub pool : Bank
pool = record {
  mint_decimals = 6;
  asset_share_value = tokens 1;
  liability_share_value = tokens 1;
  collected_insurance_fees_outstanding = zero_fixed;
  total_liability_shares = tokens 20;
  total_asset_shares = tokens 100;
  config = record {
    asset_weight_init = pos (2 ^ 47);
    asset_weight_maint = pos (2 ^ 47);
    liability_weight_init = pos (2 ^ 49);
    liability_weight_maint = pos (2 ^ 48);
    oracle_setup = pyth_push_oracle;
    risk_tier = collateral;
    config_flags = 0;
    total_asset_value_init_limit = 0;
    oracle_key = 60;
    fixed_price = zero_fixed;
    oracle_max_age = 60;
    oracle_max_confidence = 0;
    deposit_limit = 1000;
    borrow_limit = 500;
    operational_state = operational;
    asset_tag = 0;
    interest_rate_config = config;
  };
  flags = 0;
  emissions_mint = 0;
  emissions_rate = 0;
  emissions_remaining = zero_fixed;
  lending_position_count = pos 3;
  borrowing_position_count = pos 1;
  group = 9;
  liquidity_vault = 77;
  collected_group_fees_outstanding = pos 0;
  collected_program_fees_outstanding = pos 0;
  last_update = pos 1700000000;
  cache = record {
    base_rate = 0;
    lending_rate = 0;
    borrowing_rate = 0;
    interest_accumulated_for = 0;
    accumulated_since_last_update = pos 0;
    last_oracle_price = pos 0;
    last_oracle_price_timestamp = pos 0;
    last_oracle_price_confidence = pos 0;
  };
  emode = record {
    emode_tag = 0;
    timestamp = pos 0;
    flags = 0;
    emode_config = record { entries = padding 10 };
  };
}

abbrev slot : Balance
slot = record empty_deactivated { active = 1; bank_pk = 13; last_update = 100 }

abbrev start : BankAccountWrapper
start = record { balance = slot; bank = pool }

abbrev deposited : BankAccountWrapper
deposited = record {
  balance = record slot { asset_shares = tokens 10; last_update = 200 };
  bank = record pool { total_asset_shares = tokens 110; lending_position_count = pos 4 };
}

abbrev borrowed : BankAccountWrapper
borrowed = record {
  balance = record slot { liability_shares = tokens 50; last_update = 200 };
  bank = record pool { total_liability_shares = tokens 70; borrowing_position_count = pos 2 };
}

abbrev repaid : BankAccountWrapper
repaid = record { balance = empty_deactivated; bank = pool }

deposit_ok : increase_balance_internal exact 200 start (tokens 10) deposit_only ≡ ok deposited
unfolding increase_balance_internal claim_emissions emissions_amount earn_if get_liability_amount
    get_asset_shares get_liability_shares check_increase is_zero_with_tolerance shift_asset_shares
    shift_liability_shares change_asset_shares change_liability_shares Bank.change_asset_shares
    Bank.change_liability_shares check_deposit_limit check_borrow_limit get_asset_amount
    count_positions Bank.scaled_deposit_limit ◌+ℤ◌ ◌-ℤ◌
deposit_ok = refl

borrow_ok : decrease_balance_internal exact 200 start (tokens 50) borrow_only ≡ ok borrowed
unfolding decrease_balance_internal claim_emissions emissions_amount earn_if get_liability_amount
    get_asset_shares get_liability_shares check_decrease is_zero_with_tolerance shift_asset_shares
    shift_liability_shares change_asset_shares change_liability_shares Bank.change_asset_shares
    Bank.change_liability_shares check_deposit_limit check_borrow_limit get_asset_amount
    count_positions check_utilization check_utilization_ratio ◌+ℤ◌ ◌-ℤ◌
borrow_ok = refl

repay_ok : repay_all exact 300 borrowed ≡ ok (repaid, 50)
unfolding repay_all claim_emissions emissions_amount earn_if get_liability_amount get_asset_amount
    is_zero_with_tolerance close Bank.change_liability_shares check_borrow_limit
    collect_insurance_fees Bank.get_flag ◌+ℤ◌ ◌-ℤ◌ bit_and combine
repay_ok = refl

decrease_balance_internal-Solvent_example : Solvent exact borrowed.bank
decrease_balance_internal-Solvent_example =
    decrease_balance_internal-Solvent exact exact-FixedLaws 200 start borrowed (tokens 50)
      borrow_only refl borrow_ok

repay_all-Repaid_example : Repaid borrowed repaid
repay_all-Repaid_example = repay_all-Repaid exact exact-FixedLaws 300 borrowed repaid 50 repay_ok

abbrev slots : List Balance
slots = record slot { bank_pk = 12 } ∷ empty_deactivated ∷ empty_deactivated ∷ []

abbrev new_slots : List Balance
new_slots = record slot { bank_pk = 12 } ∷ created 200 13 pool ∷ empty_deactivated ∷ []

create_ok : find_or_create 200 13 pool slots ≡ ok (1, new_slots)
unfolding find_or_create create get_first_empty_balance position count set_balance
create_ok = refl

find_or_create-find_example : find 13 new_slots ≡ ok 1
find_or_create-find_example = find_or_create-find 200 13 pool slots 1 new_slots create_ok

abbrev staked_pool : Bank
staked_pool = record pool { config = record pool.config { asset_tag = 2 } }

validate_asset_tags-clash_example : clash 0 0 ≡ false
unfolding validate_asset_tags scan_tags
validate_asset_tags-clash_example =
    validate_asset_tags-clash pool slots 0 (record slot { bank_pk = 12 }) refl refl refl

abbrev before : Ledger
before = record {
  bank = pool;
  balances =
      record slot { bank_pk = 13; asset_shares = tokens 100; liability_shares = tokens 20 }
      ∷ slot
      ∷ [];
}

abbrev after : Ledger
after = record {
  bank = deposited.bank;
  balances =
      record slot { bank_pk = 13; asset_shares = tokens 100; liability_shares = tokens 20 }
      ∷ deposited.balance
      ∷ [];
}

before-Backed : Backed before
unfolding sum_of ◌+ℤ◌
before-Backed = record { asset_shares = refl; liability_shares = refl }

before-Runs : Runs exact before after
unfolding set_balance
before-Runs =
    moves 1 slot deposited before after refl
      (increases 200 start deposited (tokens 10) deposit_only deposit_ok) done

Runs-Backed_example : Backed after
Runs-Backed_example = Runs-Backed exact exact-FixedLaws before after before-Backed before-Runs
