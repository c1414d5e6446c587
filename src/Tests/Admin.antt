-- ===== src/Tests/Admin.antt =====
-- Configuring the pool, frozen and not, and a group with a daily limit.
use bot_flash_loan.Prelude.{
  ℕ, ◌+◌, ◌^◌, ◌≤◌, ◌≡◌, refl, true, false, inl, List, [], ◌∷◌, none, some, Result, ok, err, Every,
  every_none, every_next, arith,
}
use bot_flash_loan.Prelude.Bits.{bit_and, bit_or, combine}
use bot_flash_loan.Prelude.Int.{ℤ, pos, ◌+ℤ◌, ◌-ℤ◌}
use bot_flash_loan.Solana.{AccountInfo}
use bot_flash_loan.Marginfi.Account.{Failure}
use bot_flash_loan.Marginfi.Fixed.{I80F48}
use bot_flash_loan.Marginfi.Bank.{Bank, BankConfig, get_flag}
use bot_flash_loan.Marginfi.Bank.Config.{get_weight, validate, check_isolated}
use bot_flash_loan.Marginfi.Bank.Config.Weights.{Weighted}
use bot_flash_loan.Marginfi.Interest
use bot_flash_loan.Marginfi.Interest.{
  validate_seven_point, used_points, check_ascending, all_between,
}
use bot_flash_loan.Marginfi.Emode.{
  EmodeEntry, padding, sort_by_tag, insert_by_tag, update_emode_enabled, has_entries, any_entry,
  check_dupes, any_equal_neighbours, filled,
}
use bot_flash_loan.Marginfi.Emode.Leverage.{
  u32_to_basis, calculate_max_leverage, validate_entry, validate_entries,
  validate_entries_with_liability_weights,
}
use bot_flash_loan.Marginfi.Group.{
  MarginfiGroup, update_withdrawn_equity, reset_window, withdraw_in_window,
}
use bot_flash_loan.Marginfi.Group.Withdrawn.{
  InWindow, withdraw_each, dollars_of, window, withdraw_each-within,
}
use bot_flash_loan.Marginfi.Admin.{
  BankAccounts, try_bank_accounts, lending_pool_configure_bank_limits_only,
  lending_pool_configure_bank_emode,
}
use bot_flash_loan.Marginfi.Admin.Configured.{
  by_limit_admin, ConfiguresAll, unchanged, then_configured,
}
use bot_flash_loan.Marginfi.Admin.Rewritten.{
  RewritesAll, unwritten, then_rewritten, by_configuring, by_migration, RewritesAll-Weighted,
}
use bot_flash_loan.Marginfi.Admin.Settings.{migrate_curve}
use bot_flash_loan.Marginfi.Admin.Emissions.{
  EmissionsAccounts, lending_pool_update_emissions_parameters,
}
use bot_flash_loan.Marginfi.Admin.Entries.{
  EntriesConfigured, lending_pool_configure_bank_emode-Configured,
}
use bot_flash_loan.Marginfi.Admin.Frozen.{
  is_frozen, StillFrozen, ConfiguresAll-StillFrozen,
  lending_pool_update_emissions_parameters-unfrozen,
}
use bot_flash_loan.Tests.Amounts.{pool}
use bot_flash_loan.Tests.Lending.{group, outside, Transfers}
use bot_flash_loan.Tests.Exact.{exact, tokens}

abbrev frozen_pool : Bank
frozen_pool = record pool { flags = 8; emissions_mint = 55 }

-- The signer of number `n` on the frozen pool.
abbrev signed : ℕ → BankAccounts
signed n = record { group_key = 9; group = group; signer = n; bank = frozen_pool }

abbrev raised : Bank
raised = elim (lending_pool_configure_bank_limits_only (signed 6) (some 2000) none (some 70)) [
  | ok b ↦ b
  | err e ↦ pool
]

limits_ok :
    lending_pool_configure_bank_limits_only (signed 6) (some 2000) none (some 70) ≡ ok raised
unfolding lending_pool_configure_bank_limits_only try_bank_accounts get_flag bit_and combine
limits_ok = refl

any_oracle : BankConfig → List AccountInfo → Result Failure (Unit {0})
any_oracle c infos = ok tt

raising : ConfiguresAll exact any_oracle frozen_pool raised
raising = then_configured unchanged (by_limit_admin (signed 6) (some 2000) none (some 70) limits_ok)

migrated_ok : migrate_curve exact raised ≡ ok raised
unfolding migrate_curve validate check_isolated Interest.validate validate_seven_point used_points
    check_ascending all_between lending_pool_configure_bank_limits_only try_bank_accounts
migrated_ok = refl

pool-Weighted : Weighted frozen_pool.config
unfolding Interest.validate validate_seven_point used_points check_ascending all_between
pool-Weighted = record {
  assets_low = refl;
  assets_high = refl;
  assets_ordered = refl;
  assets_maint_high = refl;
  liabilities_low = refl;
  liabilities_ordered = refl;
  isolated_counts_not = inl refl;
  rates = refl;
  oracle_age = omega arith;
}

-- The limits are raised, and then the curve is migrated, which it was already.
rewriting : RewritesAll exact any_oracle outside frozen_pool raised
rewriting =
    then_rewritten
      (then_rewritten unwritten
        (by_configuring (by_limit_admin (signed 6) (some 2000) none (some 70) limits_ok)))
      (by_migration migrated_ok)

RewritesAll-Weighted_example : Weighted raised.config
RewritesAll-Weighted_example =
    RewritesAll-Weighted exact any_oracle outside frozen_pool raised rewriting pool-Weighted

pool-frozen : is_frozen frozen_pool ≡ true
unfolding get_flag bit_and combine
pool-frozen = refl

ConfiguresAll-StillFrozen_example : StillFrozen frozen_pool raised
ConfiguresAll-StillFrozen_example =
    ConfiguresAll-StillFrozen exact any_oracle frozen_pool raised raising pool-frozen

abbrev emissions : EmissionsAccounts (Unit {0})
emissions = record {
  of_bank = signed 7;
  emissions_mint = 55;
  mint = tt;
  emissions_funding_account = 90;
  emissions_token_account = 91;
}

lending_pool_update_emissions_parameters-unfrozen_example :
    (b : Bank) × (lending_pool_update_emissions_parameters exact outside emissions
        (some 0)
        none
        none
        []
      ≡ ok (b, []))
    × (b.config ≡ pool.config)
    × (is_frozen b ≡ false)
lending_pool_update_emissions_parameters-unfrozen_example =
    lending_pool_update_emissions_parameters-unfrozen exact (Unit {0}) Transfers outside emissions
      [] refl refl (omega arith) refl

abbrev entry : EmodeEntry
entry = record {
  collateral_bank_emode_tag = 101;
  flags = 0;
  asset_weight_init = pos (2 ^ 47);
  asset_weight_maint = pos (2 ^ 47);
}

abbrev entries : List EmodeEntry
entries = entry ∷ padding 9

abbrev with_emode : Bank
with_emode = elim (lending_pool_configure_bank_emode exact (pos 500) (signed 4) 3 entries) [
  | ok b ↦ b
  | err e ↦ pool
]

emode_ok : lending_pool_configure_bank_emode exact (pos 500) (signed 4) 3 entries ≡ ok with_emode
unfolding lending_pool_configure_bank_emode try_bank_accounts sort_by_tag insert_by_tag padding
    validate_entries_with_liability_weights validate_entries validate_entry calculate_max_leverage
    u32_to_basis get_weight check_dupes any_equal_neighbours filled update_emode_enabled has_entries
    any_entry bit_or combine ◌+ℤ◌ ◌-ℤ◌
emode_ok = refl

lending_pool_configure_bank_emode-Configured_example : EntriesConfigured exact (signed 4) with_emode
unfolding padding
lending_pool_configure_bank_emode-Configured_example =
    lending_pool_configure_bank_emode-Configured exact (pos 500) (signed 4) 3 entries with_emode
      refl emode_ok

abbrev withdrawals : List (I80F48 × ℤ)
withdrawals = (tokens 100, pos 1000) ∷ (tokens 200, pos 2000) ∷ []

abbrev after_two : MarginfiGroup
after_two = elim (withdraw_each exact withdrawals group) [ ok g ↦ g | err e ↦ group ]

two_ok : withdraw_each exact withdrawals group ≡ ok after_two
unfolding withdraw_each update_withdrawn_equity reset_window withdraw_in_window ◌-ℤ◌
two_ok = refl

early : Every {A = I80F48 × ℤ} (λ w. InWindow (window group) w.1) withdrawals
unfolding InWindow ◌-ℤ◌
early = every_next refl (every_next refl every_none)

withdraw_each-within_example :
    ((window after_two).withdrawn_today ≡ 0 + dollars_of exact withdrawals)
    × ((window after_two).withdrawn_today ≤ 1000)
withdraw_each-within_example =
    withdraw_each-within exact withdrawals group after_two (omega arith) (omega arith) (omega arith)
      early two_ok
