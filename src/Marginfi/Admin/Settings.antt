-- ===== src/Marginfi/Admin/Settings.antt =====
-- Further instructions that write a bank's configuration, of
-- marginfi-v2/programs/marginfi/src/instructions/marginfi_group/: config_bank_oracle.rs,
-- set_fixed_oracle_price.rs, propagate_staked_settings.rs and migrate_curve.rs. `valid_oracle` is
-- `validate_oracle_setup`, which reads the accounts of the oracle programs.
-- `oracle_key` is the first of a configuration's oracle keys; the others, which none of the four
-- writes, are left out, and so are messages and events.
use bot_flash_loan.Prelude.{
  ℕ, Bool, true, false, not, ◌&&◌, List, [], ◌∷◌, Option, Result, ok, check, ok_or, ◌>>=◌, ◌>>◌,
  ◌==◌, get_elem?, if◌then◌else◌,
}
use bot_flash_loan.Solana.{AccountInfo, Pubkey}
use bot_flash_loan.Marginfi.Error.{MarginfiError}
use bot_flash_loan.Marginfi.Fixed.{Fixed, I80F48, zero_fixed, leb_fixed, min_fixed, max_fixed}
use bot_flash_loan.Marginfi.Account.{Failure, marginfi, program_error, panic, default_pubkey}
use bot_flash_loan.Marginfi.Risk.{RiskTier}
use bot_flash_loan.Marginfi.Interest.{
  InterestRateConfig, RatePoint, u32_max, interest_curve_seven_point,
}
use bot_flash_loan.Marginfi.Bank.{
  Bank, BankConfig, OracleSetup, no_oracle, pyth_legacy, switchboard_v2, pyth_push_oracle,
  switchboard_pull, staked_with_pyth_push, kamino_pyth_push, kamino_switchboard_pull, fixed_oracle,
  drift_pyth_pull, drift_switchboard_pull, solend_pyth_pull, solend_switchboard_pull, get_flag,
}
use bot_flash_loan.Marginfi.Bank.Accrual.{milli_to_u32}
use bot_flash_loan.Marginfi.Bank.Config.{validate, freeze_settings_flag}
use bot_flash_loan.Marginfi.Policy.{asset_tag_staked}
use bot_flash_loan.Marginfi.Admin.{BankAccounts, try_bank_accounts}

-- `OracleSetup::from_u8`
unfoldable pub oracle_from_u8 : ℕ → Option OracleSetup
oracle_from_u8 = get_elem? (
    no_oracle ∷ pyth_legacy ∷ switchboard_v2 ∷ pyth_push_oracle ∷ switchboard_pull
    ∷ staked_with_pyth_push ∷ kamino_pyth_push ∷ kamino_switchboard_pull ∷ fixed_oracle
    ∷ drift_pyth_pull ∷ drift_switchboard_pull ∷ solend_pyth_pull ∷ solend_switchboard_pull ∷ [])

unfoldable pub is_fixed_oracle : OracleSetup → Bool
is_fixed_oracle fixed_oracle = true
is_fixed_oracle _ = false

-- Anchor's `ConstraintHasOne` and `ConstraintRaw`.
abbrev pub constraint_has_one : Failure
constraint_has_one = program_error 2001

abbrev pub constraint_raw : Failure
constraint_raw = program_error 2003

-- What a group sets for its banks of staked collateral.
pub record StakedSettings : Type 0 where
  pub marginfi_group : Pubkey
  pub oracle : Pubkey
  pub asset_weight_init : I80F48
  pub asset_weight_maint : I80F48
  pub deposit_limit : ℕ
  pub total_asset_value_init_limit : ℕ
  pub oracle_max_age : ℕ
  pub risk_tier : RiskTier

abbrev pub with_settings : BankConfig → StakedSettings → BankConfig
with_settings c s = record c {
  oracle_key = s.oracle;
  asset_weight_init = s.asset_weight_init;
  asset_weight_maint = s.asset_weight_maint;
  deposit_limit = s.deposit_limit;
  total_asset_value_init_limit = s.total_asset_value_init_limit;
  oracle_max_age = s.oracle_max_age;
  risk_tier = s.risk_tier;
}

-- `make_points` of one point.
abbrev pub make_points : RatePoint → List RatePoint
make_points p =
    let blank : RatePoint = record { util = 0; rate = 0 } in p ∷ blank ∷ blank ∷ blank ∷ blank ∷ []

module _ (valid_oracle : BankConfig → List AccountInfo → Result Failure (Unit {0})) where
  unfoldable pub lending_pool_configure_bank_oracle :
      BankAccounts → ℕ → Pubkey → List AccountInfo → Result Failure Bank
  lending_pool_configure_bank_oracle a setup oracle remaining = do
    try_bank_accounts a.group.admin a
    check (not (get_flag a.bank freeze_settings_flag)) panic
    setup_type ← ok_or (oracle_from_u8 setup) panic
    check (not (is_fixed_oracle setup_type)) panic
    let config = record a.bank.config { oracle_setup = setup_type; oracle_key = oracle }
    valid_oracle config remaining
    ok (record a.bank { config = config })

  unfoldable pub lending_pool_set_fixed_oracle_price : BankAccounts → I80F48 → Result Failure Bank
  lending_pool_set_fixed_oracle_price a price = do
    check (a.group.admin == a.signer) constraint_has_one
    check (a.bank.group == a.group_key) constraint_has_one
    check (not (get_flag a.bank freeze_settings_flag)) panic
    check (not (a.bank.config.asset_tag == asset_tag_staked)) (marginfi MarginfiError.unauthorized)
    check (leb_fixed zero_fixed price) (marginfi MarginfiError.fixed_oracle_price_negative)
    let config = record a.bank.config {
      oracle_setup = fixed_oracle;
      oracle_key = default_pubkey;
      fixed_price = price;
    }
    valid_oracle config []
    ok (record a.bank { config = config })

  -- Anyone may call it, and it does not ask whether the bank is frozen.
  unfoldable pub propagate_staked_settings :
      Pubkey → StakedSettings → Bank → List AccountInfo → Result Failure Bank
  propagate_staked_settings group_key settings b remaining = do
    check (settings.marginfi_group == group_key) (marginfi MarginfiError.invalid_group)
    check (b.group == group_key && b.config.asset_tag == asset_tag_staked) constraint_raw
    (if b.config.oracle_key == settings.oracle
        then ok tt
        else valid_oracle (with_settings b.config settings) remaining)
    validate (with_settings b.config settings)
    ok (record b { config = with_settings b.config settings })

module _ (fx : Fixed) where
  -- A utilization as a share of 100% in 32 bits.
  unfoldable pub centi_to_u32 : I80F48 → Result Failure ℕ
  centi_to_u32 value = do
    ratio ←
        ok_or
          (fx.checked_div (max_fixed (min_fixed value (fx.from_u64 1)) zero_fixed) (fx.from_u64 1))
          panic
    scaled ← ok_or (fx.checked_mul ratio (fx.from_u64 u32_max)) panic
    ok_or (fx.checked_to_u64 scaled) panic

  -- The three old fields as points of a curve, and zero in their place.
  unfoldable pub migrated_rates : InterestRateConfig → Result Failure InterestRateConfig
  migrated_rates c = do
    hundred ← milli_to_u32 fx c.max_interest_rate
    util ← centi_to_u32 c.optimal_utilization_rate
    rate ← milli_to_u32 fx c.plateau_interest_rate
    ok (record c {
      zero_util_rate = 0;
      hundred_util_rate = hundred;
      points = make_points (record { util = util; rate = rate });
      curve_type = interest_curve_seven_point;
      plateau_interest_rate = zero_fixed;
      max_interest_rate = zero_fixed;
      optimal_utilization_rate = zero_fixed;
    })

  -- Anyone may call it, of a frozen bank too.
  unfoldable pub migrate_curve : Bank → Result Failure Bank
  migrate_curve b = do
    validate b.config
    if b.config.interest_rate_config.curve_type == interest_curve_seven_point then ok b else do
      rates ← migrated_rates b.config.interest_rate_config
      validate (record b.config { interest_rate_config = rates })
      ok (record b { config = record b.config { interest_rate_config = rates } })
