-- ===== src/Marginfi/Bank/Config.antt =====
-- The configuration of a bank: marginfi-v2/programs/marginfi/src/state/bank_config.rs, and
-- `configure` and `configure_unfrozen_fields_only` of state/bank.rs. What `validate_oracle_setup`
-- asks of the accounts of oracles is left out.
pub mod Weights
use bot_flash_loan.Prelude.{
  ℕ, ◌-◌, ◌+◌, Bool, true, false, not, ◌&&◌, Option, none, some, Result, ok, err, check, ◌>>=◌,
  ◌>>◌, ◌==◌, leb, if◌then◌else◌,
}
use bot_flash_loan.Prelude.Bits.{mask, bit_and, bit_or}
use bot_flash_loan.Marginfi.Error.{MarginfiError}
use bot_flash_loan.Marginfi.Fixed.{I80F48, zero_fixed, one_fixed, two_fixed, leb_fixed, eq_fixed}
use bot_flash_loan.Marginfi.Account.{Failure, marginfi, BalanceSide, assets, liabilities}
use bot_flash_loan.Marginfi.Risk.{RiskTier, is_isolated}
use bot_flash_loan.Marginfi.Interest
use bot_flash_loan.Marginfi.Interest.{InterestRateConfigOpt, set_if_some, invalid_config}
use bot_flash_loan.Marginfi.Bank.{
  Bank, BankConfig, BankOperationalState, killed_by_bankruptcy, OracleSetup, pyth_push_oracle,
  update_flag,
}

pub data RequirementType : Type 0 where
  initial maintenance equity : RequirementType

unfoldable pub get_weights : BankConfig → RequirementType → I80F48 × I80F48
get_weights c initial = (c.asset_weight_init, c.liability_weight_init)
get_weights c maintenance = (c.asset_weight_maint, c.liability_weight_maint)
get_weights c equity = (one_fixed, one_fixed)

unfoldable pub get_weight : BankConfig → RequirementType → BalanceSide → I80F48
get_weight c initial assets = c.asset_weight_init
get_weight c initial liabilities = c.liability_weight_init
get_weight c maintenance assets = c.asset_weight_maint
get_weight c maintenance liabilities = c.liability_weight_maint
get_weight c equity side = one_fixed

-- In seconds.
abbrev pub oracle_min_age : ℕ
oracle_min_age = 10

abbrev pub max_pyth_oracle_age : ℕ
max_pyth_oracle_age = 60

unfoldable pub check_isolated : BankConfig → Result Failure (Unit {0})
check_isolated c =
    if is_isolated c.risk_tier
    then (do
      check (eq_fixed c.asset_weight_init zero_fixed) invalid_config
      check (eq_fixed c.asset_weight_maint zero_fixed) invalid_config)
    else ok tt

unfoldable pub validate : BankConfig → Result Failure (Unit {0})
validate c = do
  check (leb_fixed zero_fixed c.asset_weight_init && leb_fixed c.asset_weight_init one_fixed)
      invalid_config
  check (leb_fixed c.asset_weight_maint two_fixed) invalid_config
  check (leb_fixed c.asset_weight_init c.asset_weight_maint) invalid_config
  check (leb_fixed one_fixed c.liability_weight_init) invalid_config
  check
      (leb_fixed c.liability_weight_maint c.liability_weight_init
        && leb_fixed one_fixed c.liability_weight_maint)
      invalid_config
  Interest.validate c.interest_rate_config
  check_isolated c
  check (leb oracle_min_age c.oracle_max_age) (marginfi MarginfiError.invalid_oracle_setup)

-- The flags of a configuration are a `u8`.
unfoldable pub update_config_flag : BankConfig → Bool → ℕ → BankConfig
update_config_flag c value flag = record c {
  config_flags = if value then bit_or c.config_flags flag else bit_and c.config_flags (255 - flag);
}

-- `TOTAL_ASSET_VALUE_INIT_LIMIT_INACTIVE` is 0.
abbrev pub usd_init_limit_active : BankConfig → Bool
usd_init_limit_active c = not (c.total_asset_value_init_limit == 0)

abbrev is_pyth_push : OracleSetup → Bool
is_pyth_push pyth_push_oracle = true
is_pyth_push _ = false

unfoldable pub get_oracle_max_age : BankConfig → ℕ
get_oracle_max_age c =
    if c.oracle_max_age == 0 && is_pyth_push c.oracle_setup
    then max_pyth_oracle_age
    else c.oracle_max_age

pub record BankConfigOpt : Type 0 where
  pub asset_weight_init : Option I80F48
  pub asset_weight_maint : Option I80F48
  pub liability_weight_init : Option I80F48
  pub liability_weight_maint : Option I80F48
  pub deposit_limit : Option ℕ
  pub borrow_limit : Option ℕ
  pub operational_state : Option BankOperationalState
  pub interest_rate_config : Option InterestRateConfigOpt
  pub risk_tier : Option RiskTier
  pub asset_tag : Option ℕ
  pub total_asset_value_init_limit : Option ℕ
  pub oracle_max_confidence : Option ℕ
  pub oracle_max_age : Option ℕ
  pub permissionless_bad_debt_settlement : Option Bool
  pub freeze_settings : Option Bool
  pub tokenless_repayments_allowed : Option Bool

abbrev pub permissionless_bad_debt_settlement_flag : ℕ
permissionless_bad_debt_settlement_flag = mask 2

abbrev pub freeze_settings_flag : ℕ
freeze_settings_flag = mask 3

abbrev pub tokenless_repayments_flag : ℕ
tokenless_repayments_flag = mask 5

abbrev pub tokenless_repayments_complete_flag : ℕ
tokenless_repayments_complete_flag = mask 6

-- No configuration kills a bank.
unfoldable pub set_state :
    BankOperationalState → Option BankOperationalState → Result Failure BankOperationalState
set_state old none = ok old
set_state old (some killed_by_bankruptcy) = err (marginfi MarginfiError.unauthorized)
set_state old (some new) = ok new

unfoldable pub set_flag_if_some : ℕ → Bank → Option Bool → Result Failure Bank
set_flag_if_some flag b none = ok b
set_flag_if_some flag b (some value) = update_flag b value flag

abbrev pub update_rates :
    Interest.InterestRateConfig → Option InterestRateConfigOpt → Interest.InterestRateConfig
update_rates c none = c
update_rates c (some o) = Interest.update c o

-- The fields of the configuration, before the flags are set and all of it is validated.
unfoldable pub configure_fields : BankConfig → BankConfigOpt → Result Failure BankConfig
configure_fields c o = do
  state ← set_state c.operational_state o.operational_state
  ok (record c {
    asset_weight_init = set_if_some c.asset_weight_init o.asset_weight_init;
    asset_weight_maint = set_if_some c.asset_weight_maint o.asset_weight_maint;
    liability_weight_init = set_if_some c.liability_weight_init o.liability_weight_init;
    liability_weight_maint = set_if_some c.liability_weight_maint o.liability_weight_maint;
    deposit_limit = set_if_some c.deposit_limit o.deposit_limit;
    borrow_limit = set_if_some c.borrow_limit o.borrow_limit;
    operational_state = state;
    interest_rate_config = update_rates c.interest_rate_config o.interest_rate_config;
    risk_tier = set_if_some c.risk_tier o.risk_tier;
    asset_tag = set_if_some c.asset_tag o.asset_tag;
    total_asset_value_init_limit =
        set_if_some c.total_asset_value_init_limit o.total_asset_value_init_limit;
    oracle_max_confidence = set_if_some c.oracle_max_confidence o.oracle_max_confidence;
    oracle_max_age = set_if_some c.oracle_max_age o.oracle_max_age;
  })

unfoldable pub configure : Bank → BankConfigOpt → Result Failure Bank
configure b o = do
  config ← configure_fields b.config o
  settled ←
      set_flag_if_some permissionless_bad_debt_settlement_flag (record b { config = config })
        o.permissionless_bad_debt_settlement
  frozen ← set_flag_if_some freeze_settings_flag settled o.freeze_settings
  wound_up ← set_flag_if_some tokenless_repayments_flag frozen o.tokenless_repayments_allowed
  validate wound_up.config
  ok wound_up

unfoldable pub configure_unfrozen_fields_only : Bank → BankConfigOpt → Bank
configure_unfrozen_fields_only b o = record b {
  config = record b.config {
    deposit_limit = set_if_some b.config.deposit_limit o.deposit_limit;
    borrow_limit = set_if_some b.config.borrow_limit o.borrow_limit;
  };
}
