-- ===== src/Marginfi/Admin.antt =====
-- The instructions that configure groups and banks, of
-- marginfi-v2/programs/marginfi/src/instructions/marginfi_group/: configure.rs,
-- config_group_fee.rs, configure_withdrawal_limit.rs, configure_bank.rs, configure_bank_lite.rs,
-- config_bank_emode.rs and emode_clone.rs, with the constraints on their accounts.
pub mod Emissions
pub mod Settings
pub mod Configured
pub mod Rewritten
pub mod Frozen
pub mod Entries
use bot_flash_loan.Prelude.{
  ℕ, ◌*◌, ◌^◌, Bool, true, ◌||◌, List, Option, none, some, Result, ok, check, ◌>>=◌, ◌>>◌, ◌==◌,
  ltb, if◌then◌else◌,
}
use bot_flash_loan.Prelude.Int.{ℤ, pos, ltb_ℤ}
use bot_flash_loan.Solana.{Pubkey}
use bot_flash_loan.Marginfi.Error.{MarginfiError}
use bot_flash_loan.Marginfi.Fixed.{Fixed, I80F48, one_fixed, leb_fixed}
use bot_flash_loan.Marginfi.Account.{Failure, marginfi}
use bot_flash_loan.Marginfi.Interest
use bot_flash_loan.Marginfi.Interest.{InterestRateConfigOpt, set_if_some}
use bot_flash_loan.Marginfi.Bank.{Bank, get_flag, update_flag}
use bot_flash_loan.Marginfi.Bank.Config.{
  BankConfigOpt, configure, configure_unfrozen_fields_only, freeze_settings_flag,
  tokenless_repayments_flag, tokenless_repayments_complete_flag,
}
use bot_flash_loan.Marginfi.Emode.{EmodeEntry, sort_by_tag, update_emode_enabled}
use bot_flash_loan.Marginfi.Emode.Leverage.{
  bad_emode_config, validate_entries_with_liability_weights,
}
use bot_flash_loan.Marginfi.Group.{
  MarginfiGroup, update_admin, update_emode_admin, update_curve_admin, update_limit_admin,
  update_emissions_admin, update_metadata_admin, update_risk_admin, set_program_fee_enabled,
  basis_to_u32,
}

-- The accounts of an instruction on one bank, with the signer that it asks for.
pub record BankAccounts : Type 0 where
  pub group_key : Pubkey
  pub group : MarginfiGroup
  pub signer : Pubkey
  pub bank : Bank

-- `has_one` of the signer's role in the group, and of the group in the bank.
unfoldable pub try_bank_accounts : Pubkey → BankAccounts → Result Failure (Unit {0})
try_bank_accounts role a = do
  check (role == a.signer) (marginfi MarginfiError.unauthorized)
  check (a.bank.group == a.group_key) (marginfi MarginfiError.invalid_group)

-- Of a frozen bank, the configuration of the interest rates stays as it is.
unfoldable pub lending_pool_configure_bank_interest_only :
    BankAccounts → InterestRateConfigOpt → Result Failure Bank
lending_pool_configure_bank_interest_only a o = do
  try_bank_accounts a.group.delegate_curve_admin a
  if get_flag a.bank freeze_settings_flag then ok a.bank else do
    let rates = Interest.update a.bank.config.interest_rate_config o
    Interest.validate rates
    ok (record a.bank { config = record a.bank.config { interest_rate_config = rates } })

unfoldable pub lending_pool_configure_bank_limits_only :
    BankAccounts → Option ℕ → Option ℕ → Option ℕ → Result Failure Bank
lending_pool_configure_bank_limits_only a deposit_limit borrow_limit total_asset_value_init_limit =
    do
      try_bank_accounts a.group.delegate_limit_admin a
      ok (record a.bank {
        config = record a.bank.config {
          deposit_limit = set_if_some a.bank.config.deposit_limit deposit_limit;
          borrow_limit = set_if_some a.bank.config.borrow_limit borrow_limit;
          total_asset_value_init_limit =
              if get_flag a.bank freeze_settings_flag
              then a.bank.config.total_asset_value_init_limit
              else set_if_some a.bank.config.total_asset_value_init_limit
                  total_asset_value_init_limit;
        };
      })

unfoldable pub lending_pool_force_tokenless_repay_complete : BankAccounts → Result Failure Bank
lending_pool_force_tokenless_repay_complete a = do
  try_bank_accounts a.group.risk_admin a
  if get_flag a.bank tokenless_repayments_flag
      then update_flag a.bank true tokenless_repayments_complete_flag
      else ok a.bank

-- Copies the entries of another bank of the group.
unfoldable pub lending_pool_clone_emode : BankAccounts → Bank → Result Failure Bank
lending_pool_clone_emode a copy_from_bank = do
  check (copy_from_bank.group == a.group_key) (marginfi MarginfiError.invalid_group)
  check (a.bank.group == a.group_key) (marginfi MarginfiError.invalid_group)
  check (a.signer == a.group.admin || a.signer == a.group.emode_admin)
      (marginfi MarginfiError.unauthorized)
  ok (record a.bank { emode = copy_from_bank.emode })

-- The group's own instructions are given the group and who signed.
unfoldable pub configure_deleverage_withdrawal_limit :
    ℤ → MarginfiGroup → Pubkey → ℕ → Result Failure MarginfiGroup
configure_deleverage_withdrawal_limit now g signer daily_withdrawal_limit = do
  check (g.admin == signer) (marginfi MarginfiError.unauthorized)
  check (ltb 0 daily_withdrawal_limit) (marginfi MarginfiError.zero_withdrawal_limit)
  ok (record g {
    deleverage_withdraw_window_cache = record g.deleverage_withdraw_window_cache {
      daily_limit = daily_withdrawal_limit;
      last_daily_reset_timestamp = now;
    };
  })

-- `global_fee_admin` is the fee state's.
unfoldable pub config_group_fee :
    ℤ → MarginfiGroup → Pubkey → Pubkey → Bool → Result Failure MarginfiGroup
config_group_fee now g global_fee_admin signer enable_program_fee = do
  check (global_fee_admin == signer) (marginfi MarginfiError.unauthorized)
  let set = set_program_fee_enabled enable_program_fee g
  ok (record set { fee_state_cache = record set.fee_state_cache { last_update = now } })

-- The admins that `configure` sets.
pub record Admins : Type 0 where
  pub new_admin : Pubkey
  pub new_emode_admin : Pubkey
  pub new_curve_admin : Pubkey
  pub new_limit_admin : Pubkey
  pub new_emissions_admin : Pubkey
  pub new_metadata_admin : Pubkey
  pub new_risk_admin : Pubkey

unfoldable pub update_admins : Admins → MarginfiGroup → MarginfiGroup
update_admins n g = update_risk_admin n.new_risk_admin (
    update_metadata_admin n.new_metadata_admin (
      update_emissions_admin n.new_emissions_admin (
        update_limit_admin n.new_limit_admin (
          update_curve_admin n.new_curve_admin
            (update_emode_admin n.new_emode_admin (update_admin n.new_admin g))))))

abbrev hundred : I80F48
hundred = pos (100 * 2 ^ 48)

module _ (fx : Fixed) where
  unfoldable pub configure_group :
      ℤ
      → MarginfiGroup
      → Pubkey
      → Admins
      → Option I80F48
      → Option I80F48
      → Result Failure MarginfiGroup
  configure_group now g signer n emode_max_init_leverage emode_max_maint_leverage = do
    check (g.admin == signer) (marginfi MarginfiError.unauthorized)
    let init = set_if_some (pos (15 * 2 ^ 48)) emode_max_init_leverage
    let maint = set_if_some (pos (20 * 2 ^ 48)) emode_max_maint_leverage
    check (leb_fixed one_fixed init) bad_emode_config
    check (leb_fixed init hundred) bad_emode_config
    check (leb_fixed one_fixed maint) bad_emode_config
    check (leb_fixed maint hundred) bad_emode_config
    check (ltb_ℤ init maint) bad_emode_config
    init_u32 ← basis_to_u32 fx init
    maint_u32 ← basis_to_u32 fx maint
    let updated = update_admins n g
    ok (record updated {
      emode_max_init_leverage = init_u32;
      emode_max_maint_leverage = maint_u32;
      fee_state_cache = record updated.fee_state_cache { last_update = now };
    })

  -- Of a frozen bank, only the limits on deposits and borrows change.
  unfoldable pub lending_pool_configure_bank : BankAccounts → BankConfigOpt → Result Failure Bank
  lending_pool_configure_bank a o = do
    try_bank_accounts a.group.admin a
    if get_flag a.bank freeze_settings_flag
        then ok (configure_unfrozen_fields_only a.bank o)
        else do
          b ← configure a.bank o
          validate_entries_with_liability_weights fx b.emode b.config
              a.group.emode_max_init_leverage a.group.emode_max_maint_leverage
          ok b

  unfoldable pub lending_pool_configure_bank_emode :
      ℤ → BankAccounts → ℕ → List EmodeEntry → Result Failure Bank
  lending_pool_configure_bank_emode now a emode_tag entries = do
    try_bank_accounts a.group.emode_admin a
    let emode = record a.bank.emode {
      emode_tag = emode_tag;
      timestamp = now;
      emode_config = record { entries = sort_by_tag entries };
    }
    validate_entries_with_liability_weights fx emode a.bank.config a.group.emode_max_init_leverage
        a.group.emode_max_maint_leverage
    ok (record a.bank { emode = update_emode_enabled emode })
