-- ===== src/Marginfi/Error/Codes.antt =====
-- The conversion from a number back into an error, `From<u32>`.
use bot_flash_loan.Prelude.{ℕ, ◌≡◌, ◌≢◌, ◌↔◌, refl, List, [], ◌∷◌, ◌==◌, if◌then◌else◌}
use mathlib.Core.Path.{subst}
use bot_flash_loan.Marginfi.Error.{
  MarginfiError, account_frozen, code, internal_logic_error, bank_not_found,
  lending_account_balance_not_found, bank_asset_capacity_exceeded, invalid_transfer,
  missing_pyth_or_bank_account, missing_pyth_account, missing_bank_account, invalid_bank_account,
  risk_engine_init_rejected, lending_account_balance_slots_full, bank_already_exists,
  zero_liquidation_amount, account_not_bankrupt, balance_not_bad_debt, invalid_config, bank_paused,
  bank_reduce_only, bank_account_not_found, operation_deposit_only, operation_withdraw_only,
  operation_borrow_only, operation_repay_only, no_asset_found, no_liability_found,
  invalid_oracle_setup, illegal_utilization_ratio, bank_liability_capacity_exceeded, invalid_price,
  isolated_account_illegal_state, emissions_already_setup, oracle_not_setup,
  invalid_switchboard_decimal_conversion, cannot_close_outstanding_emissions,
  emissions_update_error, account_disabled, account_temp_active_balance_limit_exceeded,
  account_in_flashloan, illegal_flashloan, illegal_flag, illegal_balance_state,
  illegal_account_authority_transfer, unauthorized, illegal_action, t22_mint_required,
  invalid_fee_ata, added_staked_pool_manually, asset_tag_mismatch, stake_pool_validation_failed,
  switchboard_stale_price, pyth_push_stale_price, wrong_number_of_oracle_accounts,
  wrong_oracle_account_keys, pyth_push_wrong_account_owner, staked_pyth_push_wrong_account_owner,
  oracle_max_confidence_exceeded, pyth_push_insufficient_verification_level, zero_asset_price,
  zero_liability_price, switchboard_wrong_account_owner, pyth_push_invalid_account,
  switchboard_invalid_account, math_error, invalid_emissions_destination_account,
  same_asset_and_liability_banks, overliquidation_attempt, no_liabilities_in_liability_bank,
  assets_in_liability_bank, healthy_account, exhausted_liability, too_severe_payoff,
  too_severe_liquidation, worse_health_post_liquidation, vacated0, vacated1, bad_emode_config,
  pyth_push_invalid_window_size, invalid_fees_destination_account, bank_cannot_close,
  account_already_migrated, protocol_paused, metadata_too_long, pause_limit_exceeded,
  protocol_not_paused, bank_killed_by_bankruptcy, unexpected_liquidation_state, start_not_first,
  start_repeats, end_not_last, forbidden_ix, liquidation_premium_too_high, not_allowed_in_cpi,
  zero_supply_in_stake_pool, invalid_group, invalid_liquidity_vault, invalid_liquidation_record,
  invalid_liquidation_receiver, invalid_emissions_mint, invalid_mint, invalid_fee_wallet,
  fixed_oracle_price_negative, daily_withdrawal_limit_exceeded, zero_withdrawal_limit,
  wrong_asset_tag_for_standard_instructions, wrong_asset_tag_for_kamino_instructions, cant_add_pool,
  kamino_reserve_mint_address_mismatch, kamino_deposit_failed, kamino_withdraw_failed,
  reserve_stale, invalid_obligation_deposit_count, obligation_deposit_reserve_mismatch,
  obligation_init_deposit_insufficient, kamino_reserve_validation_failed,
  kamino_invalid_oracle_setup, integration_position_limit_exceeded, invalid_kamino_reserve,
  invalid_kamino_obligation, drift_invalid_oracle_setup, drift_spot_market_mint_mismatch,
  wrong_bank_asset_tag_for_drift_operation, cant_use_standard_operations_on_drift_assets,
  drift_spot_market_validation_failed, drift_invalid_spot_positions,
  drift_spot_position_market_mismatch, drift_invalid_position_type, drift_scaled_balance_mismatch,
  drift_withdraw_failed, drift_user_init_deposit_insufficient, invalid_drift_account,
  drift_authority_mismatch, drift_invalid_harvest_position_index, drift_position_empty,
  drift_invalid_balance_type, drift_no_admin_deposit, drift_harvest_same_market,
  drift_bricked_account, drift_missing_reward_oracle, drift_missing_reward_spot_market,
  drift_missing_reward_accounts, drift_spot_market_stale, invalid_drift_spot_market,
  invalid_drift_user, invalid_drift_user_stats, drift_unsupported_token_decimals,
  solend_invalid_oracle_setup, solend_reserve_validation_failed, solend_obligation_owner_mismatch,
  wrong_bank_asset_tag_for_solend_operation, cant_use_standard_operations_on_solend_assets,
  solend_reserve_mismatch, solend_reserve_mint_mismatch, solend_invalid_deposit_positions,
  solend_deposit_position_reserve_mismatch, solend_c_token_balance_mismatch, solend_withdraw_failed,
  solend_reserve_stale, solend_deposit_failed, invalid_solend_account,
  invalid_solend_account_version, invalid_solend_reserve, invalid_solend_obligation,
}

-- The arms of the `match`, in order.
abbrev pub arms : List (ℕ × MarginfiError)
arms =
    (6001, bank_not_found)
    ∷ (6002, lending_account_balance_not_found)
    ∷ (6003, bank_asset_capacity_exceeded)
    ∷ (6004, invalid_transfer)
    ∷ (6005, missing_pyth_or_bank_account)
    ∷ (6006, missing_pyth_account)
    ∷ (6007, missing_bank_account)
    ∷ (6008, invalid_bank_account)
    ∷ (6009, risk_engine_init_rejected)
    ∷ (6010, lending_account_balance_slots_full)
    ∷ (6011, bank_already_exists)
    ∷ (6012, zero_liquidation_amount)
    ∷ (6013, account_not_bankrupt)
    ∷ (6014, balance_not_bad_debt)
    ∷ (6015, invalid_config)
    ∷ (6016, bank_paused)
    ∷ (6017, bank_reduce_only)
    ∷ (6018, bank_account_not_found)
    ∷ (6019, operation_deposit_only)
    ∷ (6020, operation_withdraw_only)
    ∷ (6021, operation_borrow_only)
    ∷ (6022, operation_repay_only)
    ∷ (6023, no_asset_found)
    ∷ (6024, no_liability_found)
    ∷ (6025, invalid_oracle_setup)
    ∷ (6026, illegal_utilization_ratio)
    ∷ (6027, bank_liability_capacity_exceeded)
    ∷ (6028, invalid_price)
    ∷ (6029, isolated_account_illegal_state)
    ∷ (6030, emissions_already_setup)
    ∷ (6031, oracle_not_setup)
    ∷ (6032, invalid_switchboard_decimal_conversion)
    ∷ (6033, cannot_close_outstanding_emissions)
    ∷ (6034, emissions_update_error)
    ∷ (6035, account_disabled)
    ∷ (6036, account_temp_active_balance_limit_exceeded)
    ∷ (6037, account_in_flashloan)
    ∷ (6038, illegal_flashloan)
    ∷ (6039, illegal_flag)
    ∷ (6040, illegal_balance_state)
    ∷ (6041, illegal_account_authority_transfer)
    ∷ (6042, unauthorized)
    ∷ (6043, illegal_action)
    ∷ (6044, t22_mint_required)
    ∷ (6045, invalid_fee_ata)
    ∷ (6046, added_staked_pool_manually)
    ∷ (6047, asset_tag_mismatch)
    ∷ (6048, stake_pool_validation_failed)
    ∷ (6049, switchboard_stale_price)
    ∷ (6050, pyth_push_stale_price)
    ∷ (6051, wrong_number_of_oracle_accounts)
    ∷ (6052, wrong_oracle_account_keys)
    ∷ (6053, pyth_push_wrong_account_owner)
    ∷ (6054, staked_pyth_push_wrong_account_owner)
    ∷ (6055, oracle_max_confidence_exceeded)
    ∷ (6056, pyth_push_insufficient_verification_level)
    ∷ (6057, zero_asset_price)
    ∷ (6058, zero_liability_price)
    ∷ (6059, switchboard_wrong_account_owner)
    ∷ (6060, pyth_push_invalid_account)
    ∷ (6061, switchboard_invalid_account)
    ∷ (6062, math_error)
    ∷ (6063, invalid_emissions_destination_account)
    ∷ (6064, same_asset_and_liability_banks)
    ∷ (6065, overliquidation_attempt)
    ∷ (6066, no_liabilities_in_liability_bank)
    ∷ (6067, assets_in_liability_bank)
    ∷ (6068, healthy_account)
    ∷ (6069, exhausted_liability)
    ∷ (6070, too_severe_payoff)
    ∷ (6071, too_severe_liquidation)
    ∷ (6072, worse_health_post_liquidation)
    ∷ (6073, vacated0)
    ∷ (6074, vacated1)
    ∷ (6075, bad_emode_config)
    ∷ (6076, pyth_push_invalid_window_size)
    ∷ (6077, invalid_fees_destination_account)
    ∷ (6078, bank_cannot_close)
    ∷ (6079, account_already_migrated)
    ∷ (6080, protocol_paused)
    ∷ (6081, metadata_too_long)
    ∷ (6082, pause_limit_exceeded)
    ∷ (6083, protocol_not_paused)
    ∷ (6084, bank_killed_by_bankruptcy)
    ∷ (6085, unexpected_liquidation_state)
    ∷ (6086, start_not_first)
    ∷ (6087, start_repeats)
    ∷ (6088, end_not_last)
    ∷ (6089, forbidden_ix)
    ∷ (6090, liquidation_premium_too_high)
    ∷ (6091, not_allowed_in_cpi)
    ∷ (6092, zero_supply_in_stake_pool)
    ∷ (6093, invalid_group)
    ∷ (6094, invalid_liquidity_vault)
    ∷ (6095, invalid_liquidation_record)
    ∷ (6096, invalid_liquidation_receiver)
    ∷ (6097, invalid_emissions_mint)
    ∷ (6098, invalid_mint)
    ∷ (6099, invalid_fee_wallet)
    ∷ (6100, fixed_oracle_price_negative)
    ∷ (6101, daily_withdrawal_limit_exceeded)
    ∷ (6102, zero_withdrawal_limit)
    ∷ (6200, wrong_asset_tag_for_standard_instructions)
    ∷ (6201, wrong_asset_tag_for_kamino_instructions)
    ∷ (6202, cant_add_pool)
    ∷ (6203, kamino_reserve_mint_address_mismatch)
    ∷ (6204, kamino_deposit_failed)
    ∷ (6205, kamino_withdraw_failed)
    ∷ (6206, reserve_stale)
    ∷ (6207, invalid_obligation_deposit_count)
    ∷ (6208, obligation_deposit_reserve_mismatch)
    ∷ (6209, obligation_init_deposit_insufficient)
    ∷ (6210, kamino_reserve_validation_failed)
    ∷ (6211, kamino_invalid_oracle_setup)
    ∷ (6212, integration_position_limit_exceeded)
    ∷ (6213, invalid_kamino_reserve)
    ∷ (6214, invalid_kamino_obligation)
    ∷ (6300, drift_invalid_oracle_setup)
    ∷ (6301, drift_spot_market_mint_mismatch)
    ∷ (6302, wrong_bank_asset_tag_for_drift_operation)
    ∷ (6303, cant_use_standard_operations_on_drift_assets)
    ∷ (6304, drift_spot_market_validation_failed)
    ∷ (6305, drift_invalid_spot_positions)
    ∷ (6306, drift_spot_position_market_mismatch)
    ∷ (6307, drift_invalid_position_type)
    ∷ (6308, drift_scaled_balance_mismatch)
    ∷ (6309, drift_withdraw_failed)
    ∷ (6310, drift_user_init_deposit_insufficient)
    ∷ (6311, invalid_drift_account)
    ∷ (6312, drift_authority_mismatch)
    ∷ (6313, drift_invalid_harvest_position_index)
    ∷ (6314, drift_position_empty)
    ∷ (6315, drift_invalid_balance_type)
    ∷ (6316, drift_no_admin_deposit)
    ∷ (6317, drift_harvest_same_market)
    ∷ (6318, drift_bricked_account)
    ∷ (6319, drift_missing_reward_oracle)
    ∷ (6320, drift_missing_reward_spot_market)
    ∷ (6321, drift_missing_reward_accounts)
    ∷ (6322, drift_spot_market_stale)
    ∷ (6323, invalid_drift_spot_market)
    ∷ (6324, invalid_drift_user)
    ∷ (6325, invalid_drift_user_stats)
    ∷ (6326, drift_unsupported_token_decimals)
    ∷ (6400, solend_invalid_oracle_setup)
    ∷ (6401, solend_reserve_validation_failed)
    ∷ (6402, solend_obligation_owner_mismatch)
    ∷ (6403, wrong_bank_asset_tag_for_solend_operation)
    ∷ (6404, cant_use_standard_operations_on_solend_assets)
    ∷ (6405, solend_reserve_mismatch)
    ∷ (6406, solend_reserve_mint_mismatch)
    ∷ (6407, solend_invalid_deposit_positions)
    ∷ (6408, solend_deposit_position_reserve_mismatch)
    ∷ (6409, solend_c_token_balance_mismatch)
    ∷ (6410, solend_withdraw_failed)
    ∷ (6411, solend_reserve_stale)
    ∷ (6412, solend_deposit_failed)
    ∷ (6413, invalid_solend_account)
    ∷ (6414, invalid_solend_account_version)
    ∷ (6415, invalid_solend_reserve)
    ∷ (6416, invalid_solend_obligation)
    ∷ []

-- The first arm that matches; `_ => MarginfiError::InternalLogicError`.
abbrev pub first_match : List (ℕ × MarginfiError) → ℕ → MarginfiError
first_match [] value = internal_logic_error
first_match ((number, e) ∷ rest) value =
    let later = first_match rest value in if value == number then e else later

pub from_u32 : ℕ → MarginfiError
from_u32 value = first_match arms value

round_trips : (e : MarginfiError) → e ≢ account_frozen → from_u32 (code e) ≡ e
unfolding from_u32
round_trips MarginfiError.account_frozen ne = absurd (ne refl)
round_trips _ ne = refl

-- `From<u32>` takes the number of an error back to the error exactly when the error is not
-- `AccountFrozen`.
pub from_u32-code_iff : (e : MarginfiError) → (from_u32 (code e) ≡ e) ↔ (e ≢ account_frozen)
unfolding from_u32
from_u32-code_iff e =
    (λ back same. frozen_differs (subst (λ x. from_u32 (code x) ≡ x) same back), round_trips e)
  where
    frozen_differs : ¬ (from_u32 (code account_frozen) ≡ account_frozen)
    frozen_differs h = cc
