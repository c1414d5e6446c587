-- ===== src/Marginfi/Error.antt =====
-- `MarginfiError` of marginfi-v2/programs/marginfi/src/errors.rs: the variants, the number of each
-- and the conversion from a number.
pub mod Codes
use bot_flash_loan.Prelude.{ℕ, ◌+◌}

pub data MarginfiError : Type 0 where
  internal_logic_error bank_not_found lending_account_balance_not_found : MarginfiError
  bank_asset_capacity_exceeded invalid_transfer missing_pyth_or_bank_account : MarginfiError
  missing_pyth_account missing_bank_account invalid_bank_account : MarginfiError
  risk_engine_init_rejected lending_account_balance_slots_full : MarginfiError
  bank_already_exists zero_liquidation_amount account_not_bankrupt : MarginfiError
  balance_not_bad_debt invalid_config bank_paused bank_reduce_only : MarginfiError
  bank_account_not_found operation_deposit_only operation_withdraw_only : MarginfiError
  operation_borrow_only operation_repay_only no_asset_found no_liability_found : MarginfiError
  invalid_oracle_setup illegal_utilization_ratio : MarginfiError
  bank_liability_capacity_exceeded invalid_price isolated_account_illegal_state : MarginfiError
  emissions_already_setup oracle_not_setup : MarginfiError
  invalid_switchboard_decimal_conversion cannot_close_outstanding_emissions : MarginfiError
  emissions_update_error account_disabled : MarginfiError
  account_temp_active_balance_limit_exceeded account_in_flashloan : MarginfiError
  illegal_flashloan illegal_flag illegal_balance_state : MarginfiError
  illegal_account_authority_transfer unauthorized illegal_action : MarginfiError
  t22_mint_required invalid_fee_ata added_staked_pool_manually : MarginfiError
  asset_tag_mismatch stake_pool_validation_failed switchboard_stale_price : MarginfiError
  pyth_push_stale_price wrong_number_of_oracle_accounts : MarginfiError
  wrong_oracle_account_keys pyth_push_wrong_account_owner : MarginfiError
  staked_pyth_push_wrong_account_owner oracle_max_confidence_exceeded : MarginfiError
  pyth_push_insufficient_verification_level zero_asset_price : MarginfiError
  zero_liability_price switchboard_wrong_account_owner : MarginfiError
  pyth_push_invalid_account switchboard_invalid_account math_error : MarginfiError
  invalid_emissions_destination_account same_asset_and_liability_banks : MarginfiError
  overliquidation_attempt no_liabilities_in_liability_bank : MarginfiError
  assets_in_liability_bank healthy_account exhausted_liability : MarginfiError
  too_severe_payoff too_severe_liquidation worse_health_post_liquidation : MarginfiError
  vacated0 vacated1 bad_emode_config pyth_push_invalid_window_size : MarginfiError
  invalid_fees_destination_account bank_cannot_close account_already_migrated : MarginfiError
  protocol_paused metadata_too_long pause_limit_exceeded protocol_not_paused : MarginfiError
  bank_killed_by_bankruptcy unexpected_liquidation_state start_not_first : MarginfiError
  start_repeats end_not_last forbidden_ix liquidation_premium_too_high : MarginfiError
  not_allowed_in_cpi zero_supply_in_stake_pool invalid_group : MarginfiError
  invalid_liquidity_vault invalid_liquidation_record : MarginfiError
  invalid_liquidation_receiver invalid_emissions_mint invalid_mint : MarginfiError
  invalid_fee_wallet fixed_oracle_price_negative : MarginfiError
  daily_withdrawal_limit_exceeded zero_withdrawal_limit account_frozen : MarginfiError
  wrong_asset_tag_for_standard_instructions : MarginfiError
  wrong_asset_tag_for_kamino_instructions cant_add_pool : MarginfiError
  kamino_reserve_mint_address_mismatch kamino_deposit_failed : MarginfiError
  kamino_withdraw_failed reserve_stale invalid_obligation_deposit_count : MarginfiError
  obligation_deposit_reserve_mismatch obligation_init_deposit_insufficient : MarginfiError
  kamino_reserve_validation_failed kamino_invalid_oracle_setup : MarginfiError
  integration_position_limit_exceeded invalid_kamino_reserve : MarginfiError
  invalid_kamino_obligation drift_invalid_oracle_setup : MarginfiError
  drift_spot_market_mint_mismatch wrong_bank_asset_tag_for_drift_operation : MarginfiError
  cant_use_standard_operations_on_drift_assets : MarginfiError
  drift_spot_market_validation_failed drift_invalid_spot_positions : MarginfiError
  drift_spot_position_market_mismatch drift_invalid_position_type : MarginfiError
  drift_scaled_balance_mismatch drift_withdraw_failed : MarginfiError
  drift_user_init_deposit_insufficient invalid_drift_account : MarginfiError
  drift_authority_mismatch drift_invalid_harvest_position_index : MarginfiError
  drift_position_empty drift_invalid_balance_type drift_no_admin_deposit : MarginfiError
  drift_harvest_same_market drift_bricked_account drift_missing_reward_oracle : MarginfiError
  drift_missing_reward_spot_market drift_missing_reward_accounts : MarginfiError
  drift_spot_market_stale invalid_drift_spot_market invalid_drift_user : MarginfiError
  invalid_drift_user_stats drift_unsupported_token_decimals : MarginfiError
  solend_invalid_oracle_setup solend_reserve_validation_failed : MarginfiError
  solend_obligation_owner_mismatch wrong_bank_asset_tag_for_solend_operation : MarginfiError
  cant_use_standard_operations_on_solend_assets solend_reserve_mismatch : MarginfiError
  solend_reserve_mint_mismatch solend_invalid_deposit_positions : MarginfiError
  solend_deposit_position_reserve_mismatch solend_c_token_balance_mismatch : MarginfiError
  solend_withdraw_failed solend_reserve_stale solend_deposit_failed : MarginfiError
  invalid_solend_account invalid_solend_account_version invalid_solend_reserve : MarginfiError
  invalid_solend_obligation : MarginfiError

-- The discriminant: the place in the enum, counted on from the last one that is written out.
abbrev pub discriminant : MarginfiError → ℕ
discriminant internal_logic_error = 0
discriminant bank_not_found = 1
discriminant lending_account_balance_not_found = 2
discriminant bank_asset_capacity_exceeded = 3
discriminant invalid_transfer = 4
discriminant missing_pyth_or_bank_account = 5
discriminant missing_pyth_account = 6
discriminant missing_bank_account = 7
discriminant invalid_bank_account = 8
discriminant risk_engine_init_rejected = 9
discriminant lending_account_balance_slots_full = 10
discriminant bank_already_exists = 11
discriminant zero_liquidation_amount = 12
discriminant account_not_bankrupt = 13
discriminant balance_not_bad_debt = 14
discriminant invalid_config = 15
discriminant bank_paused = 16
discriminant bank_reduce_only = 17
discriminant bank_account_not_found = 18
discriminant operation_deposit_only = 19
discriminant operation_withdraw_only = 20
discriminant operation_borrow_only = 21
discriminant operation_repay_only = 22
discriminant no_asset_found = 23
discriminant no_liability_found = 24
discriminant invalid_oracle_setup = 25
discriminant illegal_utilization_ratio = 26
discriminant bank_liability_capacity_exceeded = 27
discriminant invalid_price = 28
discriminant isolated_account_illegal_state = 29
discriminant emissions_already_setup = 30
discriminant oracle_not_setup = 31
discriminant invalid_switchboard_decimal_conversion = 32
discriminant cannot_close_outstanding_emissions = 33
discriminant emissions_update_error = 34
discriminant account_disabled = 35
discriminant account_temp_active_balance_limit_exceeded = 36
discriminant account_in_flashloan = 37
discriminant illegal_flashloan = 38
discriminant illegal_flag = 39
discriminant illegal_balance_state = 40
discriminant illegal_account_authority_transfer = 41
discriminant unauthorized = 42
discriminant illegal_action = 43
discriminant t22_mint_required = 44
discriminant invalid_fee_ata = 45
discriminant added_staked_pool_manually = 46
discriminant asset_tag_mismatch = 47
discriminant stake_pool_validation_failed = 48
discriminant switchboard_stale_price = 49
discriminant pyth_push_stale_price = 50
discriminant wrong_number_of_oracle_accounts = 51
discriminant wrong_oracle_account_keys = 52
discriminant pyth_push_wrong_account_owner = 53
discriminant staked_pyth_push_wrong_account_owner = 54
discriminant oracle_max_confidence_exceeded = 55
discriminant pyth_push_insufficient_verification_level = 56
discriminant zero_asset_price = 57
discriminant zero_liability_price = 58
discriminant switchboard_wrong_account_owner = 59
discriminant pyth_push_invalid_account = 60
discriminant switchboard_invalid_account = 61
discriminant math_error = 62
discriminant invalid_emissions_destination_account = 63
discriminant same_asset_and_liability_banks = 64
discriminant overliquidation_attempt = 65
discriminant no_liabilities_in_liability_bank = 66
discriminant assets_in_liability_bank = 67
discriminant healthy_account = 68
discriminant exhausted_liability = 69
discriminant too_severe_payoff = 70
discriminant too_severe_liquidation = 71
discriminant worse_health_post_liquidation = 72
discriminant vacated0 = 73
discriminant vacated1 = 74
discriminant bad_emode_config = 75
discriminant pyth_push_invalid_window_size = 76
discriminant invalid_fees_destination_account = 77
discriminant bank_cannot_close = 78
discriminant account_already_migrated = 79
discriminant protocol_paused = 80
discriminant metadata_too_long = 81
discriminant pause_limit_exceeded = 82
discriminant protocol_not_paused = 83
discriminant bank_killed_by_bankruptcy = 84
discriminant unexpected_liquidation_state = 85
discriminant start_not_first = 86
discriminant start_repeats = 87
discriminant end_not_last = 88
discriminant forbidden_ix = 89
discriminant liquidation_premium_too_high = 90
discriminant not_allowed_in_cpi = 91
discriminant zero_supply_in_stake_pool = 92
discriminant invalid_group = 93
discriminant invalid_liquidity_vault = 94
discriminant invalid_liquidation_record = 95
discriminant invalid_liquidation_receiver = 96
discriminant invalid_emissions_mint = 97
discriminant invalid_mint = 98
discriminant invalid_fee_wallet = 99
discriminant fixed_oracle_price_negative = 100
discriminant daily_withdrawal_limit_exceeded = 101
discriminant zero_withdrawal_limit = 102
discriminant account_frozen = 103
discriminant wrong_asset_tag_for_standard_instructions = 200
discriminant wrong_asset_tag_for_kamino_instructions = 201
discriminant cant_add_pool = 202
discriminant kamino_reserve_mint_address_mismatch = 203
discriminant kamino_deposit_failed = 204
discriminant kamino_withdraw_failed = 205
discriminant reserve_stale = 206
discriminant invalid_obligation_deposit_count = 207
discriminant obligation_deposit_reserve_mismatch = 208
discriminant obligation_init_deposit_insufficient = 209
discriminant kamino_reserve_validation_failed = 210
discriminant kamino_invalid_oracle_setup = 211
discriminant integration_position_limit_exceeded = 212
discriminant invalid_kamino_reserve = 213
discriminant invalid_kamino_obligation = 214
discriminant drift_invalid_oracle_setup = 300
discriminant drift_spot_market_mint_mismatch = 301
discriminant wrong_bank_asset_tag_for_drift_operation = 302
discriminant cant_use_standard_operations_on_drift_assets = 303
discriminant drift_spot_market_validation_failed = 304
discriminant drift_invalid_spot_positions = 305
discriminant drift_spot_position_market_mismatch = 306
discriminant drift_invalid_position_type = 307
discriminant drift_scaled_balance_mismatch = 308
discriminant drift_withdraw_failed = 309
discriminant drift_user_init_deposit_insufficient = 310
discriminant invalid_drift_account = 311
discriminant drift_authority_mismatch = 312
discriminant drift_invalid_harvest_position_index = 313
discriminant drift_position_empty = 314
discriminant drift_invalid_balance_type = 315
discriminant drift_no_admin_deposit = 316
discriminant drift_harvest_same_market = 317
discriminant drift_bricked_account = 318
discriminant drift_missing_reward_oracle = 319
discriminant drift_missing_reward_spot_market = 320
discriminant drift_missing_reward_accounts = 321
discriminant drift_spot_market_stale = 322
discriminant invalid_drift_spot_market = 323
discriminant invalid_drift_user = 324
discriminant invalid_drift_user_stats = 325
discriminant drift_unsupported_token_decimals = 326
discriminant solend_invalid_oracle_setup = 400
discriminant solend_reserve_validation_failed = 401
discriminant solend_obligation_owner_mismatch = 402
discriminant wrong_bank_asset_tag_for_solend_operation = 403
discriminant cant_use_standard_operations_on_solend_assets = 404
discriminant solend_reserve_mismatch = 405
discriminant solend_reserve_mint_mismatch = 406
discriminant solend_invalid_deposit_positions = 407
discriminant solend_deposit_position_reserve_mismatch = 408
discriminant solend_c_token_balance_mismatch = 409
discriminant solend_withdraw_failed = 410
discriminant solend_reserve_stale = 411
discriminant solend_deposit_failed = 412
discriminant invalid_solend_account = 413
discriminant invalid_solend_account_version = 414
discriminant invalid_solend_reserve = 415
discriminant invalid_solend_obligation = 416

abbrev pub error_code_offset : ℕ
error_code_offset = 6000

-- The number that Anchor reports for an error.
abbrev pub code : MarginfiError → ℕ
code e = error_code_offset + discriminant e
