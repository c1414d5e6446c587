-- ===== src/Marginfi/Bank.antt =====
-- A bank, the pool of one token that MarginFi lends from: the fields of
-- marginfi-v2/type-crate/src/types/bank.rs that its share accounting reads or writes, and the
-- operations of marginfi-v2/programs/marginfi/src/state/bank.rs on them. An operation that changes
-- the bank returns the changed one; on an error the transaction is undone, so no bank comes with it.
pub mod Accrual
pub mod Growth
pub mod Once
pub mod Config
use bot_flash_loan.Prelude.{
  ℕ, ◌-◌, ◌^◌, ◌*◌, Bool, true, not, ◌&&◌, Result, ok, err, check, ok_or, ◌>>=◌, ◌>>◌, ◌==◌, ltb,
  if◌then◌else◌,
}
use bot_flash_loan.Prelude.Bits.{mask, bit_and, bit_or}
use bot_flash_loan.Prelude.Int.{ℤ, pos, negsuc, ◌+ℤ◌, ltb_ℤ}
use bot_flash_loan.Marginfi.Error.{MarginfiError}
use bot_flash_loan.Marginfi.Fixed.{Fixed, I80F48, zero_fixed, one_fixed, leb_fixed, eq_fixed}
use bot_flash_loan.Marginfi.Account.{Failure, marginfi, program_error, panic, not_u64}
use bot_flash_loan.Marginfi.Risk.{RiskTier, math_error}
use bot_flash_loan.Marginfi.Interest.{InterestRateConfig}
use bot_flash_loan.Marginfi.Emode.{EmodeSettings}
use bot_flash_loan.Solana.{Pubkey}

pub data BankOperationalState : Type 0 where
  paused operational reduce_only killed_by_bankruptcy : BankOperationalState

-- Where the prices of the bank's token come from.
pub data OracleSetup : Type 0 where
  no_oracle pyth_legacy switchboard_v2 pyth_push_oracle switchboard_pull : OracleSetup
  staked_with_pyth_push kamino_pyth_push kamino_switchboard_pull fixed_oracle : OracleSetup
  drift_pyth_pull drift_switchboard_pull solend_pyth_pull solend_switchboard_pull : OracleSetup

-- `oracle_key` is the first of `oracle_keys`, which the setup of other oracles fills too.
pub record BankConfig : Type 0 where
  pub asset_weight_init : I80F48
  pub asset_weight_maint : I80F48
  pub liability_weight_init : I80F48
  pub liability_weight_maint : I80F48
  pub oracle_setup : OracleSetup
  pub risk_tier : RiskTier
  pub config_flags : ℕ
  pub total_asset_value_init_limit : ℕ
  pub oracle_key : Pubkey
  pub fixed_price : I80F48
  pub oracle_max_age : ℕ
  pub oracle_max_confidence : ℕ
  pub deposit_limit : ℕ
  pub borrow_limit : ℕ
  pub operational_state : BankOperationalState
  pub asset_tag : ℕ
  pub interest_rate_config : InterestRateConfig

-- The rates and the price that the bank last computed, for clients.
pub record BankCache : Type 0 where
  pub base_rate : ℕ
  pub lending_rate : ℕ
  pub borrowing_rate : ℕ
  pub interest_accumulated_for : ℕ
  pub accumulated_since_last_update : I80F48
  pub last_oracle_price : I80F48
  pub last_oracle_price_timestamp : ℤ
  pub last_oracle_price_confidence : I80F48

pub record Bank : Type 0 where
  pub mint_decimals : ℕ
  pub asset_share_value : I80F48
  pub liability_share_value : I80F48
  pub group : Pubkey
  pub liquidity_vault : Pubkey
  pub collected_insurance_fees_outstanding : I80F48
  pub collected_group_fees_outstanding : I80F48
  pub total_liability_shares : I80F48
  pub total_asset_shares : I80F48
  pub last_update : ℤ
  pub config : BankConfig
  pub flags : ℕ
  pub emissions_mint : Pubkey
  pub emissions_rate : ℕ
  pub emissions_remaining : I80F48
  pub collected_program_fees_outstanding : I80F48
  pub cache : BankCache
  pub emode : EmodeSettings
  pub lending_position_count : ℤ
  pub borrowing_position_count : ℤ

abbrev pub u64_max : ℕ
u64_max = 2 ^ 64 - 1

abbrev pub asset_tag_drift : ℕ
asset_tag_drift = 4

abbrev pub drift_scaled_balance_decimals : ℕ
drift_scaled_balance_decimals = 9

abbrev pub emissions_flag_borrow_active : ℕ
emissions_flag_borrow_active = mask 0

abbrev pub emissions_flag_lending_active : ℕ
emissions_flag_lending_active = mask 1

abbrev pub emission_flags : ℕ
emission_flags = bit_or emissions_flag_borrow_active emissions_flag_lending_active

abbrev pub is_deposit_limit_active : BankConfig → Bool
is_deposit_limit_active c = not (c.deposit_limit == u64_max)

abbrev pub is_borrow_limit_active : BankConfig → Bool
is_borrow_limit_active c = not (c.borrow_limit == u64_max)

-- The table `EXP_10_I80F48` has 24 entries; an index past it panics.
abbrev pub exp_10_fixed : ℕ → Result Failure I80F48
exp_10_fixed n = if ltb n 24 then ok (pos (10 ^ n * 2 ^ 48)) else err panic

-- `DriftMocksError::MathError`, the fifth error of its program.
abbrev pub drift_math_error : Failure
drift_math_error = program_error 6004

-- `saturating_add(1)` and `saturating_sub(1)` on an `i32`.
abbrev pub saturating_inc : ℤ → ℤ
saturating_inc n = if ltb_ℤ n (pos (2 ^ 31 - 1)) then n +ℤ pos 1 else n

abbrev pub saturating_dec : ℤ → ℤ
saturating_dec n = if ltb_ℤ (negsuc (2 ^ 31 - 1)) n then n +ℤ negsuc 0 else n

module _ (fx : Fixed) where
  unfoldable pub scale_drift_deposit_limit : ℕ → ℕ → Result Failure I80F48
  scale_drift_deposit_limit deposit_limit mint_decimals =
      if mint_decimals == drift_scaled_balance_decimals
      then ok (fx.from_u64 deposit_limit)
      else if ltb mint_decimals drift_scaled_balance_decimals
      then (do
        scale ← exp_10_fixed (drift_scaled_balance_decimals - mint_decimals)
        ok_or (fx.checked_mul (fx.from_u64 deposit_limit) scale) drift_math_error)
      else do
        scale ← exp_10_fixed (mint_decimals - drift_scaled_balance_decimals)
        ok_or (fx.checked_div (fx.from_u64 deposit_limit) scale) drift_math_error

  unfoldable pub get_liability_amount : Bank → I80F48 → Result Failure I80F48
  get_liability_amount b shares = ok_or (fx.checked_mul shares b.liability_share_value) math_error

  unfoldable pub get_asset_amount : Bank → I80F48 → Result Failure I80F48
  get_asset_amount b shares = ok_or (fx.checked_mul shares b.asset_share_value) math_error

  unfoldable pub get_liability_shares : Bank → I80F48 → Result Failure I80F48
  get_liability_shares b value = ok_or (fx.checked_div value b.liability_share_value) math_error

  unfoldable pub get_asset_shares : Bank → I80F48 → Result Failure I80F48
  get_asset_shares b value =
      if eq_fixed b.asset_share_value zero_fixed
      then ok zero_fixed
      else ok_or (fx.checked_div value b.asset_share_value) math_error

  abbrev pub get_balance_decimals : Bank → ℕ
  get_balance_decimals b =
      if b.config.asset_tag == asset_tag_drift
      then drift_scaled_balance_decimals
      else b.mint_decimals

  -- The limit in the units of the bank's balances.
  unfoldable pub scaled_deposit_limit : Bank → Result Failure I80F48
  scaled_deposit_limit b =
      if b.config.asset_tag == asset_tag_drift
      then scale_drift_deposit_limit b.config.deposit_limit b.mint_decimals
      else ok (fx.from_u64 b.config.deposit_limit)

  unfoldable pub get_remaining_deposit_capacity : Bank → Result Failure ℕ
  get_remaining_deposit_capacity b =
      if not (is_deposit_limit_active b.config) then ok u64_max else do
        current_assets ← get_asset_amount b b.total_asset_shares
        limit ← scaled_deposit_limit b
        if leb_fixed limit current_assets then ok 0 else do
          left ← ok_or (fx.checked_sub limit current_assets) math_error
          under ← ok_or (fx.checked_sub left one_fixed) math_error
          floor ← ok_or (fx.checked_floor under) math_error
          ok_or (fx.checked_to_u64 floor) math_error

  -- The limit that `change_asset_shares` puts on the changed bank.
  unfoldable pub check_deposit_limit : Bank → I80F48 → Bool → Result Failure (Unit {0})
  check_deposit_limit b shares bypass_deposit_limit =
      if ltb_ℤ zero_fixed shares && is_deposit_limit_active b.config && not bypass_deposit_limit
      then (do
        total_deposits_amount ← get_asset_amount b b.total_asset_shares
        deposit_limit ← scaled_deposit_limit b
        check (ltb_ℤ total_deposits_amount deposit_limit)
            (marginfi MarginfiError.bank_asset_capacity_exceeded))
      else ok tt

  unfoldable pub change_asset_shares : Bank → I80F48 → Bool → Result Failure Bank
  change_asset_shares b shares bypass_deposit_limit = do
    total ← ok_or (fx.checked_add b.total_asset_shares shares) math_error
    check_deposit_limit (record b { total_asset_shares = total }) shares bypass_deposit_limit
    ok (record b { total_asset_shares = total })

  -- The limit that `change_liability_shares` puts on the changed bank.
  unfoldable pub check_borrow_limit : Bank → I80F48 → Bool → Result Failure (Unit {0})
  check_borrow_limit b shares bypass_borrow_limit =
      if not bypass_borrow_limit && ltb_ℤ zero_fixed shares && is_borrow_limit_active b.config
      then (do
        total_liability_amount ← get_liability_amount b b.total_liability_shares
        check (ltb_ℤ total_liability_amount (fx.from_u64 b.config.borrow_limit))
            (marginfi MarginfiError.bank_liability_capacity_exceeded))
      else ok tt

  unfoldable pub change_liability_shares : Bank → I80F48 → Bool → Result Failure Bank
  change_liability_shares b shares bypass_borrow_limit = do
    total ← ok_or (fx.checked_add b.total_liability_shares shares) math_error
    check_borrow_limit (record b { total_liability_shares = total }) shares bypass_borrow_limit
    ok (record b { total_liability_shares = total })

  unfoldable pub check_utilization_ratio : Bank → Result Failure (Unit {0})
  check_utilization_ratio b = do
    total_assets ← get_asset_amount b b.total_asset_shares
    total_liabilities ← get_liability_amount b b.total_liability_shares
    check (leb_fixed total_liabilities total_assets)
        (marginfi MarginfiError.illegal_utilization_ratio)

  -- Returns the changed bank and whether it is dead.
  unfoldable pub socialize_loss : Bank → I80F48 → Result Failure (Bank × Bool)
  socialize_loss b loss_amount = do
    total_value ← ok_or (fx.checked_mul b.total_asset_shares b.asset_share_value) math_error
    if leb_fixed total_value loss_amount
        then ok (record b { asset_share_value = zero_fixed }, true)
        else do
          left ← ok_or (fx.checked_sub total_value loss_amount) panic
          new_share_value ← ok_or (fx.checked_div left b.total_asset_shares) math_error
          ok (record b { asset_share_value = new_share_value }, eq_fixed new_share_value zero_fixed)

unfoldable pub get_flag : Bank → ℕ → Bool
get_flag b flag = bit_and b.flags flag == flag

unfoldable pub override_emissions_flag : Bank → ℕ → Result Failure Bank
override_emissions_flag b flag = do
  check (bit_and flag emission_flags == flag) panic
  ok (record b { flags = flag })

-- `GROUP_FLAGS`.
abbrev pub group_flags : ℕ
group_flags = bit_or (mask 2) (bit_or (mask 3) (bit_or (mask 5) (mask 6)))

unfoldable pub update_flag : Bank → Bool → ℕ → Result Failure Bank
update_flag b value flag = do
  check (bit_and flag group_flags == flag) panic
  ok (
      if value
      then record b { flags = bit_or b.flags flag }
      else record b { flags = bit_and b.flags (not_u64 flag) })
