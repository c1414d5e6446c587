-- ===== src/Marginfi/Group.antt =====
-- A group of banks with its admins: the fields of marginfi-v2/type-crate/src/types/group.rs that
-- the program reads, and marginfi-v2/programs/marginfi/src/state/marginfi_group.rs.
pub mod Withdrawn
use bot_flash_loan.Prelude.{
  ℕ, ◌+◌, ◌-◌, ◌*◌, ◌^◌, Bool, true, false, not, ◌&&◌, Result, ok, err, check, ok_or, ◌>>=◌, ◌>>◌,
  ◌==◌, ltb, if◌then◌else◌, min,
}
use bot_flash_loan.Prelude.Bits.{mask, bit_and, bit_or}
use bot_flash_loan.Prelude.Int.{ℤ, pos, ltb_ℤ}
use bot_flash_loan.Prelude.Machine.{saturating_sub_i64}
use bot_flash_loan.Solana.{Pubkey}
use bot_flash_loan.Marginfi.Error.{MarginfiError}
use bot_flash_loan.Marginfi.Fixed.{Fixed, I80F48, zero_fixed, min_fixed, max_fixed}
use bot_flash_loan.Marginfi.Account.{Failure, marginfi, panic, not_u64}
use bot_flash_loan.Marginfi.Panic.{PanicStateCache, flag_set, cache_is_expired}
use bot_flash_loan.Marginfi.Interest.{u32_max}
use bot_flash_loan.Marginfi.Interest.Rates.{ProgramFees}

-- What has been withdrawn in deleverages since the last reset, in whole dollars.
pub record WithdrawWindowCache : Type 0 where
  pub daily_limit : ℕ
  pub withdrawn_today : ℕ
  pub last_daily_reset_timestamp : ℤ

-- A copy of what the fee state of the program says.
pub record FeeStateCache : Type 0 where
  pub program_fee_fixed : I80F48
  pub program_fee_rate : I80F48
  pub last_update : ℤ

pub record MarginfiGroup : Type 0 where
  pub admin : Pubkey
  pub group_flags : ℕ
  pub fee_state_cache : FeeStateCache
  pub banks : ℕ
  pub emode_admin : Pubkey
  pub delegate_curve_admin : Pubkey
  pub delegate_limit_admin : Pubkey
  pub delegate_emissions_admin : Pubkey
  pub panic_state_cache : PanicStateCache
  pub deleverage_withdraw_window_cache : WithdrawWindowCache
  pub risk_admin : Pubkey
  pub metadata_admin : Pubkey
  pub emode_max_init_leverage : ℕ
  pub emode_max_maint_leverage : ℕ

-- Every `update_` of an admin sets its field: where the new admin is the old one, nothing changes.
abbrev pub update_admin : Pubkey → MarginfiGroup → MarginfiGroup
update_admin new g = if g.admin == new then g else record g { admin = new }

abbrev pub update_emode_admin : Pubkey → MarginfiGroup → MarginfiGroup
update_emode_admin new g = if g.emode_admin == new then g else record g { emode_admin = new }

abbrev pub update_curve_admin : Pubkey → MarginfiGroup → MarginfiGroup
update_curve_admin new g =
    if g.delegate_curve_admin == new then g else record g { delegate_curve_admin = new }

abbrev pub update_limit_admin : Pubkey → MarginfiGroup → MarginfiGroup
update_limit_admin new g =
    if g.delegate_limit_admin == new then g else record g { delegate_limit_admin = new }

abbrev pub update_emissions_admin : Pubkey → MarginfiGroup → MarginfiGroup
update_emissions_admin new g =
    if g.delegate_emissions_admin == new then g else record g { delegate_emissions_admin = new }

abbrev pub update_metadata_admin : Pubkey → MarginfiGroup → MarginfiGroup
update_metadata_admin new g =
    if g.metadata_admin == new then g else record g { metadata_admin = new }

abbrev pub update_risk_admin : Pubkey → MarginfiGroup → MarginfiGroup
update_risk_admin new g = if g.risk_admin == new then g else record g { risk_admin = new }

abbrev pub program_fees_enabled_flag : ℕ
program_fees_enabled_flag = mask 0

unfoldable pub set_program_fee_enabled : Bool → MarginfiGroup → MarginfiGroup
set_program_fee_enabled fee_enabled g = record g {
  group_flags =
      if fee_enabled
      then bit_or g.group_flags program_fees_enabled_flag
      else bit_and g.group_flags (not_u64 program_fees_enabled_flag);
}

abbrev pub program_fees_enabled : MarginfiGroup → Bool
program_fees_enabled g = not (bit_and g.group_flags program_fees_enabled_flag == 0)

-- `get_group_bank_config`, with the rates of the cached fee state that accrual reads.
abbrev pub program_fees_of : MarginfiGroup → ProgramFees
program_fees_of g = record {
  program_fees = program_fees_enabled g;
  program_fee_fixed = g.fee_state_cache.program_fee_fixed;
  program_fee_rate = g.fee_state_cache.program_fee_rate;
}

-- `saturating_add(1)` on a `u16`.
unfoldable pub add_bank : ℤ → MarginfiGroup → MarginfiGroup
add_bank now g = record g {
  banks = min (g.banks + 1) (2 ^ 16 - 1);
  fee_state_cache = record g.fee_state_cache { last_update = now };
}

unfoldable pub is_protocol_paused : MarginfiGroup → ℤ → Result Failure Bool
is_protocol_paused g now =
    if flag_set g.panic_state_cache.pause_flags
    then cache_is_expired g.panic_state_cache now >>= (λ expired. ok (not expired))
    else ok false

-- `DAILY_RESET_INTERVAL`
abbrev pub daily_reset_interval : ℕ
daily_reset_interval = 86400

-- The first half of `update_withdrawn_equity`: a day after the last reset, today's sum starts again.
unfoldable pub reset_window : ℤ → WithdrawWindowCache → WithdrawWindowCache
reset_window now c =
    if not (ltb_ℤ (saturating_sub_i64 now c.last_daily_reset_timestamp) (pos daily_reset_interval))
    then record c { withdrawn_today = 0; last_daily_reset_timestamp = now }
    else c

-- `saturating_add` on a `u32`. A limit of 0 is none.
unfoldable pub withdraw_in_window : ℕ → WithdrawWindowCache → Result Failure WithdrawWindowCache
withdraw_in_window dollars c = do
  let withdrawn = min (c.withdrawn_today + dollars) u32_max
  check (not (not (c.daily_limit == 0) && ltb c.daily_limit withdrawn))
      (marginfi MarginfiError.daily_withdrawal_limit_exceeded)
  ok (record c { withdrawn_today = withdrawn })

module _ (fx : Fixed) where
  -- A leverage as a share of 100 in 32 bits; the division and the product panic where they fail.
  unfoldable pub basis_to_u32 : I80F48 → Result Failure ℕ
  basis_to_u32 value = do
    ratio ←
        ok_or
          (fx.checked_div (max_fixed (min_fixed value (fx.from_u64 100)) zero_fixed)
            (fx.from_u64 100))
          panic
    scaled ← ok_or (fx.checked_mul ratio (fx.from_u64 u32_max)) panic
    ok (fx.to_u32 scaled)

  unfoldable pub update_withdrawn_equity : I80F48 → ℤ → MarginfiGroup → Result Failure MarginfiGroup
  update_withdrawn_equity withdrawn_equity now g = do
    window ←
        withdraw_in_window (fx.to_u32 withdrawn_equity)
          (reset_window now g.deleverage_withdraw_window_cache)
    ok (record g { deleverage_withdraw_window_cache = window })

  unfoldable pub set_initial_configuration : Pubkey → MarginfiGroup → Result Failure MarginfiGroup
  set_initial_configuration admin_pk g = do
    init ← basis_to_u32 (pos (15 * 2 ^ 48))
    maint ← basis_to_u32 (pos (20 * 2 ^ 48))
    ok (
        set_program_fee_enabled true (record g {
          admin = admin_pk;
          emode_max_init_leverage = init;
          emode_max_maint_leverage = maint;
        }))
