-- ===== src/Marginfi/Emode/Leverage.antt =====
-- What a bank's e-mode entries may offer:
-- marginfi-v2/programs/marginfi/src/state/emode.rs, with `u32_to_basis` of
-- marginfi-v2/type-crate/src/types/interest_rate.rs.
pub mod Limits
use bot_flash_loan.Prelude.{
  ℕ, ◌*◌, ◌^◌, Bool, List, [], ◌∷◌, Result, ok, check, ok_or, ◌>>=◌, ◌>>◌, if◌then◌else◌,
}
use bot_flash_loan.Prelude.Int.{pos, ltb_ℤ}
use bot_flash_loan.Marginfi.Error.{MarginfiError}
use bot_flash_loan.Marginfi.Fixed.{Fixed, I80F48, zero_fixed, one_fixed, leb_fixed}
use bot_flash_loan.Marginfi.Account.{Failure, marginfi, panic, liabilities}
use bot_flash_loan.Marginfi.Risk.{math_error}
use bot_flash_loan.Marginfi.Interest.{u32_max}
use bot_flash_loan.Marginfi.Bank.{BankConfig}
use bot_flash_loan.Marginfi.Bank.Config.{initial, maintenance, get_weight}
use bot_flash_loan.Marginfi.Emode.{EmodeEntry, EmodeSettings, is_empty, check_dupes}

abbrev pub bad_emode_config : Failure
bad_emode_config = marginfi MarginfiError.bad_emode_config

module _ (fx : Fixed) where
  -- The operators `/` and `*` panic on an overflow.
  unfoldable pub u32_to_basis : ℕ → Result Failure I80F48
  u32_to_basis value = do
    ratio ← ok_or (fx.checked_div (fx.from_u64 value) (fx.from_u64 u32_max)) panic
    ok_or (fx.checked_mul ratio (pos (100 * 2 ^ 48))) panic

  unfoldable pub calculate_max_leverage : I80F48 → I80F48 → Result Failure I80F48
  calculate_max_leverage collateral_weight liability_weight = do
    check (ltb_ℤ zero_fixed liability_weight) bad_emode_config
    check (ltb_ℤ collateral_weight liability_weight) bad_emode_config
    ratio ← ok_or (fx.checked_div collateral_weight liability_weight) math_error
    denominator ← ok_or (fx.checked_sub one_fixed ratio) panic
    check (ltb_ℤ zero_fixed denominator) bad_emode_config
    ok_or (fx.checked_div one_fixed denominator) math_error

  -- The body of the loop, for an entry that is not empty.
  unfoldable pub validate_entry :
      BankConfig → I80F48 → I80F48 → EmodeEntry → Result Failure (Unit {0})
  validate_entry c max_init max_maint entry = do
    check (leb_fixed zero_fixed entry.asset_weight_init) bad_emode_config
    check (leb_fixed entry.asset_weight_init entry.asset_weight_maint) bad_emode_config
    leverage_init ←
        calculate_max_leverage entry.asset_weight_init (get_weight c initial liabilities)
    check (leb_fixed leverage_init max_init) bad_emode_config
    leverage_maint ←
        calculate_max_leverage entry.asset_weight_maint (get_weight c maintenance liabilities)
    check (leb_fixed leverage_maint max_maint) bad_emode_config

  unfoldable pub validate_entries :
      BankConfig → I80F48 → I80F48 → List EmodeEntry → Result Failure (Unit {0})
  validate_entries c max_init max_maint [] = ok tt
  validate_entries c max_init max_maint (e ∷ es) =
      let later = validate_entries c max_init max_maint es in
      if is_empty e then later else validate_entry c max_init max_maint e >> later

  unfoldable pub validate_entries_with_liability_weights :
      EmodeSettings → BankConfig → ℕ → ℕ → Result Failure (Unit {0})
  validate_entries_with_liability_weights s c emode_max_init_leverage emode_max_maint_leverage = do
    max_init ← u32_to_basis emode_max_init_leverage
    max_maint ← u32_to_basis emode_max_maint_leverage
    validate_entries c max_init max_maint s.emode_config.entries
    check_dupes s.emode_config
