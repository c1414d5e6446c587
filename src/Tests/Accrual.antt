-- ===== src/Tests/Accrual.antt =====
-- A day's interest of the pool.
use bot_flash_loan.Prelude.{◌≡◌, refl, false, ok, err}
use bot_flash_loan.Prelude.Int.{pos, ◌+ℤ◌, ◌-ℤ◌}
use bot_flash_loan.Marginfi.Bank.{Bank, get_asset_amount, get_liability_amount}
use bot_flash_loan.Marginfi.Bank.Accrual.{accrue_interest, accrue_between, accrue, collect}
use bot_flash_loan.Marginfi.Bank.Growth.{Grown, accrue_interest-Grown}
use bot_flash_loan.Marginfi.Bank.Once.{accrue_interest_twice}
use bot_flash_loan.Marginfi.Interest.Rates.{
  ProgramFees, create_interest_rate_calculator, get_fees, calc_fee_rate, base_rate, rates_from,
  assert_rates, calc_interest_rate, calc_accrued_interest_payment_per_period,
  calc_interest_payment_for_period, calc_interest_rate_accrual_state_changes,
}
use bot_flash_loan.Marginfi.Interest.Curve.{
  util_from_u32, rate_from_u32, lerp, curve_from, interest_rate_multipoint_curve,
}
use bot_flash_loan.Tests.Amounts.{pool}
use bot_flash_loan.Tests.Exact.{exact, exact-FixedLaws, exact-FixedRounding, tokens}

abbrev no_fees : ProgramFees
no_fees = record { program_fees = false; program_fee_fixed = pos 0; program_fee_rate = pos 0 }

-- Shares worth a million each, so that a day's interest shows.
abbrev large : Bank
large = record pool { asset_share_value = tokens 1000000; liability_share_value = tokens 1000000 }

abbrev accrued : Bank
accrued = elim (accrue_interest exact (pos 1700086400) no_fees large) [ ok b ↦ b | err e ↦ large ]

accrue_ok : accrue_interest exact (pos 1700086400) no_fees large ≡ ok accrued
unfolding accrue_interest accrue_between accrue collect get_asset_amount get_liability_amount
    create_interest_rate_calculator get_fees calc_fee_rate base_rate rates_from assert_rates
    calc_interest_rate calc_accrued_interest_payment_per_period calc_interest_payment_for_period
    calc_interest_rate_accrual_state_changes util_from_u32 rate_from_u32 lerp curve_from
    interest_rate_multipoint_curve ◌+ℤ◌ ◌-ℤ◌
accrue_ok = refl

accrue_interest-Grown_example : Grown large accrued
accrue_interest-Grown_example =
    accrue_interest-Grown exact exact-FixedLaws exact-FixedRounding (pos 1700086400) no_fees large
      accrued _ _ refl refl accrue_ok

accrue_interest_twice_example : accrue_interest exact (pos 1700086400) no_fees accrued ≡ ok accrued
accrue_interest_twice_example =
    accrue_interest_twice exact (pos 1700086400) no_fees no_fees large accrued accrue_ok
