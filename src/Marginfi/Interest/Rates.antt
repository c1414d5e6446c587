-- ===== src/Marginfi/Interest/Rates.antt =====
-- What borrowers pay, lenders earn and fees take, of
-- marginfi-v2/programs/marginfi/src/state/interest_rate.rs and
-- marginfi-v2/programs/marginfi/src/state/bank_cache.rs.
use bot_flash_loan.Prelude.{
  ℕ, Bool, List, Result, ok, err, check, ok_or, ◌>>=◌, ◌>>◌, ◌==◌, if◌then◌else◌,
}
use bot_flash_loan.Marginfi.Fixed.{
  Fixed, I80F48, zero_fixed, one_fixed, seconds_per_year, leb_fixed, eq_fixed,
}
use bot_flash_loan.Marginfi.Interest.{
  RatePoint, InterestRateConfig, interest_curve_legacy, interest_curve_seven_point,
}
use bot_flash_loan.Marginfi.Interest.Curve.{
  NoRate, plus, interest_rate_curve, interest_rate_multipoint_curve,
}

-- What the group adds to a bank's configuration.
pub record ProgramFees : Type 0 where
  pub program_fees : Bool
  pub program_fee_fixed : I80F48
  pub program_fee_rate : I80F48

pub record InterestRateCalc : Type 0 where
  pub optimal_utilization_rate : I80F48
  pub plateau_interest_rate : I80F48
  pub max_interest_rate : I80F48
  pub insurance_fixed_fee : I80F48
  pub insurance_rate_fee : I80F48
  pub protocol_fixed_fee : I80F48
  pub protocol_rate_fee : I80F48
  pub program_fee_fixed : I80F48
  pub program_fee_rate : I80F48
  pub add_program_fees : Bool
  pub zero_util_rate : ℕ
  pub hundred_util_rate : ℕ
  pub points : List RatePoint
  pub curve_type : ℕ

unfoldable pub create_interest_rate_calculator : InterestRateConfig → ProgramFees → InterestRateCalc
create_interest_rate_calculator c group = record {
  optimal_utilization_rate = c.optimal_utilization_rate;
  plateau_interest_rate = c.plateau_interest_rate;
  max_interest_rate = c.max_interest_rate;
  insurance_fixed_fee = c.insurance_fee_fixed_apr;
  insurance_rate_fee = c.insurance_ir_fee;
  protocol_fixed_fee = c.protocol_fixed_fee_apr;
  protocol_rate_fee = c.protocol_ir_fee;
  program_fee_fixed = group.program_fee_fixed;
  program_fee_rate = group.program_fee_rate;
  add_program_fees = group.program_fees;
  zero_util_rate = c.zero_util_rate;
  hundred_util_rate = c.hundred_util_rate;
  points = c.points;
  curve_type = c.curve_type;
}

pub record Fees : Type 0 where
  pub insurance_fee_rate : I80F48
  pub insurance_fee_fixed : I80F48
  pub group_fee_rate : I80F48
  pub group_fee_fixed : I80F48
  pub protocol_fee_rate : I80F48
  pub protocol_fee_fixed : I80F48

unfoldable pub get_fees : InterestRateCalc → Fees
get_fees c = record {
  insurance_fee_rate = c.insurance_rate_fee;
  insurance_fee_fixed = c.insurance_fixed_fee;
  group_fee_rate = c.protocol_rate_fee;
  group_fee_fixed = c.protocol_fixed_fee;
  protocol_fee_rate = if c.add_program_fees then c.program_fee_rate else zero_fixed;
  protocol_fee_fixed = if c.add_program_fees then c.program_fee_fixed else zero_fixed;
}

pub record ComputedInterestRates : Type 0 where
  pub base_rate_apr : I80F48
  pub lending_rate_apr : I80F48
  pub borrowing_rate_apr : I80F48
  pub group_fee_apr : I80F48
  pub insurance_fee_apr : I80F48
  pub protocol_fee_apr : I80F48

pub record InterestRateStateChanges : Type 0 where
  pub new_asset_share_value : I80F48
  pub new_liability_share_value : I80F48
  pub insurance_fees_collected : I80F48
  pub group_fees_collected : I80F48
  pub protocol_fees_collected : I80F48

module _ (fx : Fixed) where
  -- The checked operations of these calculations, whose `?` returns no rate.
  abbrev pub mul : I80F48 → I80F48 → Result NoRate I80F48
  mul a b = ok_or (fx.checked_mul a b) NoRate.nothing

  abbrev pub add : I80F48 → I80F48 → Result NoRate I80F48
  add a b = ok_or (fx.checked_add a b) NoRate.nothing

  abbrev pub div : I80F48 → I80F48 → Result NoRate I80F48
  div a b = ok_or (fx.checked_div a b) NoRate.nothing

  unfoldable pub calc_fee_rate : I80F48 → I80F48 → I80F48 → Result NoRate I80F48
  calc_fee_rate base_rate rate_fees fixed_fees =
      if eq_fixed rate_fees zero_fixed
      then ok fixed_fees
      else do share ← mul base_rate rate_fees; add share fixed_fees

  unfoldable pub base_rate : InterestRateCalc → I80F48 → Result NoRate I80F48
  base_rate c utilization_ratio =
      if c.curve_type == interest_curve_legacy
      then interest_rate_curve fx c.optimal_utilization_rate c.plateau_interest_rate
          c.max_interest_rate utilization_ratio
      else if c.curve_type == interest_curve_seven_point
      then interest_rate_multipoint_curve fx c.zero_util_rate c.hundred_util_rate c.points
          utilization_ratio
      else err NoRate.panicked

  -- The rates of borrowers, lenders and fees for a base rate, the sum of the rate fees and the sum of
  -- the fixed fees.
  unfoldable pub rates_from :
      InterestRateCalc → I80F48 → I80F48 → I80F48 → I80F48 → Result NoRate ComputedInterestRates
  rates_from c utilization_ratio fee_ir fee_fixed base_rate_apr = do
    lending_rate_apr ← mul base_rate_apr utilization_ratio
    with_fees ← add one_fixed fee_ir
    charged ← mul base_rate_apr with_fees
    borrowing_rate_apr ← add charged fee_fixed
    group_fee_apr ←
        calc_fee_rate base_rate_apr (get_fees c).group_fee_rate (get_fees c).group_fee_fixed
    insurance_fee_apr ←
        calc_fee_rate base_rate_apr (get_fees c).insurance_fee_rate (get_fees c).insurance_fee_fixed
    protocol_fee_apr ←
        calc_fee_rate base_rate_apr (get_fees c).protocol_fee_rate (get_fees c).protocol_fee_fixed
    ok (record {
      base_rate_apr = base_rate_apr;
      lending_rate_apr = lending_rate_apr;
      borrowing_rate_apr = borrowing_rate_apr;
      group_fee_apr = group_fee_apr;
      insurance_fee_apr = insurance_fee_apr;
      protocol_fee_apr = protocol_fee_apr;
    })

  -- The assertions at the end.
  unfoldable pub assert_rates : ComputedInterestRates → Result NoRate ComputedInterestRates
  assert_rates r = do
    check (leb_fixed zero_fixed r.lending_rate_apr) NoRate.panicked
    check (leb_fixed zero_fixed r.borrowing_rate_apr) NoRate.panicked
    check (leb_fixed zero_fixed r.group_fee_apr) NoRate.panicked
    check (leb_fixed zero_fixed r.insurance_fee_apr) NoRate.panicked
    check (leb_fixed zero_fixed r.protocol_fee_apr) NoRate.panicked
    ok r

  unfoldable pub calc_interest_rate :
      InterestRateCalc → I80F48 → Result NoRate ComputedInterestRates
  calc_interest_rate c utilization_ratio = do
    fee_ir' ← plus fx (get_fees c).insurance_fee_rate (get_fees c).group_fee_rate
    fee_ir ← plus fx fee_ir' (get_fees c).protocol_fee_rate
    fee_fixed' ← plus fx (get_fees c).insurance_fee_fixed (get_fees c).group_fee_fixed
    fee_fixed ← plus fx fee_fixed' (get_fees c).protocol_fee_fixed
    base_rate_apr ← base_rate c utilization_ratio
    rates ← rates_from c utilization_ratio fee_ir fee_fixed base_rate_apr
    assert_rates rates

  unfoldable pub calc_accrued_interest_payment_per_period :
      I80F48 → ℕ → I80F48 → Result NoRate I80F48
  calc_accrued_interest_payment_per_period apr time_delta value = do
    scaled ← mul apr (fx.from_u64 time_delta)
    ir_per_period ← div scaled (fx.from_u64 seconds_per_year)
    growth ← add one_fixed ir_per_period
    mul value growth

  unfoldable pub calc_interest_payment_for_period : I80F48 → ℕ → I80F48 → Result NoRate I80F48
  calc_interest_payment_for_period apr time_delta value =
      if eq_fixed apr zero_fixed then ok zero_fixed else do
        yearly ← mul value apr
        scaled ← mul yearly (fx.from_u64 time_delta)
        div scaled (fx.from_u64 seconds_per_year)

  unfoldable pub calc_interest_rate_accrual_state_changes :
      ℕ
      → I80F48
      → I80F48
      → InterestRateCalc
      → I80F48
      → I80F48
      → Result NoRate InterestRateStateChanges
  calc_interest_rate_accrual_state_changes time_delta total_assets_amount total_liabilities_amount
        calc asset_share_value liability_share_value =
      do
        utilization_rate ← div total_liabilities_amount total_assets_amount
        rates ← calc_interest_rate calc utilization_rate
        assets ←
            calc_accrued_interest_payment_per_period rates.lending_rate_apr time_delta
              asset_share_value
        liabilities ←
            calc_accrued_interest_payment_per_period rates.borrowing_rate_apr time_delta
              liability_share_value
        insurance ←
            calc_interest_payment_for_period rates.insurance_fee_apr time_delta
              total_liabilities_amount
        group ←
            calc_interest_payment_for_period rates.group_fee_apr time_delta total_liabilities_amount
        protocol ←
            calc_interest_payment_for_period rates.protocol_fee_apr time_delta
              total_liabilities_amount
        ok (record {
          new_asset_share_value = assets;
          new_liability_share_value = liabilities;
          insurance_fees_collected = insurance;
          group_fees_collected = group;
          protocol_fees_collected = protocol;
        })
