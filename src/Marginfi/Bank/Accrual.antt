-- ===== src/Marginfi/Bank/Accrual.antt =====
-- Interest accrual of a bank and its cache of rates: `accrue_interest` and `update_bank_cache` of
-- marginfi-v2/programs/marginfi/src/state/bank.rs, with bank_cache.rs beside it. The clock is the
-- argument `now`.
use bot_flash_loan.Prelude.{
  ℕ, min, ◌||◌, Option, none, some, Result, ok, err, ok_or, ◌>>=◌, ◌==◌, if◌then◌else◌,
}
use bot_flash_loan.Prelude.Int.{ℤ, pos, negsuc, ltb_ℤ}
use bot_flash_loan.Prelude.Machine.{sub_i64}
use bot_flash_loan.Marginfi.Fixed.{Fixed, I80F48, zero_fixed, eq_fixed, min_fixed, max_fixed}
use bot_flash_loan.Marginfi.Account.{Failure, panic}
use bot_flash_loan.Marginfi.Risk.{math_error}
use bot_flash_loan.Marginfi.Interest.{u32_max}
use bot_flash_loan.Marginfi.Interest.Curve.{NoRate, nothing, panicked}
use bot_flash_loan.Marginfi.Interest.Rates.{
  ProgramFees, ComputedInterestRates, InterestRateStateChanges, create_interest_rate_calculator,
  calc_interest_rate, calc_interest_rate_accrual_state_changes,
}
use bot_flash_loan.Marginfi.Bank.{Bank, BankCache, get_asset_amount, get_liability_amount}

-- `ok_or_else(math_error!())`; a panic stays one.
abbrev pub or_math_error {ℓ} : {A : Type ℓ} → Result NoRate A → Result Failure A
or_math_error (ok a) = ok a
or_math_error (err nothing) = err math_error
or_math_error (err panicked) = err panic

-- `try_into::<u64>().unwrap()`
abbrev pub unwrap_u64 : ℤ → Result Failure ℕ
unwrap_u64 (pos n) = ok n
unwrap_u64 (negsuc n) = err panic

unfoldable pub reset_preserving_oracle_price : BankCache → BankCache
reset_preserving_oracle_price c = record c {
  base_rate = 0;
  lending_rate = 0;
  borrowing_rate = 0;
  interest_accumulated_for = 0;
  accumulated_since_last_update = zero_fixed;
}

module _ (fx : Fixed) where
  -- What is collected is added to what is outstanding, if there is any.
  unfoldable pub collect : I80F48 → I80F48 → Result Failure I80F48
  collect collected outstanding =
      if ltb_ℤ zero_fixed collected
      then ok_or (fx.checked_add collected outstanding) math_error
      else ok outstanding

  -- The bank after `changes` over `time_delta` seconds.
  unfoldable pub accrue : Bank → ℕ → InterestRateStateChanges → Result Failure Bank
  accrue b time_delta changes = do
    gained ← ok_or (fx.checked_sub changes.new_asset_share_value b.asset_share_value) math_error
    accumulated ← ok_or (fx.checked_mul gained b.total_asset_shares) math_error
    group ← collect changes.group_fees_collected b.collected_group_fees_outstanding
    insurance ← collect changes.insurance_fees_collected b.collected_insurance_fees_outstanding
    protocol ← collect changes.protocol_fees_collected b.collected_program_fees_outstanding
    ok (record b {
      cache = record b.cache {
        accumulated_since_last_update = accumulated;
        interest_accumulated_for = min time_delta u32_max;
      };
      asset_share_value = changes.new_asset_share_value;
      liability_share_value = changes.new_liability_share_value;
      collected_group_fees_outstanding = group;
      collected_insurance_fees_outstanding = insurance;
      collected_program_fees_outstanding = protocol;
    })

  -- The part after the early return of a bank without deposits or without loans.
  unfoldable pub accrue_between : Bank → ℕ → I80F48 → I80F48 → ProgramFees → Result Failure Bank
  accrue_between b time_delta total_assets total_liabilities group =
      or_math_error (
        calc_interest_rate_accrual_state_changes fx time_delta total_assets total_liabilities
          (create_interest_rate_calculator b.config.interest_rate_config group) b.asset_share_value
          b.liability_share_value)
      >>= (λ changes. accrue b time_delta changes)

  unfoldable pub accrue_interest : ℤ → ProgramFees → Bank → Result Failure Bank
  accrue_interest now group b = do
    delta ← ok_or (sub_i64 now b.last_update) panic
    time_delta ← unwrap_u64 delta
    if time_delta == 0 then ok b else do
      total_assets ← get_asset_amount fx b b.total_asset_shares
      total_liabilities ← get_liability_amount fx b b.total_liability_shares
      if eq_fixed total_assets zero_fixed || eq_fixed total_liabilities zero_fixed
          then ok (record b { last_update = now })
          else accrue_between (record b { last_update = now }) time_delta total_assets
              total_liabilities group

  -- A rate as a share of 1000% in 32 bits; the division and the product panic where they fail.
  unfoldable pub milli_to_u32 : I80F48 → Result Failure ℕ
  milli_to_u32 value = do
    ratio ←
        ok_or
          (fx.checked_div (max_fixed (min_fixed value (fx.from_u64 10)) zero_fixed)
            (fx.from_u64 10))
          panic
    scaled ← ok_or (fx.checked_mul ratio (fx.from_u64 u32_max)) panic
    ok_or (fx.checked_to_u64 scaled) panic

  unfoldable pub update_interest_rates :
      BankCache → ComputedInterestRates → Result Failure BankCache
  update_interest_rates c rates = do
    base ← milli_to_u32 rates.base_rate_apr
    lending ← milli_to_u32 rates.lending_rate_apr
    borrowing ← milli_to_u32 rates.borrowing_rate_apr
    ok (record c { base_rate = base; lending_rate = lending; borrowing_rate = borrowing })

  -- The rates at the bank's utilization, in its cache.
  unfoldable pub cache_rates : ℤ → ProgramFees → Bank → I80F48 → I80F48 → Result Failure Bank
  cache_rates now group b total_assets total_liabilities = do
    utilization_rate ← ok_or (fx.checked_div total_liabilities total_assets) math_error
    rates ← or_math_error (
        calc_interest_rate fx (create_interest_rate_calculator b.config.interest_rate_config group)
          utilization_rate)
    cache ← update_interest_rates b.cache rates
    ok (record b { cache = cache; last_update = now })

  unfoldable pub update_bank_cache : ℤ → ProgramFees → Bank → Result Failure Bank
  update_bank_cache now group b = do
    total_assets ← get_asset_amount fx b b.total_asset_shares
    total_liabilities ← get_liability_amount fx b b.total_liability_shares
    if eq_fixed total_assets zero_fixed || eq_fixed total_liabilities zero_fixed
        then ok (record b { cache = reset_preserving_oracle_price b.cache })
        else cache_rates now group b total_assets total_liabilities

-- The price of the risk engine, where it has one: price and confidence.
unfoldable pub update_cache_price : ℤ → Option (I80F48 × I80F48) → Bank → Bank
update_cache_price now none b = b
update_cache_price now (some price) b = record b {
  cache = record b.cache {
    last_oracle_price = price.0;
    last_oracle_price_confidence = price.1;
    last_oracle_price_timestamp = now;
  };
}
