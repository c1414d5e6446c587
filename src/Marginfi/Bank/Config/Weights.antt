-- ===== src/Marginfi/Bank/Config/Weights.antt =====
-- What a valid configuration is, apart from how `validate` (Bank/Config) finds it out, and that
-- configuring a bank leads to one.
use bot_flash_loan.Prelude.{
  ◌≤◌, ◌≡◌, ◌⊎◌, inl, inr, refl, true, ok, check, >>=-eq-ok, check-eq-ok, ◌>>◌, if◌then◌else◌,
  arith,
}
use bot_flash_loan.Prelude.Int.{pos, negsuc}
use bot_flash_loan.Marginfi.Fixed.{I80F48, zero_fixed, one_fixed, two_fixed, leb_fixed, eq_fixed}
use bot_flash_loan.Marginfi.Risk.{RiskTier, isolated, collateral, is_isolated}
use bot_flash_loan.Marginfi.Interest
use bot_flash_loan.Marginfi.Interest.{invalid_config}
use bot_flash_loan.Marginfi.Bank.{BankConfig}
use bot_flash_loan.Marginfi.Bank.Config.{check_isolated, validate, oracle_min_age}

-- The asset weights are between 0 and 1 at the initial and at most 2 at the maintenance requirement,
-- the liability weights at least 1, the initial requirement is the stricter one, an isolated asset
-- does not count, and prices and interest rates are configured.
pub record Weighted (c : BankConfig) : Type 0 where
  pub assets_low : leb_fixed zero_fixed c.asset_weight_init ≡ true
  pub assets_high : leb_fixed c.asset_weight_init one_fixed ≡ true
  pub assets_ordered : leb_fixed c.asset_weight_init c.asset_weight_maint ≡ true
  pub assets_maint_high : leb_fixed c.asset_weight_maint two_fixed ≡ true
  pub liabilities_low : leb_fixed one_fixed c.liability_weight_maint ≡ true
  pub liabilities_ordered : leb_fixed c.liability_weight_maint c.liability_weight_init ≡ true
  pub isolated_counts_not :
      (c.risk_tier ≡ collateral)
      ⊎ ((c.asset_weight_init ≡ zero_fixed) × (c.asset_weight_maint ≡ zero_fixed))
  pub rates : Interest.validate c.interest_rate_config ≡ ok tt
  pub oracle_age : oracle_min_age ≤ c.oracle_max_age

eq_zero : (a : I80F48) → eq_fixed a zero_fixed ≡ true → a ≡ zero_fixed
eq_zero (pos n) h = ground (arith, h)
eq_zero (negsuc n) h = ground (arith, h)

-- The check of `check_isolated`, tier and weights apart.
isolated_check :
    (t : RiskTier) (a b : I80F48)
    → (if is_isolated t
        then (check (eq_fixed a zero_fixed) invalid_config
            >> check (eq_fixed b zero_fixed) invalid_config)
        else ok tt)
      ≡ ok tt
    → (t ≡ collateral) ⊎ ((a ≡ zero_fixed) × (b ≡ zero_fixed))
isolated_check collateral a b h = inl refl
isolated_check isolated a b h =
    let (_, e, k) = >>=-eq-ok (check (eq_fixed a zero_fixed) invalid_config) _ h in
    inr (
      eq_zero a (check-eq-ok (eq_fixed a zero_fixed) invalid_config e),
      eq_zero b (check-eq-ok (eq_fixed b zero_fixed) invalid_config k),
    )

isolated_by :
    (c : BankConfig)
    → check_isolated c ≡ ok tt
    → (c.risk_tier ≡ collateral)
      ⊎ ((c.asset_weight_init ≡ zero_fixed) × (c.asset_weight_maint ≡ zero_fixed))
unfolding check_isolated
isolated_by c h = isolated_check c.risk_tier c.asset_weight_init c.asset_weight_maint h

pub weighted : (c : BankConfig) → validate c ≡ ok tt → Weighted c
unfolding validate check_isolated
weighted c h = record {
  assets_low = ground (arith, h);
  assets_high = ground (arith, h);
  assets_ordered = ground (arith, h);
  assets_maint_high = ground (arith, h);
  liabilities_low = ground (arith, h);
  liabilities_ordered = ground (arith, h);
  isolated_counts_not = isolated_by c (ground (arith, h));
  rates = ground (arith, h);
  oracle_age = ground (arith, h);
}
