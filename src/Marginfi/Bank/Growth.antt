-- ===== src/Marginfi/Bank/Growth.antt =====
-- What interest accrual does to a bank (Bank/Accrual): shares stay, values and fees only grow.
use mathlib.Core.Path.{subst}
use bot_flash_loan.Prelude.{
  ℕ, ◌≡◌, ◌⊎◌, inl, inr, refl, ap, true, Bool-cases, Result, ok, err, ok_or, ok-injective,
  >>=-eq-ok, ◌==◌, ◌||◌, if◌then◌else◌, arith,
}
use bot_flash_loan.Prelude.Int.{ℤ, pos, ◌+ℤ◌, ltb_ℤ}
use bot_flash_loan.Prelude.Machine.{sub_i64}
use bot_flash_loan.Marginfi.Fixed.{
  Fixed, FixedLaws, FixedRounding, I80F48, zero_fixed, leb_fixed, eq_fixed,
}
use bot_flash_loan.Marginfi.Account.{panic}
use bot_flash_loan.Marginfi.Risk.{math_error}
use bot_flash_loan.Marginfi.Interest.Growth.{leb_fixed_refl, ok_or-eq-ok, state_changes-le}
use bot_flash_loan.Marginfi.Interest.Curve.{NoRate}
use bot_flash_loan.Marginfi.Interest.Rates.{
  ProgramFees, InterestRateStateChanges, calc_interest_rate_accrual_state_changes,
  create_interest_rate_calculator,
}
use bot_flash_loan.Marginfi.Bank.{Bank, get_asset_amount, get_liability_amount}
use bot_flash_loan.Marginfi.Bank.Accrual.{
  collect, accrue, accrue_between, accrue_interest, or_math_error, unwrap_u64,
}

-- The same shares, configuration and flags; values and fees that are not below those before.
pub record Grown (b b' : Bank) : Type 0 where
  pub same_asset_shares : b'.total_asset_shares ≡ b.total_asset_shares
  pub same_liability_shares : b'.total_liability_shares ≡ b.total_liability_shares
  pub same_config : b'.config ≡ b.config
  pub same_flags : b'.flags ≡ b.flags
  pub assets_grow : leb_fixed b.asset_share_value b'.asset_share_value ≡ true
  pub liabilities_grow : leb_fixed b.liability_share_value b'.liability_share_value ≡ true
  pub insurance_grows :
      leb_fixed b.collected_insurance_fees_outstanding b'.collected_insurance_fees_outstanding
      ≡ true
  pub group_grows :
      leb_fixed b.collected_group_fees_outstanding b'.collected_group_fees_outstanding ≡ true
  pub program_grows :
      leb_fixed b.collected_program_fees_outstanding b'.collected_program_fees_outstanding ≡ true

module _ (fx : Fixed) (laws : FixedLaws fx) (rounding : FixedRounding fx) where
  collect-le :
      (collected outstanding r : I80F48)
      → collect fx collected outstanding ≡ ok r
      → leb_fixed outstanding r ≡ true
  unfolding collect ◌+ℤ◌
  collect-le collected outstanding r h = elim (Bool-cases (ltb_ℤ zero_fixed collected)) [
    | inl more ↦
        let e =
          laws.add_exact collected outstanding r
            (ok_or-eq-ok (fx.checked_add collected outstanding) _ (rw (more) at h)) in
        rw (e) (ground (arith, more))
    | inr none_collected ↦
        rw⁻¹ (ok-injective (rw (none_collected) at h)) (leb_fixed_refl outstanding)
  ]

  accrue-Grown :
      (b b' : Bank) (dt : ℕ) (s : InterestRateStateChanges)
      → leb_fixed b.asset_share_value s.new_asset_share_value ≡ true
      → leb_fixed b.liability_share_value s.new_liability_share_value ≡ true
      → accrue fx b dt s ≡ ok b'
      → Grown b b'
  unfolding accrue
  accrue-Grown b b' dt s assets liabilities h =
      let (gained, _, h₁) =
        >>=-eq-ok (ok_or (fx.checked_sub s.new_asset_share_value b.asset_share_value) math_error) _
          h in
      let (acc, _, h₂) =
        >>=-eq-ok (ok_or (fx.checked_mul gained b.total_asset_shares) math_error) _ h₁ in
      let (g, eg, h₃) =
        >>=-eq-ok (collect fx s.group_fees_collected b.collected_group_fees_outstanding) _ h₂ in
      let (i, ei, h₄) =
        >>=-eq-ok (collect fx s.insurance_fees_collected b.collected_insurance_fees_outstanding) _
          h₃ in
      let (p, ep, h₅) =
        >>=-eq-ok (collect fx s.protocol_fees_collected b.collected_program_fees_outstanding) _
          h₄ in
      subst (Grown b) (ok-injective h₅) (record {
        same_asset_shares = refl;
        same_liability_shares = refl;
        same_config = refl;
        same_flags = refl;
        assets_grow = assets;
        liabilities_grow = liabilities;
        insurance_grows = collect-le _ _ _ ei;
        group_grows = collect-le _ _ _ eg;
        program_grows = collect-le _ _ _ ep;
      })

  or_math_error-eq-ok {ℓ} :
      {A : Type ℓ} (m : Result NoRate A) {a : A} → or_math_error m ≡ ok a → m ≡ ok a
  or_math_error-eq-ok (ok a) h = ap ok (ok-injective h)
  or_math_error-eq-ok (err NoRate.nothing) h = cc
  or_math_error-eq-ok (err NoRate.panicked) h = cc

  accrue_between-Grown :
      (b b' : Bank) (dt v w : ℕ) (ta tl : I80F48) (group : ProgramFees)
      → b.asset_share_value ≡ pos v
      → b.liability_share_value ≡ pos w
      → accrue_between fx b dt ta tl group ≡ ok b'
      → Grown b b'
  unfolding accrue_between
  accrue_between-Grown b b' dt v w ta tl group at_v at_w h =
      let (s, e, h₁) =
        >>=-eq-ok
          (or_math_error (
            calc_interest_rate_accrual_state_changes fx dt ta tl
              (create_interest_rate_calculator b.config.interest_rate_config group)
              b.asset_share_value b.liability_share_value))
          _ h in
      let (more, more') =
        state_changes-le fx laws rounding dt v w ta tl _ s
          (rw (at_v, at_w) at (or_math_error-eq-ok _ e)) in
      accrue-Grown b b' dt s (rw (at_v) more) (rw (at_w) more') h₁

  later_update : (b : Bank) (now : ℤ) → Grown b (record b { last_update = now })
  later_update b now = record {
    same_asset_shares = refl;
    same_liability_shares = refl;
    same_config = refl;
    same_flags = refl;
    assets_grow = leb_fixed_refl b.asset_share_value;
    liabilities_grow = leb_fixed_refl b.liability_share_value;
    insurance_grows = leb_fixed_refl b.collected_insurance_fees_outstanding;
    group_grows = leb_fixed_refl b.collected_group_fees_outstanding;
    program_grows = leb_fixed_refl b.collected_program_fees_outstanding;
  }

  later_Grown : (b b' : Bank) (now : ℤ) → Grown (record b { last_update = now }) b' → Grown b b'
  later_Grown b b' now g = record {
    same_asset_shares = g.same_asset_shares;
    same_liability_shares = g.same_liability_shares;
    same_config = g.same_config;
    same_flags = g.same_flags;
    assets_grow = g.assets_grow;
    liabilities_grow = g.liabilities_grow;
    insurance_grows = g.insurance_grows;
    group_grows = g.group_grows;
    program_grows = g.program_grows;
  }

  -- What is left of `accrue_interest` after some time.
  late_cases :
      (b b' : Bank) (now : ℤ) (dt : ℕ) (ta tl : I80F48) (group : ProgramFees)
      → (if eq_fixed ta zero_fixed || eq_fixed tl zero_fixed
          then ok (record b { last_update = now })
          else accrue_between fx (record b { last_update = now }) dt ta tl group)
        ≡ ok b'
      → (record b { last_update = now } ≡ b')
        ⊎ (accrue_between fx (record b { last_update = now }) dt ta tl group ≡ ok b')
  late_cases b b' now dt ta tl group h =
      elim (Bool-cases (eq_fixed ta zero_fixed || eq_fixed tl zero_fixed)) [
        | inl empty_bank ↦ inl (ok-injective (rw (empty_bank) at h))
        | inr lent ↦ inr (rw (lent) at h)
      ]

  -- Interest accrual that succeeds, on a bank whose share values are not negative, keeps the bank's
  -- shares, configuration and flags, and lowers neither a share value nor fees that are collected
  -- but not yet paid out. The fixed-point sums are taken to be exact, products and quotients to be
  -- rounded down.
  pub accrue_interest-Grown :
      (now : ℤ) (group : ProgramFees) (b b' : Bank) (v w : ℕ)
      → b.asset_share_value ≡ pos v
      → b.liability_share_value ≡ pos w
      → accrue_interest fx now group b ≡ ok b'
      → Grown b b'
  unfolding accrue_interest
  accrue_interest-Grown now group b b' v w at_v at_w h =
      let (delta, _, h₁) = >>=-eq-ok (ok_or (sub_i64 now b.last_update) panic) _ h in
      let (dt, _, h₂) = >>=-eq-ok (unwrap_u64 delta) _ h₁ in
      elim (Bool-cases (dt == 0)) [
        | inl at_once ↦
            subst (Grown b) (ok-injective (rw (at_once) at h₂)) (later_update b b.last_update)
        | inr later ↦
            let (ta, _, h₃) =
              >>=-eq-ok (get_asset_amount fx b b.total_asset_shares) _ (rw (later) at h₂) in
            let (tl, _, h₄) = >>=-eq-ok (get_liability_amount fx b b.total_liability_shares) _ h₃ in
            elim (late_cases b b' now dt ta tl group h₄) [
              | inl e ↦ subst (Grown b) e (later_update b now)
              | inr e ↦ later_Grown b b' now (
                  accrue_between-Grown (record b { last_update = now }) b' dt v w ta tl group at_v
                    at_w e)
            ]
      ]
