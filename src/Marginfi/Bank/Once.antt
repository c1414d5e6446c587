-- ===== src/Marginfi/Bank/Once.antt =====
-- Accrual at one time happens once (Bank/Accrual): handlers of one transaction share the clock.
use mathlib.Core.Path.{subst}
use bot_flash_loan.Prelude.{
  ℕ, ◌≡◌, inl, inr, refl, sym, ap, true, Bool-cases, some, ok, ok_or, ok-injective, >>=-eq-ok, ◌==◌,
  ◌||◌, arith,
}
use bot_flash_loan.Prelude.Int.{ℤ, pos, negsuc, ◌-ℤ◌}
use bot_flash_loan.Prelude.Machine.{sub_i64}
use bot_flash_loan.Marginfi.Fixed.{Fixed, I80F48, zero_fixed, eq_fixed}
use bot_flash_loan.Marginfi.Account.{panic}
use bot_flash_loan.Marginfi.Risk.{math_error}
use bot_flash_loan.Marginfi.Interest.Rates.{
  ProgramFees, InterestRateStateChanges, calc_interest_rate_accrual_state_changes,
  create_interest_rate_calculator,
}
use bot_flash_loan.Marginfi.Interest.Growth.{ok_or-eq-ok}
use bot_flash_loan.Marginfi.Bank.{Bank, get_asset_amount, get_liability_amount}
use bot_flash_loan.Marginfi.Bank.Accrual.{
  collect, accrue, accrue_between, accrue_interest, or_math_error, unwrap_u64,
}

same_time : (a b : ℤ) → sub_i64 a b ≡ some (pos 0) → a ≡ b
unfolding ◌-ℤ◌
same_time (pos a) (pos b) h = ap pos (ground (arith, h))
same_time (pos a) (negsuc b) h = absurd (ground (arith, h))
same_time (negsuc a) (pos b) h = absurd (ground (arith, h))
same_time (negsuc a) (negsuc b) h = ap negsuc (ground (arith, h))

no_time : (a : ℤ) → sub_i64 a a ≡ some (pos 0)
unfolding ◌-ℤ◌
no_time (pos a) = ground arith
no_time (negsuc a) = ground arith

at_zero : (d : ℤ) (t : ℕ) → unwrap_u64 d ≡ ok t → (t == 0) ≡ true → d ≡ pos 0
at_zero (pos d) t h z = ground (arith, h, z)
at_zero (negsuc d) t h z = cc

-- What accrual keeps of a bank, whatever it computes.
pub record Kept (now : ℤ) (b b' : Bank) : Type 0 where
  pub updated : b'.last_update ≡ now
  pub same_asset_shares : b'.total_asset_shares ≡ b.total_asset_shares
  pub same_liability_shares : b'.total_liability_shares ≡ b.total_liability_shares

kept :
    (now : ℤ) (b b' : Bank)
    → b'.last_update ≡ now
    → b'.total_asset_shares ≡ b.total_asset_shares
    → b'.total_liability_shares ≡ b.total_liability_shares
    → Kept now b b'
kept now b b' u a l = record { updated = u; same_asset_shares = a; same_liability_shares = l }

module _ (fx : Fixed) where
  accrue-Kept :
      (b b' : Bank) (dt : ℕ) (s : InterestRateStateChanges)
      → accrue fx b dt s ≡ ok b'
      → Kept b.last_update b b'
  unfolding accrue
  accrue-Kept b b' dt s h =
      let (gained, _, h₁) =
        >>=-eq-ok (ok_or (fx.checked_sub s.new_asset_share_value b.asset_share_value) math_error) _
          h in
      let (acc, _, h₂) =
        >>=-eq-ok (ok_or (fx.checked_mul gained b.total_asset_shares) math_error) _ h₁ in
      let (g, eg, h₃) =
        >>=-eq-ok (collect fx s.group_fees_collected b.collected_group_fees_outstanding) _ h₂ in
      let (i, ei, h₄) =
        >>=-eq-ok (collect fx s.insurance_fees_collected b.collected_insurance_fees_outstanding) _
          h₃ in
      let (p, ep, h₅) =
        >>=-eq-ok (collect fx s.protocol_fees_collected b.collected_program_fees_outstanding) _
          h₄ in
      subst (Kept b.last_update b) (ok-injective h₅) (kept _ b _ refl refl refl)

  accrue_between-Kept :
      (b b' : Bank) (dt : ℕ) (ta tl : I80F48) (group : ProgramFees)
      → accrue_between fx b dt ta tl group ≡ ok b'
      → Kept b.last_update b b'
  unfolding accrue_between
  accrue_between-Kept b b' dt ta tl group h =
      let (s, _, h₁) =
        >>=-eq-ok
          (or_math_error (
            calc_interest_rate_accrual_state_changes fx dt ta tl
              (create_interest_rate_calculator b.config.interest_rate_config group)
              b.asset_share_value b.liability_share_value))
          _ h in
      accrue-Kept b b' dt s h₁

  pub accrue_interest-Kept :
      (now : ℤ) (group : ProgramFees) (b b' : Bank)
      → accrue_interest fx now group b ≡ ok b'
      → Kept now b b'
  unfolding accrue_interest
  accrue_interest-Kept now group b b' h =
      let (delta, e, h₁) = >>=-eq-ok (ok_or (sub_i64 now b.last_update) panic) _ h in
      let (dt, u, h₂) = >>=-eq-ok (unwrap_u64 delta) _ h₁ in
      elim (Bool-cases (dt == 0)) [
        | inl at_once ↦
            let d = at_zero delta dt u at_once in
            subst (Kept now b) (ok-injective (rw (at_once) at h₂)) (
              kept now b b (sym (same_time now b.last_update (ok_or-eq-ok _ _ (rw (d) at e)))) refl
                refl)
        | inr later ↦
            let (ta, _, h₃) =
              >>=-eq-ok (get_asset_amount fx b b.total_asset_shares) _ (rw (later) at h₂) in
            let (tl, _, h₄) = >>=-eq-ok (get_liability_amount fx b b.total_liability_shares) _ h₃ in
            elim (Bool-cases (eq_fixed ta zero_fixed || eq_fixed tl zero_fixed)) [
              | inl empty_bank ↦
                  subst (Kept now b) (ok-injective (rw (empty_bank) at h₄))
                    (kept now b _ refl refl refl)
              | inr lent ↦
                  let k =
                    accrue_between-Kept (record b { last_update = now }) b' dt ta tl group
                      (rw (lent) at h₄) in
                  kept now b b' k.updated k.same_asset_shares k.same_liability_shares
            ]
      ]

  -- Where interest accrual succeeds, a second accrual at the same time changes nothing, whatever
  -- the program fees are.
  pub accrue_interest_twice :
      (now : ℤ) (group group' : ProgramFees) (b b' : Bank)
      → accrue_interest fx now group b ≡ ok b'
      → accrue_interest fx now group' b' ≡ ok b'
  unfolding accrue_interest
  accrue_interest_twice now group group' b b' h =
      rw ((accrue_interest-Kept now group b b' h).updated, no_time now) refl
