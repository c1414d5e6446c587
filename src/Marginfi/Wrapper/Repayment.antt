-- ===== src/Marginfi/Wrapper/Repayment.antt =====
-- Settling a balance in full (Wrapper/All).
use bot_flash_loan.Prelude.{
  ℕ, ◌≡◌, true, false, not, ◌||◌, ok, ok_or, check, >>=-eq-ok, ok-injective, arith,
}
use bot_flash_loan.Prelude.Int.{ℤ, ltb_ℤ, pos, ◌+ℤ◌, ◌-ℤ◌}
use bot_flash_loan.Marginfi.Fixed.{Fixed, FixedLaws, I80F48, one_fixed}
use bot_flash_loan.Marginfi.Account.{Balance, empty_deactivated}
use bot_flash_loan.Marginfi.Bank.{
  Bank, get_asset_amount, get_liability_amount, change_liability_shares,
}
use bot_flash_loan.Marginfi.Wrapper.{
  BankAccountWrapper, is_positive_with_tolerance, is_zero_with_tolerance, close, claim_emissions,
}
use bot_flash_loan.Marginfi.Wrapper.All.{
  decrement_borrowing_position_count, collect_insurance_fees, repay_all,
}
use bot_flash_loan.Marginfi.Wrapper.Shares.{
  Conserved, others_liability_shares, claim_emissions-Conserved, ok_or-eq-ok,
  bank-change_liability_shares,
}

-- The debt of a balance is gone, and exactly its shares are gone from the bank.
pub record Repaid (w w' : BankAccountWrapper) : Type 0 where
  pub emptied : w'.balance ≡ empty_deactivated
  pub shares_removed : w'.bank.total_liability_shares ≡ others_liability_shares w
  pub same_asset_value : w'.bank.asset_share_value ≡ w.bank.asset_share_value
  pub same_liability_value : w'.bank.liability_share_value ≡ w.bank.liability_share_value

minus : (t s : ℤ) → t +ℤ (pos 0 -ℤ s) ≡ t -ℤ s
unfolding ◌+ℤ◌ ◌-ℤ◌
minus t s = ground arith

repaid :
    (w c : BankAccountWrapper) (bank collected : Bank) {w' : BankAccountWrapper} {closed : Balance}
    {shares : I80F48} {amount amount' : ℕ}
    → Conserved w c
    → empty_deactivated ≡ closed
    → shares ≡ pos 0 -ℤ c.balance.liability_shares
    → bank ≡ record (decrement_borrowing_position_count c.bank) {
      total_liability_shares = c.bank.total_liability_shares +ℤ shares;
    }
    → collected ≡ record bank {
      collected_insurance_fees_outstanding = collected.collected_insurance_fees_outstanding;
    }
    → ◌≡◌ {A = BankAccountWrapper × ℕ}
        (record { balance = closed; bank = collected }, amount)
        (w', amount')
    → Repaid w w'
repaid w c bank collected conserved empty negated changed fees whole =
    let removed = minus c.bank.total_liability_shares c.balance.liability_shares in
    let others = conserved.same_liabilities in
    let asset_value = conserved.same_asset_value in
    let liability_value = conserved.same_liability_value in
    record { emptied = cc; shares_removed = cc; same_asset_value = cc; same_liability_value = cc }

module _ (fx : Fixed) (laws : FixedLaws fx) where
  -- Collecting fees changes nothing else of the bank.
  collect_insurance_fees-same :
      (b : Bank) (more less : I80F48) {b' : Bank}
      → collect_insurance_fees fx b more less ≡ ok b'
      → b' ≡ record b {
        collected_insurance_fees_outstanding = b'.collected_insurance_fees_outstanding;
      }
  unfolding collect_insurance_fees
  collect_insurance_fees-same b more less h =
      let (dust, _, h₁) = >>=-eq-ok (ok_or (fx.checked_sub more less) _) _ h in
      let (fees, _, h₂) =
        >>=-eq-ok (ok_or (fx.checked_add dust b.collected_insurance_fees_outstanding) _) _ h₁ in
      let e = ok-injective h₂ in cc

  -- With exact sums and negation, `repay_all`, when it succeeds, leaves an empty, deactivated
  -- balance and a bank whose liability total is less by exactly the shares of that balance, at the
  -- same two share values.
  pub repay_all-Repaid :
      (now : ℕ) (w w' : BankAccountWrapper) (amount : ℕ)
      → repay_all fx now w ≡ ok (w', amount)
      → Repaid w w'
  unfolding repay_all close
  repay_all-Repaid now w w' amount h =
      let (c, e₁, h₁) = >>=-eq-ok (claim_emissions fx now w) _ h in
      let (debt, _, h₂) =
        >>=-eq-ok (get_liability_amount fx c.bank c.balance.liability_shares) _ h₁ in
      let (owned, _, h₃) = >>=-eq-ok (get_asset_amount fx c.bank c.balance.asset_shares) _ h₂ in
      let (_, _, h₄) = >>=-eq-ok (check (is_positive_with_tolerance debt) _) _ h₃ in
      let (zero, _, h₅) = >>=-eq-ok (is_zero_with_tolerance fx owned) _ h₄ in
      let (_, _, h₆) = >>=-eq-ok (check zero _) _ h₅ in
      let (closed, empty, h₇) = >>=-eq-ok (close fx c.balance true) _ h₆ in
      let (_, _, emptied) =
        >>=-eq-ok (check (not true || ltb_ℤ c.balance.emissions_outstanding one_fixed) _) _ empty in
      let (shares, negated, h₈) = >>=-eq-ok (ok_or (fx.neg c.balance.liability_shares) _) _ h₇ in
      let (bank, changed, h₉) =
        >>=-eq-ok
          (change_liability_shares fx (decrement_borrowing_position_count c.bank) shares false) _
          h₈ in
      let (up, _, h₁₀) = >>=-eq-ok (ok_or (fx.checked_ceil debt) _) _ h₉ in
      let (collected, fees, h₁₁) = >>=-eq-ok (collect_insurance_fees fx bank up debt) _ h₁₀ in
      let (_, _, h₁₂) = >>=-eq-ok (ok_or (fx.checked_to_u64 up) _) _ h₁₁ in
      repaid w c bank collected (claim_emissions-Conserved fx now w e₁) (ok-injective emptied)
        (laws.neg_exact _ _ (ok_or-eq-ok _ _ negated))
        (bank-change_liability_shares fx laws _ shares false changed)
        (collect_insurance_fees-same bank up debt fees) (ok-injective h₁₂)
