-- ===== src/Marginfi/Wrapper/Conservation.antt =====
-- The changes of one balance by an amount keep what all others hold (Wrapper/Amounts).
use bot_flash_loan.Prelude.{ℕ, ◌≡◌, true, false, ok, ok_or, check-eq-ok, >>=-eq-ok, ok-injective}
use mathlib.Core.Path.{subst}
use mathlib.Core.Path.{subst}
use bot_flash_loan.Marginfi.Fixed.{
  leb_fixed, Fixed, FixedLaws, I80F48, zero_fixed, min_fixed, max_fixed,
}
use bot_flash_loan.Marginfi.Bank.{
  Bank, check_utilization_ratio, get_asset_amount, get_liability_amount, get_asset_shares,
  get_liability_shares,
}
use bot_flash_loan.Marginfi.Wrapper.{BankAccountWrapper, claim_emissions}
use bot_flash_loan.Marginfi.Wrapper.Amounts.{
  BalanceIncreaseType, BalanceDecreaseType, shift_asset_shares, shift_liability_shares, recount,
  count_positions, check_utilization, check_increase, check_decrease, is_bypass_borrow_limit,
  increase_balance_internal, decrease_balance_internal,
}
use bot_flash_loan.Marginfi.Wrapper.Shares.{
  Conserved, Conserved-trans, claim_emissions-Conserved, recount-Conserved,
  shift_asset_shares-Conserved, shift_liability_shares-Conserved,
}

-- What the bank owns is worth at least what is owed to it.
pub record Solvent (fx : Fixed) (b : Bank) : Type 0 where
  pub owned : I80F48
  pub owed : I80F48
  pub owned_is : get_asset_amount fx b b.total_asset_shares ≡ ok owned
  pub owed_is : get_liability_amount fx b b.total_liability_shares ≡ ok owed
  pub covered : leb_fixed owed owned ≡ true

module _ (fx : Fixed) (laws : FixedLaws fx) where
  -- With exact sums, an increase of a balance that succeeds keeps the bank's two share values, and
  -- the bank's totals less this balance's shares, on the asset and on the liability side.
  pub increase_balance_internal-Conserved :
      (now : ℕ) (w w' : BankAccountWrapper) (delta : I80F48) (kind : BalanceIncreaseType)
      → increase_balance_internal fx now w delta kind ≡ ok w'
      → Conserved w w'
  unfolding increase_balance_internal
  increase_balance_internal-Conserved now w w' delta kind h =
      let (claimed, e₁, h₁) = >>=-eq-ok (claim_emissions fx now w) _ h in
      let (owed, _, h₂) =
        >>=-eq-ok (get_liability_amount fx claimed.bank claimed.balance.liability_shares) _ h₁ in
      let (over, _, h₃) = >>=-eq-ok (ok_or (fx.checked_sub delta owed) _) _ h₂ in
      let (_, _, h₄) =
        >>=-eq-ok (check_increase fx kind (min_fixed owed delta) (max_fixed over zero_fixed)) _
          h₃ in
      let (more, _, h₅) =
        >>=-eq-ok (get_asset_shares fx claimed.bank (max_fixed over zero_fixed)) _ h₄ in
      let (deposited, e₆, h₆) = >>=-eq-ok (shift_asset_shares fx claimed more _) _ h₅ in
      let (shares, _, h₇) =
        >>=-eq-ok (get_liability_shares fx deposited.bank (min_fixed owed delta)) _ h₆ in
      let (less, _, h₈) = >>=-eq-ok (ok_or (fx.neg shares) _) _ h₇ in
      let (repaid, e₉, h₉) = >>=-eq-ok (shift_liability_shares fx deposited less true) _ h₈ in
      subst (Conserved w) (ok-injective h₉) (
        Conserved-trans
          (Conserved-trans (claim_emissions-Conserved fx now w e₁)
            (shift_asset_shares-Conserved fx laws claimed more _ e₆))
          (Conserved-trans (shift_liability_shares-Conserved fx laws deposited less true e₉)
            (recount-Conserved fx claimed repaid)))

  recounted :
      (kind : BalanceDecreaseType) (before w : BankAccountWrapper)
      → check_utilization fx kind w ≡ ok tt
      → check_utilization fx kind (recount fx before w) ≡ ok tt
  unfolding check_utilization check_utilization_ratio get_asset_amount get_liability_amount
      count_positions
  recounted kind before w used = used

  decrease_balance_internal-checked :
      (now : ℕ) (w : BankAccountWrapper) (delta : I80F48) (kind : BalanceDecreaseType)
      {w' : BankAccountWrapper}
      → decrease_balance_internal fx now w delta kind ≡ ok w'
      → Conserved w w' × (check_utilization fx kind w' ≡ ok tt)
  unfolding decrease_balance_internal
  decrease_balance_internal-checked now w delta kind h =
      let (claimed, e₁, h₁) = >>=-eq-ok (claim_emissions fx now w) _ h in
      let (owned, _, h₂) =
        >>=-eq-ok (get_asset_amount fx claimed.bank claimed.balance.asset_shares) _ h₁ in
      let (over, _, h₃) = >>=-eq-ok (ok_or (fx.checked_sub delta owned) _) _ h₂ in
      let (_, _, h₄) =
        >>=-eq-ok (check_decrease fx kind (min_fixed owned delta) (max_fixed over zero_fixed)) _
          h₃ in
      let (shares, _, h₅) =
        >>=-eq-ok (get_asset_shares fx claimed.bank (min_fixed owned delta)) _ h₄ in
      let (less, _, h₆) = >>=-eq-ok (ok_or (fx.neg shares) _) _ h₅ in
      let (withdrawn, e₇, h₇) = >>=-eq-ok (shift_asset_shares fx claimed less false) _ h₆ in
      let (more, _, h₈) =
        >>=-eq-ok (get_liability_shares fx withdrawn.bank (max_fixed over zero_fixed)) _ h₇ in
      let (borrowed, e₉, h₉) = >>=-eq-ok (shift_liability_shares fx withdrawn more _) _ h₈ in
      let (_, used, h₁₀) = >>=-eq-ok (check_utilization fx kind borrowed) _ h₉ in
      subst (λ x. Conserved w x × (check_utilization fx kind x ≡ ok tt)) (ok-injective h₁₀)
        (
          Conserved-trans
              (Conserved-trans (claim_emissions-Conserved fx now w e₁)
                (shift_asset_shares-Conserved fx laws claimed less false e₇))
              (Conserved-trans (shift_liability_shares-Conserved fx laws withdrawn more _ e₉)
                (recount-Conserved fx claimed borrowed)),
          recounted kind claimed borrowed used,
        )

  -- With exact sums, a decrease of a balance that succeeds keeps the bank's two share values, and
  -- the bank's totals less this balance's shares, on the asset and on the liability side.
  pub decrease_balance_internal-Conserved :
      (now : ℕ) (w w' : BankAccountWrapper) (delta : I80F48) (kind : BalanceDecreaseType)
      → decrease_balance_internal fx now w delta kind ≡ ok w'
      → Conserved w w'
  decrease_balance_internal-Conserved now w w' delta kind h =
      (decrease_balance_internal-checked now w delta kind h).0

  ratio-Solvent : (b : Bank) → check_utilization_ratio fx b ≡ ok tt → Solvent fx b
  unfolding check_utilization_ratio
  ratio-Solvent b h =
      let (a, ha, h₁) = >>=-eq-ok (get_asset_amount fx b b.total_asset_shares) _ h in
      let (l, hl, h₂) = >>=-eq-ok (get_liability_amount fx b b.total_liability_shares) _ h₁ in
      record { owned = a; owed = l; owned_is = ha; owed_is = hl; covered = check-eq-ok _ _ h₂ }

  checked-Solvent :
      (kind : BalanceDecreaseType) (w : BankAccountWrapper)
      → is_bypass_borrow_limit kind ≡ false
      → check_utilization fx kind w ≡ ok tt
      → Solvent fx w.bank
  unfolding check_utilization
  checked-Solvent kind w strict h = ratio-Solvent w.bank (rw strict at h)

  -- With exact sums, after a decrease of a balance that succeeds and is not in `BypassBorrowLimit`
  -- mode, the amount of the bank's asset shares is at least that of its liability shares.
  pub decrease_balance_internal-Solvent :
      (now : ℕ) (w w' : BankAccountWrapper) (delta : I80F48) (kind : BalanceDecreaseType)
      → is_bypass_borrow_limit kind ≡ false
      → decrease_balance_internal fx now w delta kind ≡ ok w'
      → Solvent fx w'.bank
  decrease_balance_internal-Solvent now w w' delta kind strict h =
      checked-Solvent kind w' strict (decrease_balance_internal-checked now w delta kind h).1
