-- ===== src/Marginfi/Lending/Totals.antt =====
-- A borrow leaves the bank solvent, and the steps after it keep its totals (Lending/Borrow).
use mathlib.Core.Path.{subst}
use bot_flash_loan.Prelude.{
  ℕ, ◌≡◌, inl, inr, refl, ◌∙◌, ◌||◌, Bool-cases, Option, none, some, Result, ok, ok_or,
  ok-injective, >>=-eq-ok,
}
use bot_flash_loan.Prelude.Int.{ℤ}
use bot_flash_loan.Marginfi.Fixed.{Fixed, FixedLaws, I80F48, zero_fixed, eq_fixed}
use bot_flash_loan.Marginfi.Account.{Failure, panic}
use bot_flash_loan.Marginfi.Risk.{math_error}
use bot_flash_loan.Marginfi.Bank.{Bank, get_asset_amount, get_liability_amount}
use bot_flash_loan.Marginfi.Bank.Accrual.{
  update_bank_cache, cache_rates, update_interest_rates, or_math_error, update_cache_price,
}
use bot_flash_loan.Marginfi.Interest.Rates.{
  ProgramFees, calc_interest_rate, create_interest_rate_calculator,
}
use bot_flash_loan.Marginfi.Wrapper.{BankAccountWrapper}
use bot_flash_loan.Marginfi.Wrapper.Amounts.{borrow, borrow_only}
use bot_flash_loan.Marginfi.Wrapper.Conservation.{Solvent, decrease_balance_internal-Solvent}
use bot_flash_loan.Marginfi.Lending.Borrow.{borrow_with_fee, share_fee}

-- The part of a bank that its solvency depends on.
pub record SameTotals (b b' : Bank) : Type 0 where
  pub same_asset_shares : b'.total_asset_shares ≡ b.total_asset_shares
  pub same_liability_shares : b'.total_liability_shares ≡ b.total_liability_shares
  pub same_asset_value : b'.asset_share_value ≡ b.asset_share_value
  pub same_liability_value : b'.liability_share_value ≡ b.liability_share_value

pub same_totals :
    (b b' : Bank)
    → b'.total_asset_shares ≡ b.total_asset_shares
    → b'.total_liability_shares ≡ b.total_liability_shares
    → b'.asset_share_value ≡ b.asset_share_value
    → b'.liability_share_value ≡ b.liability_share_value
    → SameTotals b b'
same_totals b b' e₁ e₂ e₃ e₄ = record {
  same_asset_shares = e₁;
  same_liability_shares = e₂;
  same_asset_value = e₃;
  same_liability_value = e₄;
}

pub SameTotals-trans : {b b' b'' : Bank} → SameTotals b b' → SameTotals b' b'' → SameTotals b b''
SameTotals-trans s t = record {
  same_asset_shares = t.same_asset_shares ∙ s.same_asset_shares;
  same_liability_shares = t.same_liability_shares ∙ s.same_liability_shares;
  same_asset_value = t.same_asset_value ∙ s.same_asset_value;
  same_liability_value = t.same_liability_value ∙ s.same_liability_value;
}

module _ (fx : Fixed) where
  pub SameTotals-Solvent : (b b' : Bank) → SameTotals b b' → Solvent fx b → Solvent fx b'
  unfolding get_asset_amount get_liability_amount
  SameTotals-Solvent b b' same s = record {
    owned = s.owned;
    owed = s.owed;
    owned_is = rw (same.same_asset_shares, same.same_asset_value) s.owned_is;
    owed_is = rw (same.same_liability_shares, same.same_liability_value) s.owed_is;
    covered = s.covered;
  }

  pub shared : (fee rate : I80F48) (b b' : Bank) → share_fee fx fee rate b ≡ ok b' → SameTotals b b'
  unfolding share_fee
  shared fee rate b b' h = elim (Bool-cases (eq_fixed fee zero_fixed)) [
    | inl free ↦
        subst (SameTotals b) (ok-injective (rw (free) at h)) (same_totals b _ refl refl refl refl)
    | inr charged ↦ elim (Bool-cases (eq_fixed rate zero_fixed)) [
      | inl group_only ↦
          subst (SameTotals b) (ok-injective (rw (charged, group_only) at h))
            (same_totals b _ refl refl refl refl)
      | inr both ↦
          let (part, _, h₁) =
            >>=-eq-ok (ok_or (fx.checked_mul fee rate) math_error) _ (rw (charged, both) at h) in
          subst (SameTotals b) (ok-injective h₁) (same_totals b _ refl refl refl refl)
    ]
  ]

  cached_rates :
      (now : ℤ) (group : ProgramFees) (b b' : Bank) (ta tl : I80F48)
      → cache_rates fx now group b ta tl ≡ ok b'
      → SameTotals b b'
  unfolding cache_rates
  cached_rates now group b b' ta tl h =
      let (u, _, h₁) = >>=-eq-ok (ok_or (fx.checked_div tl ta) math_error) _ h in
      let (r, _, h₂) =
        >>=-eq-ok
          (or_math_error (
            calc_interest_rate fx
              (create_interest_rate_calculator b.config.interest_rate_config group) u))
          _ h₁ in
      let (c, _, h₃) = >>=-eq-ok (update_interest_rates fx b.cache r) _ h₂ in
      subst (SameTotals b) (ok-injective h₃) (same_totals b _ refl refl refl refl)

  pub cached :
      (now : ℤ) (group : ProgramFees) (b b' : Bank)
      → update_bank_cache fx now group b ≡ ok b'
      → SameTotals b b'
  unfolding update_bank_cache
  cached now group b b' h =
      let (ta, _, h₁) = >>=-eq-ok (get_asset_amount fx b b.total_asset_shares) _ h in
      let (tl, _, h₂) = >>=-eq-ok (get_liability_amount fx b b.total_liability_shares) _ h₁ in
      elim (Bool-cases (eq_fixed ta zero_fixed || eq_fixed tl zero_fixed)) [
        | inl empty_bank ↦
            subst (SameTotals b) (ok-injective (rw (empty_bank) at h₂))
              (same_totals b _ refl refl refl refl)
        | inr lent ↦ cached_rates now group b b' ta tl (rw (lent) at h₂)
      ]

  pub priced :
      (now : ℤ) (price : Option (I80F48 × I80F48)) (b : Bank)
      → SameTotals b (update_cache_price now price b)
  unfolding update_cache_price
  priced now none b = same_totals b _ refl refl refl refl
  priced now (some p) b = same_totals b _ refl refl refl refl

module _ (fx : Fixed) (laws : FixedLaws fx) where
  borrow-Solvent :
      (now : ℕ) (w w' : BankAccountWrapper) (amount : I80F48)
      → borrow fx now w amount ≡ ok w'
      → Solvent fx w'.bank
  unfolding borrow
  borrow-Solvent now w w' amount h =
      decrease_balance_internal-Solvent fx laws now w w' amount borrow_only refl h

  pub borrow_with_fee-Solvent :
      (now : ℕ) (w w' : BankAccountWrapper) (amount : ℕ) (fee : I80F48)
      → borrow_with_fee fx now w amount ≡ ok (w', fee)
      → Solvent fx w'.bank
  unfolding borrow_with_fee
  borrow_with_fee-Solvent now w w' amount fee h = elim (Bool-cases (eq_fixed rate zero_fixed)) [
    | inl free ↦
        let (borrowed, e, h₁) =
          >>=-eq-ok (borrow fx now w (fx.from_u64 amount)) _ (rw (free) at h) in
        to_result borrowed zero_fixed h₁ (borrow-Solvent now w borrowed _ e)
    | inr charged ↦
        let (f, _, h₁) =
          >>=-eq-ok (ok_or (fx.checked_mul (fx.from_u64 amount) rate) math_error) _
            (rw (charged) at h) in
        let (_, _, h₂) = >>=-eq-ok (ok_or (fx.checked_to_u64 f) math_error) _ h₁ in
        let (total, _, h₃) = >>=-eq-ok (ok_or (fx.checked_add (fx.from_u64 amount) f) panic) _ h₂ in
        let (borrowed, e, h₄) = >>=-eq-ok (borrow fx now w total) _ h₃ in
        to_result borrowed f h₄ (borrow-Solvent now w borrowed _ e)
  ]
    where
      rate : I80F48
      rate = w.bank.config.interest_rate_config.protocol_origination_fee

      to_result :
          (x : BankAccountWrapper) (f : I80F48)
          → ◌≡◌ {A = Result Failure (BankAccountWrapper × I80F48)} (ok (x, f)) (ok (w', fee))
          → Solvent fx x.bank
          → Solvent fx w'.bank
      to_result x f e s = subst (λ r. Solvent fx r.0.bank) (ok-injective e) s
