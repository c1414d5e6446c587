-- ===== src/Marginfi/Lending/Owed.antt =====
-- What a borrow adds to a debt, what a repayment takes from it (Lending/Borrow, Lending/Repay), and
-- what the constraints on the accounts make sure of.
use bot_flash_loan.Prelude.{
  ℕ, ◌≡◌, ◌⊎◌, inl, inr, refl, sym, ap, ◌∙◌, Bool, true, false, Bool-cases, some, Result, ok, ok_or,
  check, ok-injective, >>=-eq-ok, arith,
}
use bot_flash_loan.Prelude.Int.{ℤ}
use bot_flash_loan.Marginfi.Error.{MarginfiError}
use bot_flash_loan.Marginfi.Fixed.{Fixed, I80F48, zero_fixed, eq_fixed}
use bot_flash_loan.Marginfi.Account.{Failure, marginfi, panic, is_signer_authorized}
use bot_flash_loan.Marginfi.Risk.{math_error}
use bot_flash_loan.Marginfi.Bank.{get_asset_amount, get_liability_amount, change_liability_shares}
use bot_flash_loan.Marginfi.Interest.Growth.{ok_or-eq-ok}
use bot_flash_loan.Marginfi.Wrapper.{
  BankAccountWrapper, claim_emissions, is_positive_with_tolerance, is_zero_with_tolerance, close,
}
use bot_flash_loan.Marginfi.Wrapper.Amounts.{borrow, repay}
use bot_flash_loan.Marginfi.Wrapper.All.{
  repay_all, collect_insurance_fees, decrement_borrowing_position_count,
}
use bot_flash_loan.Marginfi.Lending.{Accounts, try_lending_accounts}
use bot_flash_loan.Marginfi.Lending.Borrow.{borrow_with_fee}
use bot_flash_loan.Marginfi.Lending.Repay.{repay_some_or_all}

-- The balance has borrowed `sent`, with the bank's origination fee on top if it has one.
pub record Owes (fx : Fixed) (now sent : ℕ) (w w' : BankAccountWrapper) : Type 0 where
  pub total : I80F48
  pub total_is :
      ((eq_fixed w.bank.config.interest_rate_config.protocol_origination_fee zero_fixed ≡ true)
        × (total ≡ fx.from_u64 sent))
      ⊎ ((fee : I80F48) × (fx.checked_mul
              (fx.from_u64 sent)
              w.bank.config.interest_rate_config.protocol_origination_fee
            ≡ some fee)
          × (fx.checked_add (fx.from_u64 sent) fee ≡ some total))
  pub borrowed : borrow fx now w total ≡ ok w'

-- The whole debt of the balance, at the bank's share value and with emissions claimed, rounded up to
-- whole tokens, is `due`, and repaying all of it leaves `w'`.
pub record RepaidAll (fx : Fixed) (now due : ℕ) (w w' : BankAccountWrapper) : Type 0 where
  pub claimed : BankAccountWrapper
  pub claimed_is : claim_emissions fx now w ≡ ok claimed
  pub debt : I80F48
  pub debt_is : get_liability_amount fx claimed.bank claimed.balance.liability_shares ≡ ok debt
  pub whole : I80F48
  pub whole_is : fx.checked_ceil debt ≡ some whole
  pub due_is : fx.checked_to_u64 whole ≡ some due
  pub emptied : repay_all fx now w ≡ ok (w', due)

-- The balance has repaid `due`: the amount that was asked for, or all of the debt.
pub Repays : Fixed → ℕ → ℕ → Bool → ℕ → BankAccountWrapper → BankAccountWrapper → Type 0
Repays fx now amount all due w w' =
    ((all ≡ false) × (due ≡ amount) × (repay fx now w (fx.from_u64 amount) ≡ ok w'))
    ⊎ ((all ≡ true) × RepaidAll fx now due w w')

pub authorized_by :
    (now : ℤ) (a : Accounts) (allow : Bool)
    → try_lending_accounts now a allow ≡ ok tt
    → is_signer_authorized a.marginfi_account a.group.admin a.authority allow ≡ true
unfolding try_lending_accounts
authorized_by now a allow h = ground (arith, h)

-- The vault that the caller names is the bank's.
pub vault_by :
    (now : ℤ) (a : Accounts) (allow : Bool)
    → try_lending_accounts now a allow ≡ ok tt
    → a.vault ≡ a.bank.liquidity_vault
unfolding try_lending_accounts
vault_by now a allow h = ground (arith, h)

module _ (fx : Fixed) where
  pub borrow_with_fee-Owes :
      (now : ℕ) (w : BankAccountWrapper) (sent : ℕ) (r : BankAccountWrapper × I80F48)
      → borrow_with_fee fx now w sent ≡ ok r
      → Owes fx now sent w r.0
  unfolding borrow_with_fee
  borrow_with_fee-Owes now w sent r h =
      elim (Bool-cases
        (eq_fixed w.bank.config.interest_rate_config.protocol_origination_fee zero_fixed)) [
          | inl free ↦
              let (borrowed, e, h₁) =
                >>=-eq-ok (borrow fx now w (fx.from_u64 sent)) _ (rw (free) at h) in
              record {
                total = fx.from_u64 sent;
                total_is = inl (free, refl);
                borrowed = e ∙ ap (λ z. ok z.0) (ok-injective h₁);
              }
          | inr charged ↦
              let (fee, e₁, h₁) =
                >>=-eq-ok
                  (ok_or
                    (fx.checked_mul (fx.from_u64 sent)
                      w.bank.config.interest_rate_config.protocol_origination_fee)
                    math_error)
                  _ (rw (charged) at h) in
              let (_, _, h₂) = >>=-eq-ok (ok_or (fx.checked_to_u64 fee) math_error) _ h₁ in
              let (total, e₃, h₃) =
                >>=-eq-ok (ok_or (fx.checked_add (fx.from_u64 sent) fee) panic) _ h₂ in
              let (borrowed, e₄, h₄) = >>=-eq-ok (borrow fx now w total) _ h₃ in
              record {
                total = total;
                total_is = inr (fee, ok_or-eq-ok _ math_error e₁, ok_or-eq-ok _ panic e₃);
                borrowed = e₄ ∙ ap (λ z. ok z.0) (ok-injective h₄);
              }
        ]

  with_amount :
      (whole : I80F48) (amount : ℕ) (w : BankAccountWrapper) (r : BankAccountWrapper × ℕ)
      → fx.checked_to_u64 whole ≡ some amount
      → ◌≡◌ {A = Result Failure (BankAccountWrapper × ℕ)} (ok (w, amount)) (ok r)
      → fx.checked_to_u64 whole ≡ some r.1
  with_amount whole amount w r e h = e ∙ ap (λ z. some z.1) (ok-injective h)

  repay_all-RepaidAll :
      (now : ℕ) (w : BankAccountWrapper) (r : BankAccountWrapper × ℕ)
      → repay_all fx now w ≡ ok r
      → RepaidAll fx now r.1 w r.0
  unfolding repay_all
  repay_all-RepaidAll now w r h =
      let (c, e₁, h₁) = >>=-eq-ok (claim_emissions fx now w) _ h in
      let (debt, e₂, h₂) =
        >>=-eq-ok (get_liability_amount fx c.bank c.balance.liability_shares) _ h₁ in
      let (assets, _, h₃) = >>=-eq-ok (get_asset_amount fx c.bank c.balance.asset_shares) _ h₂ in
      let (_, _, h₄) =
        >>=-eq-ok
          (check (is_positive_with_tolerance debt) (marginfi MarginfiError.no_liability_found)) _
          h₃ in
      let (no_assets, _, h₅) = >>=-eq-ok (is_zero_with_tolerance fx assets) _ h₄ in
      let (_, _, h₆) =
        >>=-eq-ok (check no_assets (marginfi MarginfiError.no_liability_found)) _ h₅ in
      let (closed, _, h₇) = >>=-eq-ok (close fx c.balance true) _ h₆ in
      let (shares, _, h₈) = >>=-eq-ok (ok_or (fx.neg c.balance.liability_shares) panic) _ h₇ in
      let (bank, _, h₉) =
        >>=-eq-ok
          (change_liability_shares fx (decrement_borrowing_position_count c.bank) shares false) _
          h₈ in
      let (whole, e₁₀, h₁₀) = >>=-eq-ok (ok_or (fx.checked_ceil debt) math_error) _ h₉ in
      let (collected, _, h₁₁) = >>=-eq-ok (collect_insurance_fees fx bank whole debt) _ h₁₀ in
      let (amount, e₁₂, h₁₂) = >>=-eq-ok (ok_or (fx.checked_to_u64 whole) math_error) _ h₁₁ in
      record {
        claimed = c;
        claimed_is = e₁;
        debt = debt;
        debt_is = e₂;
        whole = whole;
        whole_is = ok_or-eq-ok (fx.checked_ceil debt) math_error e₁₀;
        due_is =
            with_amount whole amount (record { balance = closed; bank = collected }) r
              (ok_or-eq-ok (fx.checked_to_u64 whole) math_error e₁₂) h₁₂;
        emptied = h;
      }

  pub repay_some_or_all-Repays :
      (now : ℕ) (w : BankAccountWrapper) (amount : ℕ) (all : Bool) (r : BankAccountWrapper × ℕ)
      → repay_some_or_all fx now w amount all ≡ ok r
      → Repays fx now amount all r.1 w r.0
  unfolding repay_some_or_all Repays
  repay_some_or_all-Repays now w amount true r h = inr (refl, repay_all-RepaidAll now w r h)
  repay_some_or_all-Repays now w amount false r h =
      let (x, e, h₁) = >>=-eq-ok (repay fx now w (fx.from_u64 amount)) _ h in
      let same = ok-injective h₁ in inl (refl, sym (ap (λ z. z.1) same), e ∙ ap (λ z. ok z.0) same)
