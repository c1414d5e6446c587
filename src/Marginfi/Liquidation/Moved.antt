-- ===== src/Marginfi/Liquidation/Moved.antt =====
-- The four changes of balances in a liquidation (Liquidation), and who may ask for it.
use bot_flash_loan.Prelude.{
  ℕ, ◌≡◌, refl, sym, ap, ◌∙◌, true, false, List, some, ok, ok_or, check, ok-injective, >>=-eq-ok,
  arith,
}
use mathlib.Core.Path.{subst}
use bot_flash_loan.Prelude.Int.{ℤ}
use bot_flash_loan.Solana.{Pubkey}
use bot_flash_loan.Marginfi.Error.{MarginfiError}
use bot_flash_loan.Marginfi.Fixed.{Fixed, I80F48, leb_fixed}
use bot_flash_loan.Marginfi.Account.{marginfi, Balance, is_signer_authorized}
use bot_flash_loan.Marginfi.Risk.{math_error}
use bot_flash_loan.Marginfi.Bank.{Bank, get_asset_amount, get_liability_amount}
use bot_flash_loan.Marginfi.Bank.Accrual.{update_bank_cache}
use bot_flash_loan.Marginfi.Interest.Growth.{ok_or-eq-ok}
use bot_flash_loan.Marginfi.Wrapper.Amounts.{
  repay, withdraw_ignore_borrow_cap, deposit_ignore_deposit_cap,
}
use bot_flash_loan.Marginfi.Wrapper.Slots.{find, find_or_create}
use bot_flash_loan.Marginfi.Group.{program_fees_of}
use bot_flash_loan.Marginfi.Lending.{Outside, wrap}
use bot_flash_loan.Marginfi.Lending.Changed.{Changed, changed, found, found-eq-ok}
use bot_flash_loan.Marginfi.Lending.Totals.{SameTotals, SameTotals-trans, same_totals, cached}
use bot_flash_loan.Marginfi.Liquidation.{
  LiquidateAccounts, Market, Amounts, Opened, Books, try_liquidate, take_debt, seize_asset,
  gain_asset, lose_debt, move_balances, collect_fee,
}

-- The signer may act for the liquidator, and the two vaults are those derived for the liability bank.
pub record Admitted (market : Market) (a : LiquidateAccounts) : Type 0 where
  pub authorized : is_signer_authorized a.liquidator a.group.admin a.authority false ≡ true
  pub liquidity_vault_is : a.liquidity_vault ≡ (market.vaults a.liab_bank_key).0
  pub insurance_vault_is : a.insurance_vault ≡ (market.vaults a.liab_bank_key).1

pub try_liquidate-Admitted :
    (market : Market) (now : ℤ) (a : LiquidateAccounts)
    → try_liquidate market now a ≡ ok tt
    → Admitted market a
unfolding try_liquidate
try_liquidate-Admitted market now a h = record {
  authorized = ground (arith, h);
  liquidity_vault_is = ground (arith, h);
  insurance_vault_is = ground (arith, h);
}

-- The liquidator borrows (or withdraws) its amount at the liability bank, the liquidatee loses the
-- seized amount at the asset bank, the liquidator gains it there, and the liquidatee's debt is
-- repaid by the final amount.
pub record Moved (fx : Fixed) (now : ℕ) (a : LiquidateAccounts) (seized : I80F48)
    (amounts : Amounts) (o : Opened) (k : Books) : Type 0 where
  pub owing : List Balance
  pub liab_bank : Bank
  pub debt_taken :
      Changed
        (find_or_create now a.liab_bank_key o.liab_bank a.liquidator.balances)
        (λ w w'. withdraw_ignore_borrow_cap fx now w amounts.liquidator ≡ ok w')
        o.liab_bank
        owing
        liab_bank
  pub bereft : List Balance
  pub asset_bank : Bank
  pub asset_seized :
      Changed
        (found a.asset_bank_key o.liquidatee.balances)
        (λ w w'. withdraw_ignore_borrow_cap fx now w seized ≡ ok w')
        o.asset_bank
        bereft
        asset_bank
  pub asset_gained :
      Changed
        (find_or_create now a.asset_bank_key asset_bank owing)
        (λ w w'. deposit_ignore_deposit_cap fx now w seized ≡ ok w')
        asset_bank
        k.liquidator
        k.asset_bank
  pub debt_lost :
      Changed
        (found a.liab_bank_key bereft)
        (λ w w'. repay fx now w amounts.final ≡ ok w')
        liab_bank
        k.liquidatee
        k.liab_bank

-- One of the four changes, of the books before it.
record Took (fx : Fixed) (now : ℕ) (key : Pubkey) (amount : I80F48) (k k' : Books) : Type 0 where
  same_liquidatee : k'.liquidatee ≡ k.liquidatee
  same_asset_bank : k'.asset_bank ≡ k.asset_bank
  took :
      Changed
        (find_or_create now key k.liab_bank k.liquidator)
        (λ w w'. withdraw_ignore_borrow_cap fx now w amount ≡ ok w')
        k.liab_bank
        k'.liquidator
        k'.liab_bank

record Seized (fx : Fixed) (now : ℕ) (key : Pubkey) (amount : I80F48) (k k' : Books) : Type 0 where
  same_liquidator : k'.liquidator ≡ k.liquidator
  same_liab_bank : k'.liab_bank ≡ k.liab_bank
  seized :
      Changed
        (found key k.liquidatee)
        (λ w w'. withdraw_ignore_borrow_cap fx now w amount ≡ ok w')
        k.asset_bank
        k'.liquidatee
        k'.asset_bank

record Gained (fx : Fixed) (now : ℕ) (key : Pubkey) (amount : I80F48) (k k' : Books) : Type 0 where
  same_liquidatee : k'.liquidatee ≡ k.liquidatee
  same_liab_bank : k'.liab_bank ≡ k.liab_bank
  gained :
      Changed
        (find_or_create now key k.asset_bank k.liquidator)
        (λ w w'. deposit_ignore_deposit_cap fx now w amount ≡ ok w')
        k.asset_bank
        k'.liquidator
        k'.asset_bank

record Lost (fx : Fixed) (now : ℕ) (key : Pubkey) (amount : I80F48) (k k' : Books) : Type 0 where
  same_liquidator : k'.liquidator ≡ k.liquidator
  same_asset_bank : k'.asset_bank ≡ k.asset_bank
  lost :
      Changed
        (found key k.liquidatee)
        (λ w w'. repay fx now w amount ≡ ok w')
        k.liab_bank
        k'.liquidatee
        k'.liab_bank

module _ (fx : Fixed) where
  take_debt-Took :
      (now : ℕ) (key : Pubkey) (amount : I80F48) (k k' : Books)
      → take_debt fx now key amount k ≡ ok k'
      → Took fx now key amount k k'
  unfolding take_debt
  take_debt-Took now key amount k k' h =
      let (place, e₁, h₁) = >>=-eq-ok (find_or_create now key k.liab_bank k.liquidator) _ h in
      let (w, e₂, h₂) = >>=-eq-ok (wrap k.liab_bank place.1 place.0) _ h₁ in
      let (_, _, h₃) = >>=-eq-ok (get_liability_amount fx w.bank w.balance.liability_shares) _ h₂ in
      let (w', e₄, h₄) = >>=-eq-ok (withdraw_ignore_borrow_cap fx now w amount) _ h₃ in
      let (_, _, h₅) =
        >>=-eq-ok (get_liability_amount fx w'.bank w'.balance.liability_shares) _ h₄ in
      subst (Took fx now key amount k) (ok-injective h₅) (record {
        same_liquidatee = refl;
        same_asset_bank = refl;
        took =
            changed (λ w w'. withdraw_ignore_borrow_cap fx now w amount ≡ ok w') k.liab_bank place w
              w' e₁ e₂ e₄;
      })

  seize_asset-Seized :
      (now : ℕ) (key : Pubkey) (amount : I80F48) (k k' : Books)
      → seize_asset fx now key amount k ≡ ok k'
      → Seized fx now key amount k k'
  unfolding seize_asset
  seize_asset-Seized now key amount k k' h =
      let (i, e₁, h₁) = >>=-eq-ok (find key k.liquidatee) _ h in
      let (w, e₂, h₂) = >>=-eq-ok (wrap k.asset_bank k.liquidatee i) _ h₁ in
      let (pre, _, h₃) = >>=-eq-ok (get_asset_amount fx w.bank w.balance.asset_shares) _ h₂ in
      let (_, _, h₄) =
        >>=-eq-ok (check (leb_fixed amount pre) (marginfi MarginfiError.overliquidation_attempt)) _
          h₃ in
      let (w', e₅, h₅) = >>=-eq-ok (withdraw_ignore_borrow_cap fx now w amount) _ h₄ in
      let (_, _, h₆) = >>=-eq-ok (get_asset_amount fx w'.bank w'.balance.asset_shares) _ h₅ in
      subst (Seized fx now key amount k) (ok-injective h₆) (record {
        same_liquidator = refl;
        same_liab_bank = refl;
        seized =
            changed (λ w w'. withdraw_ignore_borrow_cap fx now w amount ≡ ok w') k.asset_bank
              (i, k.liquidatee) w w' (found-eq-ok key k.liquidatee i e₁) e₂ e₅;
      })

  gain_asset-Gained :
      (now : ℕ) (key : Pubkey) (amount : I80F48) (k k' : Books)
      → gain_asset fx now key amount k ≡ ok k'
      → Gained fx now key amount k k'
  unfolding gain_asset
  gain_asset-Gained now key amount k k' h =
      let (place, e₁, h₁) = >>=-eq-ok (find_or_create now key k.asset_bank k.liquidator) _ h in
      let (w, e₂, h₂) = >>=-eq-ok (wrap k.asset_bank place.1 place.0) _ h₁ in
      let (_, _, h₃) = >>=-eq-ok (get_asset_amount fx w.bank w.balance.asset_shares) _ h₂ in
      let (w', e₄, h₄) = >>=-eq-ok (deposit_ignore_deposit_cap fx now w amount) _ h₃ in
      let (_, _, h₅) = >>=-eq-ok (get_asset_amount fx w'.bank w'.balance.asset_shares) _ h₄ in
      subst (Gained fx now key amount k) (ok-injective h₅) (record {
        same_liquidatee = refl;
        same_liab_bank = refl;
        gained =
            changed (λ w w'. deposit_ignore_deposit_cap fx now w amount ≡ ok w') k.asset_bank place
              w w' e₁ e₂ e₄;
      })

  lose_debt-Lost :
      (now : ℕ) (key : Pubkey) (amount : I80F48) (k k' : Books)
      → lose_debt fx now key amount k ≡ ok k'
      → Lost fx now key amount k k'
  unfolding lose_debt
  lose_debt-Lost now key amount k k' h =
      let (i, e₁, h₁) = >>=-eq-ok (find key k.liquidatee) _ h in
      let (w, e₂, h₂) = >>=-eq-ok (wrap k.liab_bank k.liquidatee i) _ h₁ in
      let (_, _, h₃) = >>=-eq-ok (get_liability_amount fx w.bank w.balance.liability_shares) _ h₂ in
      let (w', e₄, h₄) = >>=-eq-ok (repay fx now w amount) _ h₃ in
      let (_, _, h₅) =
        >>=-eq-ok (get_liability_amount fx w'.bank w'.balance.liability_shares) _ h₄ in
      subst (Lost fx now key amount k) (ok-injective h₅) (record {
        same_liquidator = refl;
        same_asset_bank = refl;
        lost =
            changed (λ w w'. repay fx now w amount ≡ ok w') k.liab_bank (i, k.liquidatee) w w'
              (found-eq-ok key k.liquidatee i e₁) e₂ e₄;
      })

  abbrev opened_books : LiquidateAccounts → Opened → Books
  opened_books a o = record {
    liquidator = a.liquidator.balances;
    liquidatee = o.liquidatee.balances;
    asset_bank = o.asset_bank;
    liab_bank = o.liab_bank;
  }

  Moved-by :
      (now : ℕ) (a : LiquidateAccounts) (amount : I80F48) (amounts : Amounts) (o : Opened)
      (k₁ k₂ k₃ k₄ : Books)
      → Took fx now a.liab_bank_key amounts.liquidator (opened_books a o) k₁
      → Seized fx now a.asset_bank_key amount k₁ k₂
      → Gained fx now a.asset_bank_key amount k₂ k₃
      → Lost fx now a.liab_bank_key amounts.final k₃ k₄
      → Moved fx now a amount amounts o k₄
  Moved-by now a amount amounts o k₁ k₂ k₃ k₄ t s g l = record {
    owing = k₁.liquidator;
    liab_bank = k₁.liab_bank;
    debt_taken = t.took;
    bereft = k₂.liquidatee;
    asset_bank = k₂.asset_bank;
    asset_seized =
        subst
          (λ b.
            Changed (found a.asset_bank_key o.liquidatee.balances)
              (λ w w'. withdraw_ignore_borrow_cap fx now w amount ≡ ok w') b k₂.liquidatee
              k₂.asset_bank)
          t.same_asset_bank
          (subst
            (λ l.
              Changed (found a.asset_bank_key l)
                (λ w w'. withdraw_ignore_borrow_cap fx now w amount ≡ ok w') k₁.asset_bank
                k₂.liquidatee k₂.asset_bank)
            t.same_liquidatee s.seized);
    asset_gained =
        subst
          (λ b.
            Changed (find_or_create now a.asset_bank_key k₂.asset_bank k₁.liquidator)
              (λ w w'. deposit_ignore_deposit_cap fx now w amount ≡ ok w') k₂.asset_bank
              k₄.liquidator b)
          (sym l.same_asset_bank)
          (subst
            (λ l.
              Changed (find_or_create now a.asset_bank_key k₂.asset_bank k₁.liquidator)
                (λ w w'. deposit_ignore_deposit_cap fx now w amount ≡ ok w') k₂.asset_bank l
                k₃.asset_bank)
            (sym l.same_liquidator)
            (subst
              (λ l.
                Changed (find_or_create now a.asset_bank_key k₂.asset_bank l)
                  (λ w w'. deposit_ignore_deposit_cap fx now w amount ≡ ok w') k₂.asset_bank
                  k₃.liquidator k₃.asset_bank)
              s.same_liquidator g.gained));
    debt_lost =
        subst
          (λ b.
            Changed (found a.liab_bank_key k₂.liquidatee)
              (λ w w'. repay fx now w amounts.final ≡ ok w') b k₄.liquidatee k₄.liab_bank)
          (g.same_liab_bank ∙ s.same_liab_bank)
          (subst
            (λ l.
              Changed (found a.liab_bank_key l) (λ w w'. repay fx now w amounts.final ≡ ok w')
                k₃.liab_bank k₄.liquidatee k₄.liab_bank)
            g.same_liquidatee l.lost);
  }

  module _ {M W : Type 0} (env : Outside M W) (market : Market) where
    pub move_balances-Moved :
        (now : ℕ) (a : LiquidateAccounts) (amount : I80F48) (amounts : Amounts) (o : Opened)
        (r : Books × ℕ)
        → move_balances fx env market now a amount amounts o ≡ ok r
        → (fx.checked_to_u64 amounts.insurance_fund_fee ≡ some r.1)
          × Moved fx now a amount amounts o r.0
    unfolding move_balances
    move_balances-Moved now a amount amounts o r h =
        let (k₁, e₁, h₁) =
          >>=-eq-ok (take_debt fx now a.liab_bank_key amounts.liquidator (opened_books a o)) _ h in
        let (k₂, e₂, h₂) = >>=-eq-ok (seize_asset fx now a.asset_bank_key amount k₁) _ h₁ in
        let (k₃, e₃, h₃) = >>=-eq-ok (gain_asset fx now a.asset_bank_key amount k₂) _ h₂ in
        let (fee, e₄, h₄) =
          >>=-eq-ok (ok_or (fx.checked_to_u64 amounts.insurance_fund_fee) math_error) _ h₃ in
        let (k₄, e₅, h₅) = >>=-eq-ok (lose_debt fx now a.liab_bank_key amounts.final k₃) _ h₄ in
        let whole =
          Moved-by now a amount amounts o k₁ k₂ k₃ k₄
            (take_debt-Took now a.liab_bank_key amounts.liquidator (opened_books a o) k₁ e₁)
            (seize_asset-Seized now a.asset_bank_key amount k₁ k₂ e₂)
            (gain_asset-Gained now a.asset_bank_key amount k₂ k₃ e₃)
            (lose_debt-Lost now a.liab_bank_key amounts.final k₃ k₄ e₅) in
        (
          ok_or-eq-ok (fx.checked_to_u64 amounts.insurance_fund_fee) math_error e₄
              ∙ ap (λ z. some z.1) (ok-injective h₅),
          subst (λ z. Moved fx now a amount amounts o z.0) (ok-injective h₅) whole,
        )

    -- The last part keeps the balances and the totals of both banks.
    pub record Collected (k k' : Books) : Type 0 where
      pub same_liquidator : k'.liquidator ≡ k.liquidator
      pub same_liquidatee : k'.liquidatee ≡ k.liquidatee
      pub asset_totals : SameTotals k.asset_bank k'.asset_bank
      pub liab_totals : SameTotals k.liab_bank k'.liab_bank

    pub collect_fee-Collected :
        (now : ℤ) (a : LiquidateAccounts) (fee : I80F48) (k k' : Books)
        → collect_fee fx env market now a fee k ≡ ok k'
        → Collected k k'
    unfolding collect_fee
    collect_fee-Collected now a fee k k' h =
        let (fees, _, h₁) = >>=-eq-ok (ok_or (fx.checked_add _ _) math_error) _ h in
        let with_fees : Bank = record k.liab_bank { collected_insurance_fees_outstanding = fees } in
        let (asset_bank, e₂, h₂) =
          >>=-eq-ok (update_bank_cache fx now (program_fees_of a.group) k.asset_bank) _ h₁ in
        let (liab_bank, e₃, h₃) =
          >>=-eq-ok (update_bank_cache fx now (program_fees_of a.group) with_fees) _ h₂ in
        subst (Collected k) (ok-injective h₃) (record {
          same_liquidator = refl;
          same_liquidatee = refl;
          asset_totals = cached fx now (program_fees_of a.group) k.asset_bank asset_bank e₂;
          liab_totals =
              SameTotals-trans (same_totals k.liab_bank with_fees refl refl refl refl)
                (cached fx now (program_fees_of a.group) with_fees liab_bank e₃);
        })
