-- ===== src/Marginfi/Lending/Depositing.antt =====
-- A deposit that succeeds has been paid, and is not more than asked for (Lending/Deposit).
use bot_flash_loan.Prelude.{
  ℕ, ◌≤◌, ◌≡◌, ◌⊎◌, inl, inr, refl, sym, Bool, true, false, Bool-cases, not, ◌&&◌, Option, ok,
  check, ok-injective, >>=-eq-ok, ◌==◌, arith,
}
use mathlib.Core.Path.{subst}
use bot_flash_loan.Prelude.Int.{ℤ}
use bot_flash_loan.Prelude.Machine.{as_u64}
use bot_flash_loan.Solana.{AccountInfo}
use bot_flash_loan.Prelude.{List}
use bot_flash_loan.Marginfi.Error.{MarginfiError}
use bot_flash_loan.Marginfi.Fixed.{Fixed}
use bot_flash_loan.Marginfi.Account
use bot_flash_loan.Marginfi.Account.{
  Failure, marginfi, MarginfiAccount, Balance, account_disabled, account_in_receivership,
}
use bot_flash_loan.Marginfi.Bank
use bot_flash_loan.Marginfi.Bank.{Bank, get_remaining_deposit_capacity}
use bot_flash_loan.Marginfi.Bank.Accrual.{accrue_interest, update_bank_cache}
use bot_flash_loan.Marginfi.Wrapper.Amounts.{deposit}
use bot_flash_loan.Marginfi.Wrapper.Slots.{find_or_create, set_balance}
use bot_flash_loan.Marginfi.Policy.{
  validate_asset_tags, validate_bank_state, fails_if_paused_or_reduce_state,
}
use bot_flash_loan.Marginfi.Group.{program_fees_of}
use bot_flash_loan.Marginfi.Lending.{
  Accounts, Outside, try_lending_accounts, tokenless_repayments_allowed, wrap, pre_fee,
  sort_balances,
}
use bot_flash_loan.Marginfi.Lending.Changed.{Changed, changed}
use bot_flash_loan.Marginfi.Lending.Owed.{vault_by}
use bot_flash_loan.Marginfi.Lending.Totals.{SameTotals, cached}
use bot_flash_loan.Marginfi.Lending.Repay.{deposit_spl_transfer}
use bot_flash_loan.Marginfi.Lending.Deposit.{deposit_amount, deposit_some, lending_account_deposit}

-- `due` was sent to the vault, with the mint's transfer fee on top, and deposited to the balance at
-- the bank, found or created and with interest accrued until now.
pub record Credited {M W : Type 0} (fx : Fixed) (env : Outside M W) (now : ℤ) (a : Accounts)
    (mint : Option M) (due : ℕ) (tokens : W) (result : MarginfiAccount × Bank × W) : Type 0 where
  pub accrued : Bank
  pub accrued_is : accrue_interest fx now (program_fees_of a.group) a.bank ≡ ok accrued
  pub balances : List Balance
  pub bank : Bank
  pub deposits :
      Changed
        (find_or_create (as_u64 now) a.bank_key accrued a.marginfi_account.balances)
        (λ w w'. deposit fx (as_u64 now) w (fx.from_u64 due) ≡ ok w')
        accrued
        balances
        bank
  pub stored : result.0.balances ≡ sort_balances balances
  pub totals : SameTotals bank result.1
  pub sent : ℕ
  pub sent_is : pre_fee env mint due ≡ ok sent
  pub paid : env.transfer a.wallet a.vault sent tokens ≡ ok result.2

pub record Deposited {M W : Type 0} (fx : Fixed) (env : Outside M W) (now : ℤ) (a : Accounts)
    (amount : ℕ) (up_to : Bool) (tokens : W) (result : MarginfiAccount × Bank × W) : Type 0 where
  pub mint : Option M
  pub remaining : List AccountInfo
  pub taken : env.maybe_take_bank_mint a.bank a.remaining_accounts ≡ ok (mint, remaining)
  pub vault_is : a.vault ≡ a.bank.liquidity_vault
  pub due : ℕ
  pub within : due ≤ amount
  pub due_is : (up_to ≡ true) ⊎ (due ≡ amount)
  pub credited :
      ((due ≡ 0) × (result ≡ (a.marginfi_account, a.bank, tokens)))
      ⊎ Credited fx env now a mint due tokens result

module _ (fx : Fixed) where
  deposit_amount-le :
      (b : Bank) (amount due : ℕ) (up_to : Bool)
      → deposit_amount fx b amount up_to ≡ ok due
      → due ≤ amount
  unfolding deposit_amount
  deposit_amount-le b amount due true h =
      let (c, _, e) = >>=-eq-ok (get_remaining_deposit_capacity fx b) _ h in
      let e' = ok-injective e in omega arith
  deposit_amount-le b amount due false h = let e = ok-injective h in omega arith

  deposit_amount-all :
      (b : Bank) (amount due : ℕ) (up_to : Bool)
      → deposit_amount fx b amount up_to ≡ ok due
      → (up_to ≡ true) ⊎ (due ≡ amount)
  unfolding deposit_amount
  deposit_amount-all b amount due true h = inl refl
  deposit_amount-all b amount due false h = inr (sym (ok-injective h))

  module _ {M W : Type 0} (env : Outside M W) where
    deposit_some-Credited :
        (now : ℤ) (a : Accounts) (mint : Option M) (due : ℕ) (tokens : W)
        (result : MarginfiAccount × Bank × W)
        → deposit_some fx env now a mint due tokens ≡ ok result
        → Credited fx env now a mint due tokens result
    unfolding deposit_some deposit_spl_transfer
    deposit_some-Credited now a mint due tokens result h =
        let (accrued, e₁, h₁) =
          >>=-eq-ok (accrue_interest fx now (program_fees_of a.group) a.bank) _ h in
        let (place, e₂, h₂) =
          >>=-eq-ok (find_or_create (as_u64 now) a.bank_key accrued a.marginfi_account.balances) _
            h₁ in
        let (w, e₃, h₃) = >>=-eq-ok (wrap accrued place.1 place.0) _ h₂ in
        let (d, e₄, h₄) = >>=-eq-ok (deposit fx (as_u64 now) w (fx.from_u64 due)) _ h₃ in
        let (sent, e₅, h₅) = >>=-eq-ok (pre_fee env mint due) _ h₄ in
        let (tokens', e₆, h₆) = >>=-eq-ok (deposit_spl_transfer env a d.bank sent tokens) _ h₅ in
        let (_, _, e₇) =
          >>=-eq-ok
            (check (a.vault == d.bank.liquidity_vault) (marginfi MarginfiError.invalid_transfer)) _
            e₆ in
        let (bank', e₈, h₇) =
          >>=-eq-ok (update_bank_cache fx now (program_fees_of a.group) d.bank) _ h₆ in
        subst (Credited fx env now a mint due tokens) (ok-injective h₇) (record {
          accrued = accrued;
          accrued_is = e₁;
          balances = set_balance place.1 place.0 d.balance;
          bank = d.bank;
          deposits =
              changed (λ w w'. deposit fx (as_u64 now) w (fx.from_u64 due) ≡ ok w') accrued place w
                d e₂ e₃ e₄;
          stored = refl;
          totals = cached fx now (program_fees_of a.group) d.bank bank' e₈;
          sent = sent;
          sent_is = e₅;
          paid = e₇;
        })

    -- A deposit that succeeds is of a sum due: the amount, or at most the amount where only the limit is
    -- filled up. The sum is zero and nothing changed, or it was sent from the wallet to the bank's
    -- liquidity vault, with the mint's transfer fee on top, and just that sum was deposited to the
    -- account's balance at the bank, which is stored in the account; the bank has the shares that
    -- this left it.
    pub lending_account_deposit-Deposited :
        (now : ℤ) (a : Accounts) (amount : ℕ) (up_to : Bool) (tokens : W)
        (result : MarginfiAccount × Bank × W)
        → lending_account_deposit fx env now a amount up_to tokens ≡ ok result
        → Deposited fx env now a amount up_to tokens result
    unfolding lending_account_deposit
    lending_account_deposit-Deposited now a amount up_to tokens result h =
        let (_, e₀, h₀) = >>=-eq-ok (try_lending_accounts now a false) _ h in
        let (_, _, h₁) =
          >>=-eq-ok
            (check (not (Bank.get_flag a.bank tokenless_repayments_allowed))
              (marginfi MarginfiError.bank_reduce_only))
            _ h₀ in
        let (taken, e₂, h₂) =
          >>=-eq-ok (env.maybe_take_bank_mint a.bank a.remaining_accounts) _ h₁ in
        let (_, _, h₃) = >>=-eq-ok (validate_asset_tags a.bank a.marginfi_account.balances) _ h₂ in
        let (_, _, h₄) =
          >>=-eq-ok (validate_bank_state a.bank fails_if_paused_or_reduce_state) _ h₃ in
        let (_, _, h₅) =
          >>=-eq-ok
            (check
              (not (Account.get_flag a.marginfi_account account_disabled)
                && not (Account.get_flag a.marginfi_account account_in_receivership))
              (marginfi MarginfiError.account_disabled))
            _ h₄ in
        let (due, e₆, h₆) = >>=-eq-ok (deposit_amount fx a.bank amount up_to) _ h₅ in
        let credited : ((due ≡ 0) × (result ≡ (a.marginfi_account, a.bank, tokens)))
            ⊎ Credited fx env now a taken.0 due tokens result =
          elim (Bool-cases (due == 0)) [
            | inl none_due ↦
                inl (ground (arith, none_due), sym (ok-injective (rw (none_due) at h₆)))
            | inr some_due ↦
                inr (deposit_some-Credited now a taken.0 due tokens result (rw (some_due) at h₆))
          ] in
        record {
          mint = taken.0;
          remaining = taken.1;
          taken = e₂;
          vault_is = vault_by now a false e₀;
          due = due;
          within = deposit_amount-le a.bank amount due up_to e₆;
          due_is = deposit_amount-all a.bank amount due up_to e₆;
          credited = credited;
        }
