-- ===== src/Marginfi/Lending/Paying.antt =====
-- A repayment that succeeds has been paid (Lending/Repay).
use mathlib.Core.Path.{subst}
use bot_flash_loan.Prelude.{
  ℕ, ◌≡◌, ◌⊎◌, inl, inr, refl, sym, Bool, true, false, not, Bool-cases, List, Option, ok, ok_or,
  if◌then◌else◌, check, ok-injective, >>=-eq-ok, ◌==◌, arith,
}
use bot_flash_loan.Prelude.Int.{ℤ, ltb_ℤ}
use bot_flash_loan.Prelude.Machine.{as_u64}
use bot_flash_loan.Solana.{AccountInfo}
use bot_flash_loan.Marginfi.Error.{MarginfiError}
use bot_flash_loan.Marginfi.Fixed.{Fixed, zero_fixed}
use bot_flash_loan.Marginfi.Account
use bot_flash_loan.Marginfi.Account.{
  Failure, marginfi, panic, Balance, MarginfiAccount, account_disabled,
}
use bot_flash_loan.Marginfi.Bank.{Bank, get_flag, update_flag, group_flags}
use bot_flash_loan.Marginfi.Bank.Accrual.{accrue_interest, update_bank_cache}
use bot_flash_loan.Marginfi.Wrapper.{BankAccountWrapper}
use bot_flash_loan.Marginfi.Wrapper.Slots.{find, set_balance}
use bot_flash_loan.Marginfi.Policy.{validate_bank_state, fails_in_paused_state}
use bot_flash_loan.Marginfi.Group.{program_fees_of}
use bot_flash_loan.Marginfi.Lending.{
  Accounts, Outside, try_lending_accounts, wrap, pre_fee, sort_balances,
  tokenless_repayments_allowed, tokenless_repayments_complete,
}
use bot_flash_loan.Prelude.Bits.{bit_and}
use bot_flash_loan.Marginfi.Lending.Changed.{Changed, changed, found, found-eq-ok}
use bot_flash_loan.Marginfi.Lending.Owed.{Repays, repay_some_or_all-Repays, vault_by}
use bot_flash_loan.Marginfi.Lending.Totals.{SameTotals, same_totals, SameTotals-trans, cached}
use bot_flash_loan.Marginfi.Lending.Repay.{
  is_tokenless, purge_threshold, deposit_spl_transfer, repay_some_or_all, complete_repayments, pay,
  lending_account_repay,
}

-- The tokens after paying `due`: sent to the bank's vault, with the mint's transfer fee on top, or,
-- for the risk admin who repays all, as they were.
pub Paid : {M W : Type 0} → Outside M W → Accounts → Option M → ℕ → Bool → W → W → Type 0
Paid env a mint due all tokens tokens' =
    ((all ≡ true) × (a.authority ≡ a.group.risk_admin) × (tokens' ≡ tokens))
    ⊎ ((sent : ℕ) × (pre_fee env mint due ≡ ok sent)
        × (env.transfer a.wallet a.vault sent tokens ≡ ok tokens'))

pub record Repaid {M W : Type 0} (fx : Fixed) (env : Outside M W) (now : ℤ) (a : Accounts)
    (amount : ℕ) (all : Bool) (tokens : W) (result : MarginfiAccount × Bank × W) : Type 0 where
  pub enabled : Account.get_flag a.marginfi_account account_disabled ≡ false
  pub mint : Option M
  pub remaining : List AccountInfo
  pub taken : env.maybe_take_bank_mint a.bank a.remaining_accounts ≡ ok (mint, remaining)
  pub vault_is : a.vault ≡ a.bank.liquidity_vault
  pub accrued : Bank
  pub accrued_is : accrue_interest fx now (program_fees_of a.group) a.bank ≡ ok accrued
  pub due : ℕ
  pub balances : List Balance
  pub bank : Bank
  pub repays :
      Changed
        (found a.bank_key a.marginfi_account.balances)
        (Repays fx (as_u64 now) amount all due)
        accrued
        balances
        bank
  pub stored : result.0.balances ≡ sort_balances balances
  pub totals : SameTotals bank result.1
  pub paid : Paid env a mint due all tokens result.2

tokenless_by :
    (a : Accounts) (b : Bank) (all : Bool)
    → is_tokenless a b all ≡ true
    → (all ≡ true) × (a.authority ≡ a.group.risk_admin)
unfolding is_tokenless
tokenless_by a b all h = ground (arith, h)

enabled_by :
    (p : Bool) → check (not p) (marginfi MarginfiError.account_disabled) ≡ ok tt → p ≡ false
enabled_by p h = ground (arith, h)

module _ (fx : Fixed) where
  completed : (b b' : Bank) → complete_repayments fx b ≡ ok b' → SameTotals b b'
  unfolding complete_repayments update_flag
  completed b b' h = elim (Bool-cases (get_flag b tokenless_repayments_allowed)) [
    | inl allowed ↦
        let (size, _, h₁) =
          >>=-eq-ok
            (if ltb_ℤ b.total_liability_shares zero_fixed
              then ok_or (fx.neg b.total_liability_shares) panic
              else ok b.total_liability_shares)
            _ (rw (allowed) at h) in
        elim (Bool-cases (ltb_ℤ size purge_threshold)) [
          | inl small ↦ flagged b b' (rw (small) at h₁)
          | inr large ↦
              subst (SameTotals b) (ok-injective (rw (large) at h₁))
                (same_totals b b refl refl refl refl)
        ]
    | inr not_allowed ↦
        subst (SameTotals b) (ok-injective (rw (not_allowed) at h))
          (same_totals b b refl refl refl refl)
  ]
    where
      flagged :
          (b b' : Bank) → update_flag b true tokenless_repayments_complete ≡ ok b' → SameTotals b b'
      flagged b b' h =
          let (_, _, h₁) =
            >>=-eq-ok
              (check
                (bit_and tokenless_repayments_complete group_flags == tokenless_repayments_complete)
                panic)
              _ h in
          subst (SameTotals b) (ok-injective h₁) (same_totals b _ refl refl refl refl)

  module _ {M W : Type 0} (env : Outside M W) where
    pay-Paid :
        (a : Accounts) (mint : Option M) (b : Bank) (due : ℕ) (all : Bool) (tokens tokens' : W)
        → pay fx env a mint b due all tokens ≡ ok tokens'
        → Paid env a mint due all tokens tokens'
    unfolding pay Paid deposit_spl_transfer
    pay-Paid a mint b due all tokens tokens' h = elim (Bool-cases (is_tokenless a b all)) [
      | inl free ↦
          let (e, admin) = tokenless_by a b all free in
          inl (e, admin, sym (ok-injective (rw (free) at h)))
      | inr charged ↦
          let (sent, e, h₁) = >>=-eq-ok (pre_fee env mint due) _ (rw (charged) at h) in
          let (_, _, h₂) =
            >>=-eq-ok
              (check (a.vault == b.liquidity_vault) (marginfi MarginfiError.invalid_transfer)) _
              h₁ in
          inr (sent, e, h₂)
    ]

    -- The outcome, from what the steps of the handler have found.
    repaid_by :
        (now : ℤ) (a : Accounts) (amount : ℕ) (all : Bool) (tokens tokens' : W)
        (taken : Option M × List AccountInfo) (accrued : Bank) (i : ℕ) (w : BankAccountWrapper)
        (repaid : BankAccountWrapper × ℕ) (bank bank' : Bank)
        → try_lending_accounts now a true ≡ ok tt
        → env.maybe_take_bank_mint a.bank a.remaining_accounts ≡ ok taken
        → Account.get_flag a.marginfi_account account_disabled ≡ false
        → accrue_interest fx now (program_fees_of a.group) a.bank ≡ ok accrued
        → find a.bank_key a.marginfi_account.balances ≡ ok i
        → wrap accrued a.marginfi_account.balances i ≡ ok w
        → repay_some_or_all fx (as_u64 now) w amount all ≡ ok repaid
        → pay fx env a taken.0 repaid.0.bank repaid.1 all tokens ≡ ok tokens'
        → complete_repayments fx repaid.0.bank ≡ ok bank
        → update_bank_cache fx now (program_fees_of a.group) bank ≡ ok bank'
        → Repaid fx env now a amount all tokens (
          record a.marginfi_account {
            balances = sort_balances (set_balance a.marginfi_account.balances i repaid.0.balance);
            last_update = as_u64 now;
          },
          bank',
          tokens',
        )
    repaid_by now a amount all tokens tokens' taken accrued i w repaid bank bank' e₀ e₁ e₂ e₄ e₅ e₆
          e₇ e₈ e₉ e₁₀ =
        record {
          enabled = e₂;
          mint = taken.0;
          remaining = taken.1;
          taken = e₁;
          vault_is = vault_by now a true e₀;
          accrued = accrued;
          accrued_is = e₄;
          due = repaid.1;
          balances = set_balance a.marginfi_account.balances i repaid.0.balance;
          bank = repaid.0.bank;
          repays =
              changed (Repays fx (as_u64 now) amount all repaid.1) accrued
                (i, a.marginfi_account.balances) w repaid.0
                (found-eq-ok a.bank_key a.marginfi_account.balances i e₅) e₆
                (repay_some_or_all-Repays fx (as_u64 now) w amount all repaid e₇);
          stored = refl;
          totals =
              SameTotals-trans (completed repaid.0.bank bank e₉)
                (cached fx now (program_fees_of a.group) bank bank' e₁₀);
          paid = pay-Paid a taken.0 repaid.0.bank repaid.1 all tokens tokens' e₈;
        }

    -- A repayment that succeeds is of an account that is not disabled, and it is paid: the sum due was
    -- sent from the wallet to the bank's liquidity vault, with the mint's transfer fee on top. Due is
    -- the amount or, where all is repaid, the whole debt at the bank with interest until now, rounded
    -- up to whole tokens. The balance has repaid that sum and is stored in the account, and the bank
    -- has the shares that this left it. Only the risk admin, and only who repays all, may pay nothing.
    pub lending_account_repay-Repaid :
        (now : ℤ) (a : Accounts) (amount : ℕ) (all : Bool) (tokens : W)
        (result : MarginfiAccount × Bank × W)
        → lending_account_repay fx env now a amount all tokens ≡ ok result
        → Repaid fx env now a amount all tokens result
    unfolding lending_account_repay
    lending_account_repay-Repaid now a amount all tokens result h =
        let (_, e₀, h₀) = >>=-eq-ok (try_lending_accounts now a true) _ h in
        let (taken, e₁, h₁) =
          >>=-eq-ok (env.maybe_take_bank_mint a.bank a.remaining_accounts) _ h₀ in
        let (_, e₂, h₂) =
          >>=-eq-ok
            (check (not (Account.get_flag a.marginfi_account account_disabled))
              (marginfi MarginfiError.account_disabled))
            _ h₁ in
        let (_, _, h₃) = >>=-eq-ok (validate_bank_state a.bank fails_in_paused_state) _ h₂ in
        let (accrued, e₄, h₄) =
          >>=-eq-ok (accrue_interest fx now (program_fees_of a.group) a.bank) _ h₃ in
        let (i, e₅, h₅) = >>=-eq-ok (find a.bank_key a.marginfi_account.balances) _ h₄ in
        let (w, e₆, h₆) = >>=-eq-ok (wrap accrued a.marginfi_account.balances i) _ h₅ in
        let (repaid, e₇, h₇) = >>=-eq-ok (repay_some_or_all fx (as_u64 now) w amount all) _ h₆ in
        let (tokens', e₈, h₈) =
          >>=-eq-ok (pay fx env a taken.0 repaid.0.bank repaid.1 all tokens) _ h₇ in
        let (bank, e₉, h₉) = >>=-eq-ok (complete_repayments fx repaid.0.bank) _ h₈ in
        let (bank', e₁₀, h₁₀) =
          >>=-eq-ok (update_bank_cache fx now (program_fees_of a.group) bank) _ h₉ in
        subst (Repaid fx env now a amount all tokens) (ok-injective h₁₀) (
          repaid_by now a amount all tokens tokens' taken accrued i w repaid bank bank' e₀ e₁
            (enabled_by (Account.get_flag a.marginfi_account account_disabled) e₂) e₄ e₅ e₆ e₇ e₈ e₉
            e₁₀)
