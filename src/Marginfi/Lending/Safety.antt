-- ===== src/Marginfi/Lending/Safety.antt =====
-- What a borrow (Lending/Borrow) that succeeds has made sure of.
use mathlib.Core.Path.{subst}
use bot_flash_loan.Prelude.{
  ℕ, ◌≡◌, refl, sym, ap, Bool, true, false, not, ◌&&◌, List, Option, ok, check, ok-injective,
  >>=-eq-ok, arith,
}
use bot_flash_loan.Prelude.Int.{ℤ}
use bot_flash_loan.Prelude.Machine.{as_u64}
use bot_flash_loan.Solana.{AccountInfo}
use bot_flash_loan.Marginfi.Error.{MarginfiError}
use bot_flash_loan.Marginfi.Fixed.{Fixed, FixedLaws, I80F48}
use bot_flash_loan.Marginfi.Account
use bot_flash_loan.Marginfi.Account.{
  Failure, marginfi, panic, MarginfiAccount, Balance, account_disabled, account_in_receivership,
  is_signer_authorized,
}
use bot_flash_loan.Marginfi.Risk.{check_account_init_health}
use bot_flash_loan.Marginfi.Bank
use bot_flash_loan.Marginfi.Bank.{Bank, get_asset_amount, get_liability_amount}
use bot_flash_loan.Marginfi.Bank.Accrual.{accrue_interest, update_bank_cache, update_cache_price}
use bot_flash_loan.Marginfi.Wrapper.{BankAccountWrapper}
use bot_flash_loan.Marginfi.Wrapper.Conservation.{Solvent}
use bot_flash_loan.Marginfi.Wrapper.Slots.{find_or_create, set_balance}
use bot_flash_loan.Marginfi.Policy.{
  validate_asset_tags, validate_bank_state, fails_if_paused_or_reduce_state,
}
use bot_flash_loan.Marginfi.Group.{program_fees_of}
use bot_flash_loan.Marginfi.Lending.{
  Accounts, Outside, try_lending_accounts, tokenless_repayments_allowed, wrap, pre_fee,
  sort_balances,
}
use bot_flash_loan.Marginfi.Lending.Changed.{Changed, changed}
use bot_flash_loan.Marginfi.Lending.Owed.{Owes, borrow_with_fee-Owes, authorized_by, vault_by}
use bot_flash_loan.Marginfi.Lending.Totals.{
  SameTotals, SameTotals-trans, SameTotals-Solvent, shared, cached, priced, borrow_with_fee-Solvent,
}
use bot_flash_loan.Marginfi.Lending.Borrow.{
  borrow_with_fee, event_amount, share_fee, settle_borrow, lending_account_borrow,
}

-- A successful borrow: who asked for it, what was sent, and the state of the account and the bank
-- after it.
pub record Borrowed {M W : Type 0} (fx : Fixed) (env : Outside M W) (now : ℤ) (a : Accounts)
    (amount : ℕ) (tokens : W) (result : MarginfiAccount × Bank × W) : Type 0 where
  pub authorized : is_signer_authorized a.marginfi_account a.group.admin a.authority false ≡ true
  pub enabled : Account.get_flag a.marginfi_account account_disabled ≡ false
  pub mint : Option M
  pub remaining : List AccountInfo
  pub taken : env.maybe_take_bank_mint a.bank a.remaining_accounts ≡ ok (mint, remaining)
  pub sent : ℕ
  pub sent_is : pre_fee env mint amount ≡ ok sent
  pub vault_is : a.vault ≡ a.bank.liquidity_vault
  pub paid : env.transfer a.vault a.wallet sent tokens ≡ ok result.2
  pub accrued : Bank
  pub accrued_is : accrue_interest fx now (program_fees_of a.group) a.bank ≡ ok accrued
  pub balances : List Balance
  pub bank : Bank
  pub owes :
      Changed
        (find_or_create (as_u64 now) a.bank_key accrued a.marginfi_account.balances)
        (Owes fx (as_u64 now) sent)
        accrued
        balances
        bank
  pub stored : result.0.balances ≡ sort_balances balances
  pub totals : SameTotals bank result.1
  pub healthy : check_account_init_health fx env.load result.0 remaining ≡ ok tt
  pub solvent : Solvent fx result.1

enabled_by :
    (p q : Bool)
    → check (not p && not q) (marginfi MarginfiError.account_disabled) ≡ ok tt
    → p ≡ false
enabled_by p q h = ground (arith, h)

module _ (fx : Fixed) (laws : FixedLaws fx) {M W : Type 0} (env : Outside M W) where
  -- What the steps after the change of the balance have found.
  record SettledBorrow (now : ℤ) (a : Accounts) (remaining : List AccountInfo)
      (place : ℕ × List Balance) (sent : ℕ) (borrowed : BankAccountWrapper × I80F48) (tokens : W)
      (result : MarginfiAccount × Bank × W) : Type 0 where
    account_is : result.0 ≡ record a.marginfi_account {
      balances = sort_balances (set_balance place.1 place.0 borrowed.0.balance);
      last_update = as_u64 now;
    }
    paid : env.transfer a.vault a.wallet sent tokens ≡ ok result.2
    bank : Bank
    shared_is :
        share_fee fx borrowed.1 a.group.fee_state_cache.program_fee_rate borrowed.0.bank ≡ ok bank
    healthy : check_account_init_health fx env.load result.0 remaining ≡ ok tt
    bank' : Bank
    cached_is : update_bank_cache fx now (program_fees_of a.group) bank ≡ ok bank'
    bank_is : result.1 ≡ update_cache_price now (env.price result.0 remaining a.bank_key) bank'

  settle_borrow-SettledBorrow :
      (now : ℤ) (a : Accounts) (remaining : List AccountInfo) (place : ℕ × List Balance) (sent : ℕ)
      (borrowed : BankAccountWrapper × I80F48) (tokens : W) (result : MarginfiAccount × Bank × W)
      → settle_borrow fx env now a remaining place sent borrowed tokens ≡ ok result
      → SettledBorrow now a remaining place sent borrowed tokens result
  unfolding settle_borrow
  settle_borrow-SettledBorrow now a remaining place sent borrowed tokens result h =
      let (tokens', e₁₁, h₁₁) = >>=-eq-ok (env.transfer a.vault a.wallet sent tokens) _ h in
      let (_, _, hₑ) = >>=-eq-ok (event_amount fx sent borrowed.1) _ h₁₁ in
      let (bank, e₁₂, h₁₂) =
        >>=-eq-ok (share_fee fx borrowed.1 a.group.fee_state_cache.program_fee_rate borrowed.0.bank)
          _ hₑ in
      let account : MarginfiAccount = record a.marginfi_account {
        balances = sort_balances (set_balance place.1 place.0 borrowed.0.balance);
        last_update = as_u64 now;
      } in
      let (_, e₁₃, h₁₃) =
        >>=-eq-ok (check_account_init_health fx env.load account remaining) _ h₁₂ in
      let (bank', e₁₄, h₁₄) =
        >>=-eq-ok (update_bank_cache fx now (program_fees_of a.group) bank) _ h₁₃ in
      subst (SettledBorrow now a remaining place sent borrowed tokens) (ok-injective h₁₄) (record {
        account_is = refl;
        paid = e₁₁;
        bank = bank;
        shared_is = e₁₂;
        healthy = e₁₃;
        bank' = bank';
        cached_is = e₁₄;
        bank_is = refl;
      })

  -- The outcome, from what the steps of the handler have found.
  Borrowed-by :
      (now : ℤ) (a : Accounts) (amount sent : ℕ) (tokens : W) (taken : Option M × List AccountInfo)
      (accrued : Bank) (place : ℕ × List Balance) (w : BankAccountWrapper)
      (borrowed : BankAccountWrapper × I80F48) (result : MarginfiAccount × Bank × W)
      → try_lending_accounts now a false ≡ ok tt
      → check
          (not (Account.get_flag a.marginfi_account account_disabled)
            && not (Account.get_flag a.marginfi_account account_in_receivership))
          (marginfi MarginfiError.account_disabled)
        ≡ ok tt
      → env.maybe_take_bank_mint a.bank a.remaining_accounts ≡ ok taken
      → accrue_interest fx now (program_fees_of a.group) a.bank ≡ ok accrued
      → find_or_create (as_u64 now) a.bank_key accrued a.marginfi_account.balances ≡ ok place
      → wrap accrued place.1 place.0 ≡ ok w
      → pre_fee env taken.0 amount ≡ ok sent
      → borrow_with_fee fx (as_u64 now) w sent ≡ ok borrowed
      → SettledBorrow now a taken.1 place sent borrowed tokens result
      → Borrowed fx env now a amount tokens result
  Borrowed-by now a amount sent tokens taken accrued place w borrowed result e₀ e₃ e₂ e₄ e₇ e₈ e₉
        e₁₀ s =
      record {
        authorized = authorized_by now a false e₀;
        enabled =
            enabled_by (Account.get_flag a.marginfi_account account_disabled)
              (Account.get_flag a.marginfi_account account_in_receivership) e₃;
        mint = taken.0;
        remaining = taken.1;
        taken = e₂;
        sent = sent;
        sent_is = e₉;
        vault_is = vault_by now a false e₀;
        paid = s.paid;
        accrued = accrued;
        accrued_is = e₄;
        balances = set_balance place.1 place.0 borrowed.0.balance;
        bank = borrowed.0.bank;
        owes =
            changed (Owes fx (as_u64 now) sent) accrued place w borrowed.0 e₇ e₈
              (borrow_with_fee-Owes fx (as_u64 now) w sent borrowed e₁₀);
        stored = ap (λ x. x.balances) s.account_is;
        totals = subst (SameTotals borrowed.0.bank) (sym s.bank_is) (kept s);
        healthy = s.healthy;
        solvent =
            SameTotals-Solvent fx borrowed.0.bank result.1
              (subst (SameTotals borrowed.0.bank) (sym s.bank_is) (kept s))
              (borrow_with_fee-Solvent fx laws (as_u64 now) w borrowed.0 sent borrowed.1 e₁₀);
      }
    where
      kept :
          (s : SettledBorrow now a taken.1 place sent borrowed tokens result)
          → SameTotals borrowed.0.bank
              (update_cache_price now (env.price result.0 taken.1 a.bank_key) s.bank')
      kept s =
          SameTotals-trans
            (shared fx borrowed.1 a.group.fee_state_cache.program_fee_rate borrowed.0.bank s.bank
              s.shared_is)
            (SameTotals-trans (cached fx now (program_fees_of a.group) s.bank s.bank' s.cached_is)
              (priced fx now (env.price result.0 taken.1 a.bank_key) s.bank'))

  -- A borrow that succeeds (with exact sums of fixed-point numbers) was signed by who may act for
  -- the account, which was not disabled. It sent the amount, with the mint's transfer fee on top,
  -- from the bank's liquidity vault to the wallet. The account's balance at the bank, found or
  -- created and with interest accrued until now, has borrowed what was sent and the origination fee on
  -- it; it is stored in the account, and the bank has the shares that the borrow left it. The account
  -- as it is after the borrow passes the initial
  -- health check, which accepts any account that is in a flash loan, and the bank's assets cover its
  -- liabilities.
  pub lending_account_borrow-Borrowed :
      (now : ℤ) (a : Accounts) (amount : ℕ) (tokens : W) (result : MarginfiAccount × Bank × W)
      → lending_account_borrow fx env now a amount tokens ≡ ok result
      → Borrowed fx env now a amount tokens result
  unfolding lending_account_borrow
  lending_account_borrow-Borrowed now a amount tokens result h =
      let (_, e₀, h₀) = >>=-eq-ok (try_lending_accounts now a false) _ h in
      let (_, _, h₁) =
        >>=-eq-ok
          (check (not (Bank.get_flag a.bank tokenless_repayments_allowed))
            (marginfi MarginfiError.forbidden_ix))
          _ h₀ in
      let (taken, e₂, h₂) = >>=-eq-ok (env.maybe_take_bank_mint a.bank a.remaining_accounts) _ h₁ in
      let (_, e₃, h₃) =
        >>=-eq-ok
          (check
            (not (Account.get_flag a.marginfi_account account_disabled)
              && not (Account.get_flag a.marginfi_account account_in_receivership))
            (marginfi MarginfiError.account_disabled))
          _ h₂ in
      let (accrued, e₄, h₄) =
        >>=-eq-ok (accrue_interest fx now (program_fees_of a.group) a.bank) _ h₃ in
      let (_, _, h₅) = >>=-eq-ok (validate_asset_tags accrued a.marginfi_account.balances) _ h₄ in
      let (_, _, h₆) =
        >>=-eq-ok (validate_bank_state accrued fails_if_paused_or_reduce_state) _ h₅ in
      let (place, e₇, h₇) =
        >>=-eq-ok (find_or_create (as_u64 now) a.bank_key accrued a.marginfi_account.balances) _
          h₆ in
      let (w, e₈, h₈) = >>=-eq-ok (wrap accrued place.1 place.0) _ h₇ in
      let (sent, e₉, h₉) = >>=-eq-ok (pre_fee env taken.0 amount) _ h₈ in
      let (borrowed, e₁₀, h₁₀) = >>=-eq-ok (borrow_with_fee fx (as_u64 now) w sent) _ h₉ in
      Borrowed-by now a amount sent tokens taken accrued place w borrowed result e₀ e₃ e₂ e₄ e₇ e₈
        e₉ e₁₀ (settle_borrow-SettledBorrow now a taken.1 place sent borrowed tokens result h₁₀)
