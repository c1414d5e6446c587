-- ===== src/Marginfi/Wrapper/Shares.antt =====
-- The shares of a balance and the totals of its bank move together: each step of the changes of
-- Wrapper/Amounts keeps what the other balances hold.
use bot_flash_loan.Prelude.{
  ℕ, ◌≡◌, refl, ◌∙◌, Bool, Option, none, some, ok, ok_or, >>=-eq-ok, ok-injective, arith, ltb,
  checked_sub, if◌then◌else◌,
}
use mathlib.Core.Path.{subst}
use mathlib.Core.Path.{subst}
use bot_flash_loan.Prelude.Int.{ℤ, ◌+ℤ◌, ◌-ℤ◌}
use bot_flash_loan.Marginfi.Fixed.{Fixed, FixedLaws, I80F48, min_fixed}
use bot_flash_loan.Marginfi.Account.{Failure}
use bot_flash_loan.Marginfi.Bank
use bot_flash_loan.Marginfi.Bank.{
  Bank, check_utilization_ratio, get_asset_amount, get_liability_amount, get_asset_shares,
  get_liability_shares, get_balance_decimals,
}
use bot_flash_loan.Marginfi.Wrapper.{
  BankAccountWrapper, change_asset_shares, change_liability_shares, claim_emissions, earn_if,
  earn_emissions, emissions_amount, calc_emissions, min_emissions_start_time,
}
use bot_flash_loan.Marginfi.Wrapper.Amounts.{
  shift_asset_shares, shift_liability_shares, recount, count_positions,
}

-- The shares of the bank that the other balances hold.
abbrev pub others_asset_shares : BankAccountWrapper → ℤ
others_asset_shares w = w.bank.total_asset_shares -ℤ w.balance.asset_shares

abbrev pub others_liability_shares : BankAccountWrapper → ℤ
others_liability_shares w = w.bank.total_liability_shares -ℤ w.balance.liability_shares

-- The two share values of the bank and the shares of the others stay as they were.
pub record Conserved (w w' : BankAccountWrapper) : Type 0 where
  pub same_assets : others_asset_shares w' ≡ others_asset_shares w
  pub same_liabilities : others_liability_shares w' ≡ others_liability_shares w
  pub same_asset_value : w'.bank.asset_share_value ≡ w.bank.asset_share_value
  pub same_liability_value : w'.bank.liability_share_value ≡ w.bank.liability_share_value

pub Conserved-trans : {a b c : BankAccountWrapper} → Conserved a b → Conserved b c → Conserved a c
Conserved-trans p q = record {
  same_assets = q.same_assets ∙ p.same_assets;
  same_liabilities = q.same_liabilities ∙ p.same_liabilities;
  same_asset_value = q.same_asset_value ∙ p.same_asset_value;
  same_liability_value = q.same_liability_value ∙ p.same_liability_value;
}

add_both : (t b d : ℤ) → (t +ℤ d) -ℤ (b +ℤ d) ≡ t -ℤ b
unfolding ◌+ℤ◌ ◌-ℤ◌
add_both t b d = ground arith

pub ok_or-eq-ok : (m : Option I80F48) (e : Failure) {a : I80F48} → ok_or m e ≡ ok a → m ≡ some a
ok_or-eq-ok (some x) e h = rw (ok-injective h)
ok_or-eq-ok none e h = cc

pub recount-Conserved :
    (fx : Fixed) (before w : BankAccountWrapper) → Conserved w (recount fx before w)
unfolding count_positions
recount-Conserved fx before w = record {
  same_assets = refl;
  same_liabilities = refl;
  same_asset_value = refl;
  same_liability_value = refl;
}

-- The wrapper with `s` shares more, in the balance and in the bank.
abbrev with_assets : BankAccountWrapper → I80F48 → BankAccountWrapper
with_assets w s = record {
  balance = record w.balance { asset_shares = w.balance.asset_shares +ℤ s };
  bank = record w.bank { total_asset_shares = w.bank.total_asset_shares +ℤ s };
}

abbrev with_liabilities : BankAccountWrapper → I80F48 → BankAccountWrapper
with_liabilities w s = record {
  balance = record w.balance { liability_shares = w.balance.liability_shares +ℤ s };
  bank = record w.bank { total_liability_shares = w.bank.total_liability_shares +ℤ s };
}

with_assets-Conserved : (w : BankAccountWrapper) (s : I80F48) → Conserved w (with_assets w s)
with_assets-Conserved w s = record {
  same_assets = add_both w.bank.total_asset_shares w.balance.asset_shares s;
  same_liabilities = refl;
  same_asset_value = refl;
  same_liability_value = refl;
}

with_liabilities-Conserved :
    (w : BankAccountWrapper) (s : I80F48) → Conserved w (with_liabilities w s)
with_liabilities-Conserved w s = record {
  same_assets = refl;
  same_liabilities = add_both w.bank.total_liability_shares w.balance.liability_shares s;
  same_asset_value = refl;
  same_liability_value = refl;
}

module _ (fx : Fixed) where
  earn_emissions-Conserved :
      (now : ℕ) (w : BankAccountWrapper) (amount : I80F48) {w' : BankAccountWrapper}
      → earn_emissions fx now w amount ≡ ok w'
      → Conserved w w'
  unfolding earn_emissions
  earn_emissions-Conserved now w amount h =
      let start =
        if ltb w.balance.last_update min_emissions_start_time then now else w.balance.last_update in
      let (period, _, h₁) = >>=-eq-ok (ok_or (checked_sub now start) _) _ h in
      let (emissions, _, h₂) =
        >>=-eq-ok
          (calc_emissions fx (fx.from_u64 period) amount (get_balance_decimals fx w.bank)
            (fx.from_u64 w.bank.emissions_rate))
          _ h₁ in
      let earned = min_fixed emissions w.bank.emissions_remaining in
      let (outstanding, _, h₃) =
        >>=-eq-ok (ok_or (fx.checked_add w.balance.emissions_outstanding earned) _) _ h₂ in
      let (remaining, _, h₄) =
        >>=-eq-ok (ok_or (fx.checked_sub w.bank.emissions_remaining earned) _) _ h₃ in
      subst (Conserved w) (ok-injective h₄) (record {
        same_assets = refl;
        same_liabilities = refl;
        same_asset_value = refl;
        same_liability_value = refl;
      })

  earn_if-Conserved :
      (now : ℕ) (w : BankAccountWrapper) (amount : Option I80F48) {w' : BankAccountWrapper}
      → earn_if fx now w amount ≡ ok w'
      → Conserved w w'
  unfolding earn_if
  earn_if-Conserved now w none h = subst (Conserved w) (ok-injective h) (record {
    same_assets = refl;
    same_liabilities = refl;
    same_asset_value = refl;
    same_liability_value = refl;
  })
  earn_if-Conserved now w (some amount) h = earn_emissions-Conserved now w amount h

  pub claim_emissions-Conserved :
      (now : ℕ) (w : BankAccountWrapper) {w' : BankAccountWrapper}
      → claim_emissions fx now w ≡ ok w'
      → Conserved w w'
  unfolding claim_emissions
  claim_emissions-Conserved now w h =
      let (amount, _, h₁) = >>=-eq-ok (emissions_amount fx w) _ h in
      let (earned, e, h₂) = >>=-eq-ok (earn_if fx now w amount) _ h₁ in
      let c = earn_if-Conserved now w amount e in
      subst (Conserved w) (ok-injective h₂) (record {
        same_assets = c.same_assets;
        same_liabilities = c.same_liabilities;
        same_asset_value = c.same_asset_value;
        same_liability_value = c.same_liability_value;
      })

module _ (fx : Fixed) (laws : FixedLaws fx) where
  pub bank-change_asset_shares :
      (b : Bank) (s : I80F48) (bypass : Bool) {b' : Bank}
      → Bank.change_asset_shares fx b s bypass ≡ ok b'
      → b' ≡ record b { total_asset_shares = b.total_asset_shares +ℤ s }
  unfolding Bank.change_asset_shares
  bank-change_asset_shares b s bypass h =
      let (t, sum, h₁) = >>=-eq-ok (ok_or (fx.checked_add b.total_asset_shares s) _) _ h in
      let (_, _, h₂) = >>=-eq-ok (Bank.check_deposit_limit fx _ s bypass) _ h₁ in
      let e = ok-injective h₂ in let exact = laws.add_exact _ _ t (ok_or-eq-ok _ _ sum) in cc

  pub bank-change_liability_shares :
      (b : Bank) (s : I80F48) (bypass : Bool) {b' : Bank}
      → Bank.change_liability_shares fx b s bypass ≡ ok b'
      → b' ≡ record b { total_liability_shares = b.total_liability_shares +ℤ s }
  unfolding Bank.change_liability_shares
  bank-change_liability_shares b s bypass h =
      let (t, sum, h₁) = >>=-eq-ok (ok_or (fx.checked_add b.total_liability_shares s) _) _ h in
      let (_, _, h₂) = >>=-eq-ok (Bank.check_borrow_limit fx _ s bypass) _ h₁ in
      let e = ok-injective h₂ in let exact = laws.add_exact _ _ t (ok_or-eq-ok _ _ sum) in cc

  shift_asset_shares-with :
      (w : BankAccountWrapper) (s : I80F48) (bypass : Bool) {w' : BankAccountWrapper}
      → shift_asset_shares fx w s bypass ≡ ok w'
      → with_assets w s ≡ w'
  unfolding shift_asset_shares change_asset_shares
  shift_asset_shares-with w s bypass h =
      let (b, hb, h₁) = >>=-eq-ok (change_asset_shares fx w.balance s) _ h in
      let (t, sum, h₂) = >>=-eq-ok (ok_or (fx.checked_add w.balance.asset_shares s) _) _ hb in
      let (k, hk, h₃) = >>=-eq-ok (Bank.change_asset_shares fx w.bank s bypass) _ h₁ in
      let exact = laws.add_exact _ _ t (ok_or-eq-ok _ _ sum) in
      let balance = ok-injective h₂ in
      let bank = bank-change_asset_shares w.bank s bypass hk in let whole = ok-injective h₃ in cc

  pub shift_asset_shares-Conserved :
      (w : BankAccountWrapper) (s : I80F48) (bypass : Bool) {w' : BankAccountWrapper}
      → shift_asset_shares fx w s bypass ≡ ok w'
      → Conserved w w'
  shift_asset_shares-Conserved w s bypass h =
      subst (Conserved w) (shift_asset_shares-with w s bypass h) (with_assets-Conserved w s)

  shift_liability_shares-with :
      (w : BankAccountWrapper) (s : I80F48) (bypass : Bool) {w' : BankAccountWrapper}
      → shift_liability_shares fx w s bypass ≡ ok w'
      → with_liabilities w s ≡ w'
  unfolding shift_liability_shares change_liability_shares
  shift_liability_shares-with w s bypass h =
      let (b, hb, h₁) = >>=-eq-ok (change_liability_shares fx w.balance s) _ h in
      let (t, sum, h₂) = >>=-eq-ok (ok_or (fx.checked_add w.balance.liability_shares s) _) _ hb in
      let (k, hk, h₃) = >>=-eq-ok (Bank.change_liability_shares fx w.bank s bypass) _ h₁ in
      let exact = laws.add_exact _ _ t (ok_or-eq-ok _ _ sum) in
      let balance = ok-injective h₂ in
      let bank = bank-change_liability_shares w.bank s bypass hk in
      let whole = ok-injective h₃ in cc

  pub shift_liability_shares-Conserved :
      (w : BankAccountWrapper) (s : I80F48) (bypass : Bool) {w' : BankAccountWrapper}
      → shift_liability_shares fx w s bypass ≡ ok w'
      → Conserved w w'
  shift_liability_shares-Conserved w s bypass h =
      subst (Conserved w) (shift_liability_shares-with w s bypass h)
        (with_liabilities-Conserved w s)
