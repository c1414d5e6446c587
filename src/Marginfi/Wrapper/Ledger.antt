-- ===== src/Marginfi/Wrapper/Ledger.antt =====
-- A bank with the balances that all accounts have in it. Accrual and the changes of one balance by an
-- amount (Wrapper/Amounts) are its steps. The operations that close a balance are none: they drop
-- what is left of its other side, which is below the tolerance, without taking it from the bank.
use bot_flash_loan.Prelude.{
  ℕ, zero, suc, ◌≡◌, sym, ap, ◌∙◌, List, [], ◌∷◌, some, ok, get_elem?, arith,
}
use mathlib.Core.Path.{subst}
use bot_flash_loan.Prelude.Int.{ℤ, pos, negsuc, ◌+ℤ◌, ◌-ℤ◌}
use bot_flash_loan.Marginfi.Fixed.{Fixed, FixedLaws, I80F48}
use bot_flash_loan.Marginfi.Account.{Balance}
use bot_flash_loan.Marginfi.Interest.Rates.{ProgramFees}
use bot_flash_loan.Marginfi.Bank.{Bank}
use bot_flash_loan.Marginfi.Bank.Accrual.{accrue_interest}
use bot_flash_loan.Marginfi.Bank.Once.{accrue_interest-Kept}
use bot_flash_loan.Marginfi.Wrapper.{BankAccountWrapper}
use bot_flash_loan.Marginfi.Wrapper.Amounts.{
  BalanceIncreaseType, BalanceDecreaseType, increase_balance_internal, decrease_balance_internal,
}
use bot_flash_loan.Marginfi.Wrapper.Slots.{set_balance}
use bot_flash_loan.Marginfi.Wrapper.Shares.{Conserved}
use bot_flash_loan.Marginfi.Wrapper.Conservation.{
  increase_balance_internal-Conserved, decrease_balance_internal-Conserved,
}

pub record Ledger : Type 0 where
  pub bank : Bank
  pub balances : List Balance

unfoldable pub sum_of : (Balance → ℤ) → List Balance → ℤ
sum_of f [] = pos 0
sum_of f (b ∷ bs) = f b +ℤ sum_of f bs

-- The totals of the bank are the sums over all balances.
pub record Backed (l : Ledger) : Type 0 where
  pub asset_shares : l.bank.total_asset_shares ≡ sum_of (λ b. b.asset_shares) l.balances
  pub liability_shares : l.bank.total_liability_shares ≡ sum_of (λ b. b.liability_shares) l.balances

pub data Moves (fx : Fixed) : BankAccountWrapper → BankAccountWrapper → Type 0 where
  increases :
      (now : ℕ) (w w' : BankAccountWrapper) (delta : I80F48) (kind : BalanceIncreaseType)
      → increase_balance_internal fx now w delta kind ≡ ok w'
      → Moves fx w w'
  decreases :
      (now : ℕ) (w w' : BankAccountWrapper) (delta : I80F48) (kind : BalanceDecreaseType)
      → decrease_balance_internal fx now w delta kind ≡ ok w'
      → Moves fx w w'

pub data Runs (fx : Fixed) : Ledger → Ledger → Type 0 where
  done : {l : Ledger} → Runs fx l l
  accrues :
      (now : ℤ) (group : ProgramFees) (bank : Bank) (l l' : Ledger)
      → accrue_interest fx now group l.bank ≡ ok bank
      → Runs fx (record l { bank = bank }) l'
      → Runs fx l l'
  moves :
      (i : ℕ) (b : Balance) (w : BankAccountWrapper) (l l' : Ledger)
      → get_elem? l.balances i ≡ some b
      → Moves fx (record { balance = b; bank = l.bank }) w
      → Runs fx (record { bank = w.bank; balances = set_balance l.balances i w.balance }) l'
      → Runs fx l l'

add_back : (x y s : ℤ) → (x +ℤ s) -ℤ x ≡ (y +ℤ s) -ℤ y
unfolding ◌+ℤ◌ ◌-ℤ◌
add_back x y s = ground arith

add_sub_assoc : (x s b : ℤ) → (x +ℤ s) -ℤ b ≡ x +ℤ (s -ℤ b)
unfolding ◌+ℤ◌ ◌-ℤ◌
add_sub_assoc x s b = ground arith

sub_add : (t b : ℤ) → (t -ℤ b) +ℤ b ≡ t
unfolding ◌+ℤ◌ ◌-ℤ◌
sub_add (pos t) b = ground arith
sub_add (negsuc t) b = ground arith

cancel : (t u b : ℤ) → t -ℤ b ≡ u -ℤ b → t ≡ u
cancel t u b h = sym (sub_add t b) ∙ ap (λ d. d +ℤ b) h ∙ sub_add u b

some_injective : {x y : Balance} → some x ≡ some y → x ≡ y
some_injective h = cc

set_balance-sum_of :
    (f : Balance → ℤ) (bs : List Balance) (i : ℕ) (b b' : Balance)
    → get_elem? bs i ≡ some b
    → sum_of f (set_balance bs i b') -ℤ f b' ≡ sum_of f bs -ℤ f b
unfolding sum_of set_balance
set_balance-sum_of f [] i b b' h = cc
set_balance-sum_of f (x ∷ bs) zero b b' h =
    subst (λ y. (f b' +ℤ sum_of f bs) -ℤ f b' ≡ (f x +ℤ sum_of f bs) -ℤ f y) (some_injective h)
      (add_back (f b') (f x) (sum_of f bs))
set_balance-sum_of f (x ∷ bs) (suc i) b b' h =
    add_sub_assoc (f x) (sum_of f (set_balance bs i b')) (f b')
    ∙ ap (λ d. f x +ℤ d) (set_balance-sum_of f bs i b b' h)
    ∙ sym (add_sub_assoc (f x) (sum_of f bs) (f b))

module _ (fx : Fixed) (laws : FixedLaws fx) where
  Moves-Conserved : {w w' : BankAccountWrapper} → Moves fx w w' → Conserved w w'
  Moves-Conserved (increases now w w' delta kind h) =
      increase_balance_internal-Conserved fx laws now w w' delta kind h
  Moves-Conserved (decreases now w w' delta kind h) =
      decrease_balance_internal-Conserved fx laws now w w' delta kind h

  -- A total that moves with one balance stays the sum.
  moved :
      (f : Balance → ℤ) (bs : List Balance) (i : ℕ) (b b' : Balance) (total total' : ℤ)
      → get_elem? bs i ≡ some b
      → total ≡ sum_of f bs
      → total' -ℤ f b' ≡ total -ℤ f b
      → total' ≡ sum_of f (set_balance bs i b')
  moved f bs i b b' total total' at_i e h =
      cancel total' (sum_of f (set_balance bs i b')) (f b')
        (h ∙ ap (λ t. t -ℤ f b) e ∙ sym (set_balance-sum_of f bs i b b' at_i))

  -- With exact sums of fixed-point numbers, interest accrual and increases and decreases of any
  -- balance, in any order, keep the bank's totals of asset and of liability shares the sums of the
  -- shares of all balances.
  pub Runs-Backed : (l l' : Ledger) → Backed l → Runs fx l l' → Backed l'
  Runs-Backed l l' v done = v
  Runs-Backed l l' v (accrues now group bank _ _ h rest) =
      let k = accrue_interest-Kept fx now group l.bank bank h in
      Runs-Backed (record l { bank = bank }) l'
        (record {
          asset_shares = k.same_asset_shares ∙ v.asset_shares;
          liability_shares = k.same_liability_shares ∙ v.liability_shares;
        })
        rest
  Runs-Backed l l' v (moves i b w _ _ at_i step rest) =
      let c = Moves-Conserved step in
      Runs-Backed (record { bank = w.bank; balances = set_balance l.balances i w.balance }) l'
        (record {
          asset_shares =
              moved (λ x. x.asset_shares) l.balances i b w.balance _ _ at_i v.asset_shares
                c.same_assets;
          liability_shares =
              moved (λ x. x.liability_shares) l.balances i b w.balance _ _ at_i v.liability_shares
                c.same_liabilities;
        })
        rest
