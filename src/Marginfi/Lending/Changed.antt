-- ===== src/Marginfi/Lending/Changed.antt =====
-- One change of a balance and of its bank, in place: what the handlers do through `wrap`
-- (Lending), described by its outcome.
use mathlib.Core.Path.{subst}
use bot_flash_loan.Prelude.{
  ℕ, ◌≡◌, refl, sym, List, some, Result, ok, ok_or, ◌>>=◌, ok-injective, >>=-eq-ok, get_elem?,
}
use bot_flash_loan.Solana.{Pubkey}
use bot_flash_loan.Marginfi.Account.{Failure, panic, Balance}
use bot_flash_loan.Marginfi.Bank.{Bank}
use bot_flash_loan.Marginfi.Interest.Growth.{ok_or-eq-ok}
use bot_flash_loan.Marginfi.Wrapper.{BankAccountWrapper}
use bot_flash_loan.Marginfi.Wrapper.Slots.{find, set_balance}
use bot_flash_loan.Marginfi.Lending.{wrap}

-- The balance at `slot`, with the bank as it was, has made a change, and the balances and the bank
-- after it are those: the changed balance stands where the old one stood.
pub record Changed (slot : Result Failure (ℕ × List Balance))
    (Change : BankAccountWrapper → BankAccountWrapper → Type 0) (bank : Bank)
    (balances : List Balance) (bank' : Bank) : Type 0 where
  pub place : ℕ × List Balance
  pub place_is : slot ≡ ok place
  pub balance : Balance
  pub balance_is : get_elem? place.1 place.0 ≡ some balance
  pub after : BankAccountWrapper
  pub change : Change (record { balance = balance; bank = bank }) after
  pub balances_are : balances ≡ set_balance place.1 place.0 after.balance
  pub bank_is : bank' ≡ after.bank

-- The place of a balance that is there already.
abbrev pub found : Pubkey → List Balance → Result Failure (ℕ × List Balance)
found bank_pk bs = find bank_pk bs >>= (λ i. ok (i, bs))

pub found-eq-ok :
    (bank_pk : Pubkey) (bs : List Balance) (i : ℕ)
    → find bank_pk bs ≡ ok i
    → found bank_pk bs ≡ ok (i, bs)
found-eq-ok bank_pk bs i h = rw (h) refl

pub changed :
    {slot : Result Failure (ℕ × List Balance)}
    (Change : BankAccountWrapper → BankAccountWrapper → Type 0) (bank : Bank)
    (place : ℕ × List Balance) (w w' : BankAccountWrapper)
    → slot ≡ ok place
    → wrap bank place.1 place.0 ≡ ok w
    → Change w w'
    → Changed slot Change bank (set_balance place.1 place.0 w'.balance) w'.bank
unfolding wrap
changed Change bank place w w' e h c =
    let (x, at_place, h₁) = >>=-eq-ok (ok_or (get_elem? place.1 place.0) panic) _ h in
    record {
      place = place;
      place_is = e;
      balance = x;
      balance_is = ok_or-eq-ok _ panic at_place;
      after = w';
      change = subst (λ w. Change w w') (sym (ok-injective h₁)) c;
      balances_are = refl;
      bank_is = refl;
    }
