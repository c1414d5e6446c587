-- ===== src/Marginfi/Wrapper/Slots.antt =====
-- Which of an account's sixteen balances a bank has: `find`, `find_or_create` and
-- `get_first_empty_balance` of marginfi-v2/programs/marginfi/src/state/marginfi_account.rs. A mutable
-- reference to a balance is its index.
pub mod Lookup
use bot_flash_loan.Prelude.{
  ℕ, zero, suc, ◌+◌, Bool, not, ◌&&◌, ◌||◌, Option, none, some, List, [], ◌∷◌, Result, ok, err,
  check, ok_or, ◌>>=◌, ◌>>◌, ◌==◌, ltb, if◌then◌else◌,
}
use bot_flash_loan.Solana.{Pubkey}
use bot_flash_loan.Marginfi.Error.{MarginfiError}
use bot_flash_loan.Marginfi.Fixed.{zero_fixed}
use bot_flash_loan.Marginfi.Account.{Failure, marginfi, Balance, is_active}
use bot_flash_loan.Marginfi.Bank.{Bank}

abbrev pub max_integration_positions : ℕ
max_integration_positions = 8

-- Kamino, Drift and Solend.
abbrev pub is_integration_asset_tag : ℕ → Bool
is_integration_asset_tag tag = tag == 3 || tag == 4 || tag == 5

unfoldable pub position : (Balance → Bool) → List Balance → Option ℕ
position p [] = none
position p (b ∷ bs) =
    let rest = position p bs in
    if p b then some 0 else elim rest [ none ↦ none | some i ↦ some (i + 1) ]

unfoldable pub count : (Balance → Bool) → List Balance → ℕ
count p [] = 0
count p (b ∷ bs) = let rest = count p bs in if p b then rest + 1 else rest

-- `balances[index] = balance`
unfoldable pub set_balance : List Balance → ℕ → Balance → List Balance
set_balance [] i x = []
set_balance (b ∷ bs) zero x = x ∷ bs
set_balance (b ∷ bs) (suc i) x = b ∷ set_balance bs i x

abbrev pub is_of : Pubkey → Balance → Bool
is_of bank_pk b = is_active b && b.bank_pk == bank_pk

abbrev pub is_integration : Balance → Bool
is_integration b = is_active b && is_integration_asset_tag b.bank_asset_tag

unfoldable pub get_first_empty_balance : List Balance → Option ℕ
unfolding position
get_first_empty_balance = position (λ b. not (is_active b))

unfoldable pub find : Pubkey → List Balance → Result Failure ℕ
unfolding position
find bank_pk bs =
    ok_or (position (is_of bank_pk) bs) (marginfi MarginfiError.bank_account_not_found)

abbrev pub created : ℕ → Pubkey → Bank → Balance
created now bank_pk bank = record {
  active = 1;
  bank_pk = bank_pk;
  bank_asset_tag = bank.config.asset_tag;
  asset_shares = zero_fixed;
  liability_shares = zero_fixed;
  emissions_outstanding = zero_fixed;
  last_update = now;
}

unfoldable pub create : ℕ → Pubkey → Bank → List Balance → Result Failure (ℕ × List Balance)
create now bank_pk bank bs = do
  check
      (not (is_integration_asset_tag bank.config.asset_tag)
        || ltb (count is_integration bs) max_integration_positions)
      (marginfi MarginfiError.integration_position_limit_exceeded)
  empty_index ←
      ok_or (get_first_empty_balance bs) (marginfi MarginfiError.lending_account_balance_slots_full)
  ok (empty_index, set_balance bs empty_index (created now bank_pk bank))

unfoldable pub find_or_create : ℕ → Pubkey → Bank → List Balance → Result Failure (ℕ × List Balance)
find_or_create now bank_pk bank bs = elim (position (is_of bank_pk) bs) [
  | some i ↦ ok (i, bs)
  | none ↦ create now bank_pk bank bs
]
