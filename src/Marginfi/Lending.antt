-- ===== src/Marginfi/Lending.antt =====
-- What MarginFi's handlers of user instructions share: the accounts of
-- marginfi-v2/programs/marginfi/src/instructions/marginfi_account/ with Anchor's constraints on them,
-- and the outside world as a parameter.
pub mod Borrow
pub mod Repay
pub mod Sort
pub mod Pausing
pub mod Paying
pub mod Deposit
pub mod Depositing
pub mod Totals
pub mod Changed
pub mod Owed
pub mod Safety
use bot_flash_loan.Prelude.{
  ℕ, Bool, true, false, not, ◌&&◌, ◌||◌, List, [], ◌∷◌, Option, none, some, Result, ok, err, check,
  ok_or, ◌>>=◌, ◌>>◌, ◌==◌, ltb, get_elem?, if◌then◌else◌,
}
use bot_flash_loan.Prelude.Bits.{mask}
use bot_flash_loan.Prelude.Int.{ℤ}
use bot_flash_loan.Solana.{AccountInfo, Pubkey}
use bot_flash_loan.Marginfi.Error.{MarginfiError}
use bot_flash_loan.Marginfi.Fixed.{I80F48}
use bot_flash_loan.Marginfi.Account.{
  Failure, marginfi, panic, MarginfiAccount, Balance, is_signer_authorized,
  account_not_frozen_for_authority,
}
use bot_flash_loan.Marginfi.Risk.{BankAccountWithPrice}
use bot_flash_loan.Marginfi.Group.{MarginfiGroup, is_protocol_paused}
use bot_flash_loan.Marginfi.Bank.{Bank}
use bot_flash_loan.Marginfi.Wrapper.{BankAccountWrapper}
use bot_flash_loan.Marginfi.Wrapper.Slots.{set_balance}

-- The accounts of an instruction, by value, with the addresses that are compared, as Anchor has
-- deserialized them: `authority` is the key of a `Signer`, and the types of the accounts and the
-- `seeds` of the vault's authority are taken as checked. `vault` is the liquidity vault, `wallet`
-- the user's token account.
pub record Accounts : Type 0 where
  pub group_key : Pubkey
  pub group : MarginfiGroup
  pub marginfi_account : MarginfiAccount
  pub authority : Pubkey
  pub bank_key : Pubkey
  pub bank : Bank
  pub vault : Pubkey
  pub wallet : Pubkey
  pub remaining_accounts : List AccountInfo

-- What is not part of the program: mints with transfer fees, the token program with the token
-- accounts `W` that it keeps, and oracles. `transfer` moves an amount between two token accounts,
-- `load` is that of the risk engine, and `price` is the price it has for a bank.
pub record Outside (M W : Type 0) : Type 0 where
  pub maybe_take_bank_mint : Bank → List AccountInfo → Result Failure (Option M × List AccountInfo)
  pub calculate_pre_fee : M → ℕ → Result Failure ℕ
  pub transfer : Pubkey → Pubkey → ℕ → W → Result Failure W
  pub load : MarginfiAccount → List AccountInfo → Result Failure (List BankAccountWithPrice)
  pub price : MarginfiAccount → List AccountInfo → Pubkey → Option (I80F48 × I80F48)

abbrev pub tokenless_repayments_allowed : ℕ
tokenless_repayments_allowed = mask 5

abbrev pub tokenless_repayments_complete : ℕ
tokenless_repayments_complete = mask 6

abbrev pub is_marginfi_asset_tag : ℕ → Bool
is_marginfi_asset_tag tag = tag == 0 || tag == 1 || tag == 2

-- The constraints that the account structs have in common.
unfoldable pub try_lending_accounts : ℤ → Accounts → Bool → Result Failure (Unit {0})
try_lending_accounts now a allow_receivership = do
  protocol_paused ← is_protocol_paused a.group now
  check (not protocol_paused) (marginfi MarginfiError.protocol_paused)
  check (a.marginfi_account.group == a.group_key) (marginfi MarginfiError.invalid_group)
  check (account_not_frozen_for_authority a.marginfi_account a.authority)
      (marginfi MarginfiError.account_frozen)
  check (is_signer_authorized a.marginfi_account a.group.admin a.authority allow_receivership)
      (marginfi MarginfiError.unauthorized)
  check (a.bank.group == a.group_key) (marginfi MarginfiError.invalid_group)
  check (a.bank.liquidity_vault == a.vault) (marginfi MarginfiError.invalid_liquidity_vault)
  check (is_marginfi_asset_tag a.bank.config.asset_tag)
      (marginfi MarginfiError.wrong_asset_tag_for_standard_instructions)

-- The mutable reference to the balance at an index, with its bank. An index that is out of range
-- would panic.
unfoldable pub wrap : Bank → List Balance → ℕ → Result Failure BankAccountWrapper
wrap bank balances i =
    ok_or (get_elem? balances i) panic >>= (λ b. ok (record { balance = b; bank = bank }))

-- The fee that the mint of the bank takes is sent on top.
unfoldable pub pre_fee : {M W : Type 0} → Outside M W → Option M → ℕ → Result Failure ℕ
pre_fee env none amount = ok amount
pre_fee env (some mint) amount = env.calculate_pre_fee mint amount

-- `sort_balances` sorts stably, the greatest bank key first. A key's number reads its bytes from the
-- most significant one, so its order is the one of the bytes.
unfoldable pub insert : Balance → List Balance → List Balance
insert b [] = b ∷ []
insert b (c ∷ cs) =
    let later = insert b cs in if ltb b.bank_pk c.bank_pk then c ∷ later else b ∷ c ∷ cs

unfoldable pub sort_balances : List Balance → List Balance
sort_balances [] = []
sort_balances (b ∷ bs) = insert b (sort_balances bs)
