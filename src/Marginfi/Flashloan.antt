-- ===== src/Marginfi/Flashloan.antt =====
-- Start and end of a flash loan:
-- marginfi-v2/programs/marginfi/src/instructions/marginfi_account/flashloan.rs. An account is loaded
-- by its address, so the handlers take the address and the content.
pub mod Checks
pub mod Safety
use bot_flash_loan.Prelude.{
  ℕ, Bool, not, Option, none, some, List, [], ◌∷◌, Result, ok, err, check, ok_or, ◌>>=◌, ◌>>◌, ◌==◌,
  ltb, get_elem?,
}
use bot_flash_loan.Word.{Bytes, eq_bytes}
use bot_flash_loan.Solana.{AccountInfo, AccountMeta, Instruction, Pubkey}
use bot_flash_loan.Marginfi.Error.{MarginfiError}
use bot_flash_loan.Marginfi.Fixed.{Fixed}
use bot_flash_loan.Marginfi.Account.{
  MarginfiAccount, Failure, marginfi, get_flag, set_flag, unset_flag, account_disabled,
  account_in_flashloan, account_in_receivership, account_frozen,
}
use bot_flash_loan.Marginfi.Sysvar.{
  TxContext, load_instruction_at, discriminator, validate_not_cpi_with_sysvar,
  validate_not_cpi_by_stack_height,
}
use bot_flash_loan.Marginfi.Risk.{BankAccountWithPrice, check_account_init_health}

abbrev pub end_flashloan : Bytes
end_flashloan = 105 ∷ 124 ∷ 201 ∷ 106 ∷ 153 ∷ 2 ∷ 8 ∷ 156 ∷ []

abbrev pub start_flashloan : Bytes
start_flashloan = 14 ∷ 131 ∷ 33 ∷ 220 ∷ 81 ∷ 186 ∷ 180 ∷ 107 ∷ []

abbrev pub end_fl_ix_marginfi_account_ai_idx : ℕ
end_fl_ix_marginfi_account_ai_idx = 0

abbrev pub illegal_flashloan : Failure
illegal_flashloan = marginfi MarginfiError.illegal_flashloan

module _ (program_id : Pubkey) (tx : TxContext) where
  unfoldable pub check_flashloan_can_start :
      Pubkey → MarginfiAccount → ℕ → Result Failure (Unit {0})
  unfolding validate_not_cpi_with_sysvar validate_not_cpi_by_stack_height get_flag
  check_flashloan_can_start key a end_fl_idx = do
    current_ix_idx ← validate_not_cpi_with_sysvar program_id tx
    check (ltb current_ix_idx end_fl_idx) illegal_flashloan
    validate_not_cpi_by_stack_height tx
    end_fl_ix ← load_instruction_at tx end_fl_idx
    discrim ← discriminator end_fl_ix
    check (eq_bytes discrim end_flashloan) illegal_flashloan
    check (end_fl_ix.program_id == program_id) illegal_flashloan
    end_fl_account ←
        ok_or (get_elem? end_fl_ix.accounts end_fl_ix_marginfi_account_ai_idx) illegal_flashloan
    check (end_fl_account.pubkey == key) illegal_flashloan
    check (not (get_flag a account_disabled)) (marginfi MarginfiError.account_disabled)
    check (not (get_flag a account_in_flashloan)) illegal_flashloan
    check (not (get_flag a account_in_receivership)) (marginfi MarginfiError.forbidden_ix)
    check (not (get_flag a account_frozen)) (marginfi MarginfiError.account_frozen)

  -- `has_one = authority` is checked before the handler runs. `authority` is the key of a `Signer`:
  -- that it has signed is taken as checked, here and at the end.
  unfoldable pub lending_account_start_flashloan :
      Pubkey → Pubkey → MarginfiAccount → ℕ → Result Failure MarginfiAccount
  lending_account_start_flashloan authority key a end_index = do
    check (a.authority == authority) (marginfi MarginfiError.unauthorized)
    check_flashloan_can_start key a end_index
    ok (set_flag a account_in_flashloan)

module _ (fx : Fixed)
    (load : MarginfiAccount → List AccountInfo → Result Failure (List BankAccountWithPrice))
    (tx : TxContext) where
  unfoldable pub lending_account_end_flashloan :
      Pubkey → MarginfiAccount → List AccountInfo → Result Failure MarginfiAccount
  lending_account_end_flashloan authority a remaining = do
    check (a.authority == authority) (marginfi MarginfiError.unauthorized)
    validate_not_cpi_by_stack_height tx
    check (not (get_flag a account_disabled)) (marginfi MarginfiError.account_disabled)
    check (not (get_flag a account_in_receivership)) (marginfi MarginfiError.forbidden_ix)
    check (not (get_flag a account_frozen)) (marginfi MarginfiError.account_frozen)
    check_account_init_health fx load (unset_flag a account_in_flashloan) remaining
    ok (unset_flag a account_in_flashloan)
