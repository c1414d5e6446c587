-- ===== src/Bot/Marginfi.antt =====
-- The calls into MarginFi of programs/flash_loan_bot/src/lib.rs: start and end of the flash loan,
-- borrow and repay. Each handler builds one instruction by hand and invokes it.
use bot_flash_loan.Prelude.{ℕ, Bool, true, false, List, [], ◌∷◌, ◌++◌, Result, if◌then◌else◌}
use bot_flash_loan.Word.{Bytes, u64_le}
use bot_flash_loan.Solana.{
  AccountInfo, AccountMeta, Instruction, Runtime, writable_meta, readonly_meta,
}
use bot_flash_loan.Bot.Error.{ProgramError}
use bot_flash_loan.Bot.Accounts.{MarginfiFlashloanBounds, MarginfiBorrow, MarginfiRepay}

-- The sighashes, as the source spells them.
abbrev pub start_flashloan_sighash : Bytes
start_flashloan_sighash = 14 ∷ 131 ∷ 33 ∷ 220 ∷ 81 ∷ 186 ∷ 180 ∷ 107 ∷ []

abbrev pub borrow_sighash : Bytes
borrow_sighash = 4 ∷ 126 ∷ 116 ∷ 53 ∷ 48 ∷ 5 ∷ 212 ∷ 31 ∷ []

abbrev pub repay_sighash : Bytes
repay_sighash = 79 ∷ 209 ∷ 172 ∷ 177 ∷ 222 ∷ 51 ∷ 173 ∷ 151 ∷ []

abbrev pub end_flashloan_sighash : Bytes
end_flashloan_sighash = 105 ∷ 124 ∷ 201 ∷ 106 ∷ 153 ∷ 2 ∷ 8 ∷ 156 ∷ []

abbrev pub start_flashloan_payload : ℕ → Bytes
start_flashloan_payload end_index = start_flashloan_sighash ++ u64_le end_index

abbrev pub borrow_payload : ℕ → Bytes
borrow_payload amount = borrow_sighash ++ u64_le amount

-- `Option<bool>`: `Some(true)` is 1 1, `None` is 0.
abbrev pub repay_payload : ℕ → Bool → Bytes
repay_payload amount repay_all =
    repay_sighash ++ (u64_le amount ++ (if repay_all then 1 ∷ 1 ∷ [] else 0 ∷ []))

abbrev pub end_flashloan_payload : Bytes
end_flashloan_payload = end_flashloan_sighash

-- The metas of `marginfi_start_flashloan`, in order.
abbrev pub marginfi_start_flashloan_metas : MarginfiFlashloanBounds → List AccountMeta
marginfi_start_flashloan_metas a =
    writable_meta a.marginfi_account.key false
    ∷ readonly_meta a.signer.key true
    ∷ readonly_meta a.ixs_sysvar.key false
    ∷ []

-- The accounts that `marginfi_start_flashloan` passes along.
abbrev pub marginfi_start_flashloan_infos : MarginfiFlashloanBounds → List AccountInfo
marginfi_start_flashloan_infos a = a.marginfi_account ∷ a.signer ∷ a.ixs_sysvar ∷ []

-- The metas of `marginfi_borrow`, in order.
abbrev pub marginfi_borrow_metas : MarginfiBorrow → List AccountMeta
marginfi_borrow_metas a =
    readonly_meta a.marginfi_group.key false
    ∷ writable_meta a.marginfi_account.key false
    ∷ readonly_meta a.signer.key true
    ∷ writable_meta a.bank.key false
    ∷ writable_meta a.destination_token_account.key false
    ∷ readonly_meta a.bank_liquidity_vault_authority.key false
    ∷ writable_meta a.bank_liquidity_vault.key false
    ∷ readonly_meta a.token_program.key false
    ∷ []

-- The accounts that `marginfi_borrow` passes along.
abbrev pub marginfi_borrow_infos : MarginfiBorrow → List AccountInfo
marginfi_borrow_infos a =
    a.marginfi_group ∷ a.marginfi_account ∷ a.signer ∷ a.bank ∷ a.destination_token_account
    ∷ a.bank_liquidity_vault_authority ∷ a.bank_liquidity_vault ∷ a.token_program ∷ []

-- The metas of `marginfi_repay`, in order.
abbrev pub marginfi_repay_metas : MarginfiRepay → List AccountMeta
marginfi_repay_metas a =
    readonly_meta a.marginfi_group.key false
    ∷ writable_meta a.marginfi_account.key false
    ∷ readonly_meta a.signer.key true
    ∷ writable_meta a.bank.key false
    ∷ writable_meta a.signer_token_account.key false
    ∷ writable_meta a.bank_liquidity_vault.key false
    ∷ readonly_meta a.token_program.key false
    ∷ []

-- The accounts that `marginfi_repay` passes along.
abbrev pub marginfi_repay_infos : MarginfiRepay → List AccountInfo
marginfi_repay_infos a =
    a.marginfi_group ∷ a.marginfi_account ∷ a.signer ∷ a.bank ∷ a.signer_token_account
    ∷ a.bank_liquidity_vault ∷ a.token_program ∷ []

-- The metas of `marginfi_end_flashloan`, in order.
abbrev pub marginfi_end_flashloan_metas : MarginfiFlashloanBounds → List AccountMeta
marginfi_end_flashloan_metas a =
    writable_meta a.marginfi_account.key false ∷ readonly_meta a.signer.key true ∷ []

-- The accounts that `marginfi_end_flashloan` passes along.
abbrev pub marginfi_end_flashloan_infos : MarginfiFlashloanBounds → List AccountInfo
marginfi_end_flashloan_infos a = a.marginfi_account ∷ a.signer ∷ []

abbrev pub marginfi_start_flashloan_ix : MarginfiFlashloanBounds → ℕ → Instruction
marginfi_start_flashloan_ix a end_index = record {
  program_id = a.marginfi_program.key;
  accounts = marginfi_start_flashloan_metas a;
  payload = start_flashloan_payload end_index;
}

abbrev pub marginfi_borrow_ix : MarginfiBorrow → ℕ → Instruction
marginfi_borrow_ix a amount = record {
  program_id = a.marginfi_program.key;
  accounts = marginfi_borrow_metas a;
  payload = borrow_payload amount;
}

abbrev pub marginfi_repay_ix : MarginfiRepay → ℕ → Bool → Instruction
marginfi_repay_ix a amount repay_all = record {
  program_id = a.marginfi_program.key;
  accounts = marginfi_repay_metas a;
  payload = repay_payload amount repay_all;
}

abbrev pub marginfi_end_flashloan_ix : MarginfiFlashloanBounds → Instruction
marginfi_end_flashloan_ix a = record {
  program_id = a.marginfi_program.key;
  accounts = marginfi_end_flashloan_metas a;
  payload = end_flashloan_payload;
}

module _ {World : Type 0} (rt : Runtime ProgramError World) where
  unfoldable pub marginfi_start_flashloan :
      MarginfiFlashloanBounds → ℕ → World → Result ProgramError World
  marginfi_start_flashloan a end_index w =
      rt.invoke (marginfi_start_flashloan_ix a end_index) (marginfi_start_flashloan_infos a) w

  unfoldable pub marginfi_borrow : MarginfiBorrow → ℕ → World → Result ProgramError World
  marginfi_borrow a amount w = rt.invoke (marginfi_borrow_ix a amount) (marginfi_borrow_infos a) w

  unfoldable pub marginfi_repay : MarginfiRepay → ℕ → Bool → World → Result ProgramError World
  marginfi_repay a amount repay_all w =
      rt.invoke (marginfi_repay_ix a amount repay_all) (marginfi_repay_infos a) w

  unfoldable pub marginfi_end_flashloan :
      MarginfiFlashloanBounds → World → Result ProgramError World
  marginfi_end_flashloan a w =
      rt.invoke (marginfi_end_flashloan_ix a) (marginfi_end_flashloan_infos a) w
