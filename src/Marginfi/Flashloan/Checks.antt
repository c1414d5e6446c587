-- ===== src/Marginfi/Flashloan/Checks.antt =====
-- What `check_flashloan_can_start` accepts.
use bot_flash_loan.Prelude.{
  ℕ, ◌≤◌, ◌<◌, ◌≡◌, ◌↔◌, inl, inr, false, some, ok, arith, length, get_elem?, take, Option-cases,
}
use bot_flash_loan.Word.{eq_bytes_sound, eq_bytes_refl}
use bot_flash_loan.Solana.{AccountMeta, Instruction, Pubkey}
use bot_flash_loan.Marginfi.Account.{
  MarginfiAccount, get_flag, account_disabled, account_in_flashloan, account_in_receivership,
  account_frozen,
}
use bot_flash_loan.Marginfi.Sysvar.{TxContext}
use bot_flash_loan.Marginfi.Flashloan.{check_flashloan_can_start, end_flashloan}

-- The instruction ends the flash loan of the account at `key`.
pub record IsEnd (program_id key : Pubkey) (ix : Instruction) : Type 0 where
  pub account : AccountMeta
  pub program : ix.program_id ≡ program_id
  pub long_enough : 8 ≤ length ix.payload
  pub tag : take 8 ix.payload ≡ end_flashloan
  pub has_account : get_elem? ix.accounts 0 ≡ some account
  pub same_account : account.pubkey ≡ key

-- The flags that a flash loan may not start under.
pub record IsFree (a : MarginfiAccount) : Type 0 where
  pub enabled : get_flag a account_disabled ≡ false
  pub not_in_flashloan : get_flag a account_in_flashloan ≡ false
  pub not_in_receivership : get_flag a account_in_receivership ≡ false
  pub not_frozen : get_flag a account_frozen ≡ false

pub record CanStart (program_id : Pubkey) (tx : TxContext) (key : Pubkey) (a : MarginfiAccount)
    (end_index : ℕ) : Type 0 where
  pub current : Instruction
  pub current_at : get_elem? tx.instructions tx.current_index ≡ some current
  pub current_program : current.program_id ≡ program_id
  pub top_level : tx.stack_height ≡ 1
  pub before_end : tx.current_index < end_index
  pub end_ix : Instruction
  pub end_at : get_elem? tx.instructions end_index ≡ some end_ix
  pub is_end : IsEnd program_id key end_ix
  pub is_free : IsFree a

module _ (program_id : Pubkey) (tx : TxContext) (key : Pubkey) (a : MarginfiAccount)
    (end_index : ℕ) where
  CanStart-check_flashloan_can_start :
      CanStart program_id tx key a end_index
      → check_flashloan_can_start program_id tx key a end_index ≡ ok tt
  unfolding check_flashloan_can_start
  CanStart-check_flashloan_can_start s = ground (arith, eq_bytes_refl end_flashloan)

  check_flashloan_can_start-CanStart :
      check_flashloan_can_start program_id tx key a end_index ≡ ok tt
      → CanStart program_id tx key a end_index
  unfolding check_flashloan_can_start
  check_flashloan_can_start-CanStart h =
      elim (Option-cases (get_elem? tx.instructions tx.current_index)) [
        | inl missing ↦ absurd (ground arith)
        | inr (c, ec) ↦ elim (Option-cases (get_elem? tx.instructions end_index)) [
          | inl missing ↦ absurd (ground arith)
          | inr (x, ex) ↦ elim (Option-cases (get_elem? x.accounts 0)) [
            | inl missing ↦ absurd (ground arith)
            | inr (m, em) ↦ record {
              current = c;
              current_at = ec;
              current_program = ground arith;
              top_level = ground arith;
              before_end = ground arith;
              end_ix = x;
              end_at = ex;
              is_end = record {
                account = m;
                program = ground arith;
                long_enough = ground arith;
                tag = eq_bytes_sound _ _ (ground arith);
                has_account = em;
                same_account = ground arith;
              };
              is_free = record {
                enabled = ground arith;
                not_in_flashloan = ground arith;
                not_in_receivership = ground arith;
                not_frozen = ground arith;
              };
            }
          ]
        ]
      ]

  -- A flash loan may start exactly when the current top-level instruction is of the program, the
  -- stack is at the transaction's level, a later instruction at `end_index` is of the program, has
  -- the discriminator of the end and names the same account first, and the account is not
  -- disabled, in a flash loan, in receivership or frozen.
  pub check_flashloan_can_start_iff :
      (check_flashloan_can_start program_id tx key a end_index ≡ ok tt)
      ↔ CanStart program_id tx key a end_index
  check_flashloan_can_start_iff =
      (check_flashloan_can_start-CanStart, CanStart-check_flashloan_can_start)
