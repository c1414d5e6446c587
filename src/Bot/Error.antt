-- ===== src/Bot/Error.antt =====
-- The errors of programs/flash_loan_bot/src/lib.rs: its own `FlashLoanError`, and those of Anchor,
-- of the runtime and of the programs that it invokes.
use bot_flash_loan.Prelude.{ℕ}

pub data FlashLoanError : Type 0 where
  negative_profit slippage_exceeded arithmetic_overflow : FlashLoanError

pub data ProgramError : Type 0 where
  custom : FlashLoanError → ProgramError
  -- Anchor: a `Signer` did not sign; `Program<Token>` is another account, or is not executable; an
  -- account of `#[account(mut)]` is not writable.
  account_not_signer invalid_program_id invalid_program_executable constraint_mut : ProgramError
  -- An error code of an invoked program or of the runtime.
  foreign : ℕ → ProgramError
