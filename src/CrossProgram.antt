-- ===== src/CrossProgram.antt =====
-- The bot's calls against the MarginFi program of this repository: what becomes of the two calls
-- that open and close the flash loan when MarginFi is reached by `invoke`.
use bot_flash_loan.Prelude.{
  ℕ, ◌<◌, ◌≡◌, ◌≢◌, List, [], some, ok, Result, get_elem?, >>=-eq-ok, check, ◌==◌, arith,
}
use bot_flash_loan.Solana.{AccountInfo, Instruction, Pubkey, Runtime}
use bot_flash_loan.Word.{from_le_bytes, u64_le}
use bot_flash_loan.Bot.Error.{ProgramError}
use bot_flash_loan.Bot.Accounts.{MarginfiFlashloanBounds}
use bot_flash_loan.Bot.Marginfi.{marginfi_start_flashloan, marginfi_end_flashloan}
use bot_flash_loan.Bot.Calls.{
  start_flashloan, end_flashloan, invoked, passed, try_accounts, handle, execute,
}
use bot_flash_loan.Marginfi.Fixed.{Fixed}
use bot_flash_loan.Marginfi.Account.{MarginfiAccount, Failure}
use bot_flash_loan.Marginfi.Sysvar.{TxContext, validate_not_cpi_by_stack_height}
use bot_flash_loan.Marginfi.Risk.{BankAccountWithPrice}
use bot_flash_loan.Marginfi.Flashloan.{
  check_flashloan_can_start, lending_account_start_flashloan, lending_account_end_flashloan,
}
use bot_flash_loan.Marginfi.Flashloan.Checks.{check_flashloan_can_start_iff}

-- What MarginFi sees in an invocation from the bot: the current top-level instruction is the bot's,
-- and the stack is deeper than the transaction's level.
pub record InvokedBy (bot_id : Pubkey) (tx : TxContext) : Type 0 where
  pub current : Instruction
  pub current_at : get_elem? tx.instructions tx.current_index ≡ some current
  pub current_program : current.program_id ≡ bot_id
  pub deeper : 1 < tx.stack_height

module _ {World : Type 0} (rt : Runtime ProgramError World) (bot_id marginfi_id : Pubkey)
    (fx : Fixed)
    (load : MarginfiAccount → List AccountInfo → Result Failure (List BankAccountWithPrice)) where
  -- MarginFi's `lending_account_start_flashloan` has run in an invocation by the bot, with the index
  -- and the accounts of the bot's call.
  pub record RanStart (a : MarginfiFlashloanBounds) (n : ℕ) : Type 0 where
    pub tx : TxContext
    pub invoked_by : InvokedBy bot_id tx
    pub before : MarginfiAccount
    pub after : MarginfiAccount
    pub ran :
        lending_account_start_flashloan marginfi_id tx a.signer.key a.marginfi_account.key before
          (from_le_bytes (u64_le n))
        ≡ ok after

  pub record RanEnd (a : MarginfiFlashloanBounds) : Type 0 where
    pub tx : TxContext
    pub invoked_by : InvokedBy bot_id tx
    pub before : MarginfiAccount
    pub after : MarginfiAccount
    pub ran : lending_account_end_flashloan fx load tx a.signer.key before [] ≡ ok after

  start_never_ran : (a : MarginfiFlashloanBounds) (n : ℕ) → ¬ RanStart a n
  unfolding lending_account_start_flashloan
  start_never_ran a n r =
      let index = from_le_bytes (u64_le n) in
      let (_, _, h₁) = >>=-eq-ok (check (r.before.authority == a.signer.key) _) _ r.ran in
      let (_, allowed, _) =
        >>=-eq-ok (check_flashloan_can_start marginfi_id r.tx a.marginfi_account.key r.before index)
          _ h₁ in
      let seen =
        (check_flashloan_can_start_iff marginfi_id r.tx a.marginfi_account.key r.before index).0
          allowed in
      let deep = r.invoked_by.deeper in omega (arith, seen.top_level, deep)

  end_never_ran : (a : MarginfiFlashloanBounds) → ¬ RanEnd a
  unfolding lending_account_end_flashloan validate_not_cpi_by_stack_height
  end_never_ran a r =
      let (_, _, h₁) = >>=-eq-ok (check (r.before.authority == a.signer.key) _) _ r.ran in
      let (_, top, _) = >>=-eq-ok (validate_not_cpi_by_stack_height r.tx) _ h₁ in
      let deep = r.invoked_by.deeper in ground (arith, top, deep)

  -- Where the runtime runs MarginFi for the program id `marginfi_id`: an invocation of that id with
  -- the bot's start or end instruction that succeeds has run MarginFi's handler, with the accounts
  -- and arguments of the call and with a stack deeper than the transaction's. Then the bot's
  -- `marginfi_start_flashloan` and `marginfi_end_flashloan`, given that id as the MarginFi program,
  -- never succeed, with whatever other accounts, index and state. Nothing is said of calls that
  -- are given another program.
  pub flashloan_bounds_never_succeed :
      (start_runs : (a : MarginfiFlashloanBounds) (n : ℕ) (w w' : World)
        → a.marginfi_program.key ≡ marginfi_id
        → rt.invoke (invoked (start_flashloan a n)) (passed (start_flashloan a n)) w ≡ ok w'
        → RanStart a n)
      (end_runs : (a : MarginfiFlashloanBounds) (w w' : World)
        → a.marginfi_program.key ≡ marginfi_id
        → rt.invoke (invoked (end_flashloan a)) (passed (end_flashloan a)) w ≡ ok w'
        → RanEnd a)
      (token_program_id : Pubkey) (a : MarginfiFlashloanBounds) (n : ℕ) (w w' : World)
      → a.marginfi_program.key ≡ marginfi_id
      → (execute token_program_id rt (start_flashloan a n) w ≢ ok w')
        × (execute token_program_id rt (end_flashloan a) w ≢ ok w')
  unfolding execute handle marginfi_start_flashloan marginfi_end_flashloan
  flashloan_bounds_never_succeed start_runs end_runs t a n w w' id = (
    λ h.
        start_never_ran a n
          (start_runs a n w w' id (>>=-eq-ok (try_accounts t (start_flashloan a n)) _ h).2),
    λ h. end_never_ran a (end_runs a w w' id (>>=-eq-ok (try_accounts t (end_flashloan a)) _ h).2),
  )
