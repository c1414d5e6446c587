-- ===== src/Tests/CrossProgram.antt =====
-- The bot's two bounds of a flash loan against a runtime that runs MarginFi's handlers in the bot's
-- context.
use bot_flash_loan.Prelude.{
  ℕ, ◌≡◌, ◌≢◌, refl, Bool, true, false, List, [], ◌∷◌, Option, ◌==◌, if◌then◌else◌, some, Result,
  ok, err, arith,
}
use bot_flash_loan.Solana.{AccountInfo, Pubkey, Runtime}
use bot_flash_loan.Bot.Error.{ProgramError, foreign}
use bot_flash_loan.Bot.Accounts.{MarginfiFlashloanBounds}
use bot_flash_loan.Bot.Calls.{start_flashloan, end_flashloan, invoked, passed, execute}
use bot_flash_loan.Bot.Wire.{Request, decode_marginfi}
use bot_flash_loan.Marginfi.Account.{MarginfiAccount, Failure}
use bot_flash_loan.Marginfi.Sysvar.{TxContext}
use bot_flash_loan.Marginfi.Flashloan.{
  lending_account_start_flashloan, lending_account_end_flashloan,
}
use bot_flash_loan.CrossProgram.{InvokedBy, RanStart, RanEnd, flashloan_bounds_never_succeed}
use bot_flash_loan.Tests.Exact.{exact}
use bot_flash_loan.Tests.Flashloan.{program, key, authority, other_ix, free, lent, test_load}

abbrev info : Pubkey → Bool → AccountInfo
info k w = record { key = k; is_signer = true; is_writable = w; executable = true }

-- MarginFi's instructions in an invocation by the bot's only instruction.
abbrev context : TxContext
context = record { instructions = other_ix ∷ []; current_index = 0; stack_height = 2 }

abbrev bot_id : Pubkey
bot_id = 8

context-InvokedBy : InvokedBy bot_id context
context-InvokedBy = record {
  current = other_ix;
  current_at = refl;
  current_program = refl;
  deeper = omega arith;
}

abbrev lift : Result Failure MarginfiAccount → Result ProgramError MarginfiAccount
lift (ok a) = ok a
lift (err e) = err (foreign 0)

lift-eq-ok : (m : Result Failure MarginfiAccount) {a : MarginfiAccount} → lift m ≡ ok a → m ≡ ok a
lift-eq-ok (ok b) h = cc
lift-eq-ok (err e) h = cc

-- The accounts are read from the account infos: the account, then its authority.
abbrev run :
    Option Request → List AccountInfo → MarginfiAccount → Result ProgramError MarginfiAccount
run (some (Request.start_flashloan n)) (account ∷ signer ∷ _) w =
    lift (lending_account_start_flashloan program context signer.key account.key w n)
run (some Request.end_flashloan) (account ∷ signer ∷ _) w =
    lift (lending_account_end_flashloan exact test_load context signer.key w [])
run _ _ w = err (foreign 1)

-- Any program but MarginFi succeeds and changes nothing.
abbrev test_runtime : Runtime ProgramError MarginfiAccount
test_runtime = record {
  invoke = λ ix is w.
      let result = run (decode_marginfi ix.payload) is w in
      if ix.program_id == program then result else ok w;
  amount = λ i w. ok 0;
}

start_runs :
    (a : MarginfiFlashloanBounds) (n : ℕ) (w w' : MarginfiAccount)
    → a.marginfi_program.key ≡ program
    → test_runtime.invoke (invoked (start_flashloan a n)) (passed (start_flashloan a n)) w ≡ ok w'
    → RanStart test_runtime bot_id program exact test_load a n
start_runs a n w w' id h = record {
  tx = context;
  invoked_by = context-InvokedBy;
  before = w;
  after = w';
  ran = lift-eq-ok _ (rw (id) at h);
}

end_runs :
    (a : MarginfiFlashloanBounds) (w w' : MarginfiAccount)
    → a.marginfi_program.key ≡ program
    → test_runtime.invoke (invoked (end_flashloan a)) (passed (end_flashloan a)) w ≡ ok w'
    → RanEnd test_runtime bot_id program exact test_load a
end_runs a w w' id h = record {
  tx = context;
  invoked_by = context-InvokedBy;
  before = w;
  after = w';
  ran = lift-eq-ok _ (rw (id) at h);
}

abbrev bounds : MarginfiFlashloanBounds
bounds = record {
  marginfi_account = info key true;
  signer = info authority true;
  marginfi_program = info program false;
  ixs_sysvar = info 9 false;
}

flashloan_bounds_never_succeed_example :
    (execute 4 test_runtime (start_flashloan bounds 5) free ≢ ok lent)
    × (execute 4 test_runtime (end_flashloan bounds) free ≢ ok lent)
flashloan_bounds_never_succeed_example =
    flashloan_bounds_never_succeed test_runtime bot_id program exact test_load start_runs end_runs 4
      bounds 5 free lent refl
