-- ===== src/Bot/Unused.antt =====
-- `FlashLoanError::NegativeProfit` is declared, and no path of the program returns it.
use bot_flash_loan.Prelude.{
  ℕ, ◌≢◌, Result, ok, err, check, ok_or, ◌>>=◌, ◌>>◌, List, [], ◌∷◌, leb, checked_sub, arith,
}
use bot_flash_loan.Solana.{AccountInfo, Instruction, Pubkey, Runtime}
use bot_flash_loan.Bot.Error.{
  ProgramError, custom, negative_profit, slippage_exceeded, arithmetic_overflow,
}
use bot_flash_loan.Bot.Accounts.{
  try_marginfi_flashloan_bounds, try_marginfi_borrow, try_marginfi_repay, try_proxy_raydium,
  try_proxy_orca,
}
use bot_flash_loan.Bot.Marginfi.{
  marginfi_start_flashloan, marginfi_borrow, marginfi_repay, marginfi_end_flashloan,
}
use bot_flash_loan.Bot.Raydium.{proxy_raydium}
use bot_flash_loan.Bot.Orca.{proxy_orca}
use bot_flash_loan.Bot.Calls.{
  Call, start_flashloan, borrow, raydium, orca, repay, end_flashloan, try_accounts, handle, execute,
  execute_all,
}

-- The result is not this error.
abbrev Avoids : {A : Type 0} → Result ProgramError A → Type 0
Avoids r = r ≢ err (custom negative_profit)

Avoids-bind :
    {A B : Type 0} (m : Result ProgramError A) (f : A → Result ProgramError B)
    → Avoids m
    → ((a : A) → Avoids (f a))
    → Avoids (m >>= f)
Avoids-bind (ok a) f hm hf = hf a
Avoids-bind {B = B} (err e) f hm hf = λ h. hm (ground arith)

module _ {World : Type 0} (token_program_id : Pubkey) (rt : Runtime ProgramError World)
    (invoke_avoids : (ix : Instruction) (is : List AccountInfo) (w : World)
      → Avoids (rt.invoke ix is w))
    (amount_avoids : (i : AccountInfo) (w : World) → Avoids (rt.amount i w)) where
  try_accounts-Avoids : (c : Call) → Avoids (try_accounts token_program_id c)
  unfolding try_marginfi_flashloan_bounds try_marginfi_borrow try_marginfi_repay try_proxy_raydium
      try_proxy_orca
  try_accounts-Avoids (start_flashloan a n) h = ground arith
  try_accounts-Avoids (borrow a n) h = ground arith
  try_accounts-Avoids (raydium a m n) h = ground arith
  try_accounts-Avoids (orca a m n) h = ground arith
  try_accounts-Avoids (repay a n b) h = ground arith
  try_accounts-Avoids (end_flashloan a) h = ground arith

  checked-Avoids :
      (before after least : ℕ) (w : World)
      → Avoids (do
        received ← ok_or (checked_sub after before) (custom arithmetic_overflow)
        check (leb least received) (custom slippage_exceeded)
        ok w)
  checked-Avoids before after least w h = ground arith

  handle-Avoids : (c : Call) (w : World) → Avoids (handle token_program_id rt c w)
  unfolding handle marginfi_start_flashloan marginfi_borrow marginfi_repay marginfi_end_flashloan
      proxy_raydium proxy_orca
  handle-Avoids (start_flashloan a n) w = invoke_avoids _ _ w
  handle-Avoids (borrow a n) w = invoke_avoids _ _ w
  handle-Avoids (raydium a m n) w = Avoids-bind _ _ (amount_avoids _ w) λ b.
      Avoids-bind _ _ (invoke_avoids _ _ w)
        λ w'. Avoids-bind _ _ (amount_avoids _ w') λ c. checked-Avoids b c n w'
  handle-Avoids (orca a m n) w = Avoids-bind _ _ (amount_avoids _ w) λ b.
      Avoids-bind _ _ (invoke_avoids _ _ w)
        λ w'. Avoids-bind _ _ (amount_avoids _ w') λ c. checked-Avoids b c n w'
  handle-Avoids (repay a n b) w = invoke_avoids _ _ w
  handle-Avoids (end_flashloan a) w = invoke_avoids _ _ w

  -- Where neither the invoked programs nor the balance accessor fail with `NegativeProfit`, no
  -- chain of the bot's calls does.
  pub execute_all-ne-negative_profit :
      (cs : List Call) (w : World)
      → execute_all token_program_id rt cs w ≢ err (custom negative_profit)
  unfolding execute_all execute
  execute_all-ne-negative_profit [] w = λ h. cc
  execute_all-ne-negative_profit (c ∷ cs) w =
      Avoids-bind _ _ (Avoids-bind _ _ (try_accounts-Avoids c) (λ _. handle-Avoids c w))
        (execute_all-ne-negative_profit cs)
