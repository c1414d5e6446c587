-- ===== src/Bot/Privileges.antt =====
-- The account structs declare every privilege that the handlers pass on.
use bot_flash_loan.Prelude.{◌≡◌, ok, arith}
use bot_flash_loan.Solana.{Pubkey}
use bot_flash_loan.Solana.Privileges.{Granted}
use bot_flash_loan.Bot.Accounts.{
  try_marginfi_flashloan_bounds, try_marginfi_borrow, try_marginfi_repay, try_proxy_raydium,
  try_proxy_orca,
}
use bot_flash_loan.Bot.Calls.{
  Call, start_flashloan, borrow, raydium, orca, repay, end_flashloan, try_accounts, invoked, passed,
}

-- If the account struct of a call passes Anchor's checks, the accounts that the call's handler
-- passes are, position by position, the ones that the invoked instruction names, and each holds
-- the signature and the write access that the instruction asks for.
pub invoked-Granted :
    (token_program_id : Pubkey) (c : Call)
    → try_accounts token_program_id c ≡ ok tt
    → Granted (passed c) (invoked c).accounts
unfolding try_marginfi_flashloan_bounds try_marginfi_borrow try_marginfi_repay try_proxy_raydium
    try_proxy_orca
invoked-Granted t (start_flashloan a end_index) h = ground arith
invoked-Granted t (borrow a amount) h = ground arith
invoked-Granted t (raydium a amount_in amount_out_min) h = ground arith
invoked-Granted t (orca a amount_in amount_out_min) h = ground arith
invoked-Granted t (repay a amount repay_all) h = ground arith
invoked-Granted t (end_flashloan a) h = ground arith
