-- ===== src/Bot/Calls.antt =====
-- The six entry points of the program as one type: what a transaction can ask of it, and the chain
-- of entry points that one transaction runs. The runtime drops every change of a transaction that
-- fails, so a failing chain has no state after it.
use bot_flash_loan.Prelude.{ℕ, Bool, List, [], ◌∷◌, Result, ok, ◌>>=◌, ◌>>◌}
use bot_flash_loan.Solana.{AccountInfo, Instruction, Pubkey, Runtime}
use bot_flash_loan.Bot.Error.{ProgramError}
use bot_flash_loan.Bot.Accounts.{
  MarginfiFlashloanBounds, MarginfiBorrow, MarginfiRepay, ProxyRaydium, ProxyOrca,
  try_marginfi_flashloan_bounds, try_marginfi_borrow, try_marginfi_repay, try_proxy_raydium,
  try_proxy_orca,
}
use bot_flash_loan.Bot.Marginfi.{
  marginfi_start_flashloan, marginfi_start_flashloan_ix, marginfi_start_flashloan_infos,
  marginfi_borrow, marginfi_borrow_ix, marginfi_borrow_infos, marginfi_repay, marginfi_repay_ix,
  marginfi_repay_infos, marginfi_end_flashloan, marginfi_end_flashloan_ix,
  marginfi_end_flashloan_infos,
}
use bot_flash_loan.Bot.Raydium.{proxy_raydium, proxy_raydium_ix, proxy_raydium_infos}
use bot_flash_loan.Bot.Orca.{proxy_orca, proxy_orca_ix, proxy_orca_infos}

pub data Call : Type 0 where
  start_flashloan : MarginfiFlashloanBounds → ℕ → Call
  borrow : MarginfiBorrow → ℕ → Call
  raydium : ProxyRaydium → ℕ → ℕ → Call
  orca : ProxyOrca → ℕ → ℕ → Call
  repay : MarginfiRepay → ℕ → Bool → Call
  end_flashloan : MarginfiFlashloanBounds → Call

-- The checks of the call's account struct.
abbrev pub try_accounts : Pubkey → Call → Result ProgramError (Unit {0})
try_accounts t (start_flashloan a end_index) = try_marginfi_flashloan_bounds t a
try_accounts t (borrow a amount) = try_marginfi_borrow t a
try_accounts t (raydium a amount_in amount_out_min) = try_proxy_raydium t a
try_accounts t (orca a amount_in amount_out_min) = try_proxy_orca t a
try_accounts t (repay a amount repay_all) = try_marginfi_repay t a
try_accounts t (end_flashloan a) = try_marginfi_flashloan_bounds t a

-- The instruction that the call's handler invokes.
abbrev pub invoked : Call → Instruction
invoked (start_flashloan a end_index) = marginfi_start_flashloan_ix a end_index
invoked (borrow a amount) = marginfi_borrow_ix a amount
invoked (raydium a amount_in amount_out_min) = proxy_raydium_ix a amount_in amount_out_min
invoked (orca a amount_in amount_out_min) = proxy_orca_ix a amount_in amount_out_min
invoked (repay a amount repay_all) = marginfi_repay_ix a amount repay_all
invoked (end_flashloan a) = marginfi_end_flashloan_ix a

-- The accounts that it passes along.
abbrev pub passed : Call → List AccountInfo
passed (start_flashloan a end_index) = marginfi_start_flashloan_infos a
passed (borrow a amount) = marginfi_borrow_infos a
passed (raydium a amount_in amount_out_min) = proxy_raydium_infos a
passed (orca a amount_in amount_out_min) = proxy_orca_infos a
passed (repay a amount repay_all) = marginfi_repay_infos a
passed (end_flashloan a) = marginfi_end_flashloan_infos a

module _ {World : Type 0} (token_program_id : Pubkey) (rt : Runtime ProgramError World) where
  unfoldable pub handle : Call → World → Result ProgramError World
  handle (start_flashloan a end_index) = marginfi_start_flashloan rt a end_index
  handle (borrow a amount) = marginfi_borrow rt a amount
  handle (raydium a amount_in amount_out_min) = proxy_raydium rt a amount_in amount_out_min
  handle (orca a amount_in amount_out_min) = proxy_orca rt a amount_in amount_out_min
  handle (repay a amount repay_all) = marginfi_repay rt a amount repay_all
  handle (end_flashloan a) = marginfi_end_flashloan rt a

  unfoldable pub execute : Call → World → Result ProgramError World
  execute c w = do try_accounts token_program_id c; handle c w

  unfoldable pub execute_all : List Call → World → Result ProgramError World
  execute_all [] w = ok w
  execute_all (c ∷ cs) w = do w' ← execute c w; execute_all cs w'
