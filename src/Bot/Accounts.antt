-- ===== src/Bot/Accounts.antt =====
-- The account structs of programs/flash_loan_bot/src/lib.rs and the checks that their
-- attributes ask Anchor for. A field is checked by its type, in the order of the fields: `Signer`
-- wants a signature, `Program<Token>` the SPL token program, `UncheckedAccount` nothing. The
-- `#[account(mut)]` constraints follow, in the same order.
use bot_flash_loan.Prelude.{◌>>◌, Result, check, ◌==◌}
use bot_flash_loan.Solana.{AccountInfo, Pubkey}
use bot_flash_loan.Bot.Error.{
  ProgramError, account_not_signer, invalid_program_id, invalid_program_executable, constraint_mut,
}

pub record MarginfiFlashloanBounds : Type 0 where
  pub marginfi_account : AccountInfo
  pub signer : AccountInfo
  pub marginfi_program : AccountInfo
  pub ixs_sysvar : AccountInfo

pub record MarginfiBorrow : Type 0 where
  pub marginfi_group : AccountInfo
  pub marginfi_account : AccountInfo
  pub signer : AccountInfo
  pub bank : AccountInfo
  pub destination_token_account : AccountInfo
  pub bank_liquidity_vault_authority : AccountInfo
  pub bank_liquidity_vault : AccountInfo
  pub token_program : AccountInfo
  pub marginfi_program : AccountInfo

pub record MarginfiRepay : Type 0 where
  pub marginfi_group : AccountInfo
  pub marginfi_account : AccountInfo
  pub signer : AccountInfo
  pub bank : AccountInfo
  pub signer_token_account : AccountInfo
  pub bank_liquidity_vault : AccountInfo
  pub token_program : AccountInfo
  pub marginfi_program : AccountInfo

pub record ProxyRaydium : Type 0 where
  pub user : AccountInfo
  pub user_token_account : AccountInfo
  pub destination_token_account : AccountInfo
  pub token_program : AccountInfo
  pub raydium_program : AccountInfo
  pub amm_id : AccountInfo
  pub amm_authority : AccountInfo
  pub amm_open_orders : AccountInfo
  pub amm_target_orders : AccountInfo
  pub amm_coin_vault : AccountInfo
  pub amm_pc_vault : AccountInfo
  pub serum_program : AccountInfo
  pub serum_market : AccountInfo
  pub serum_bids : AccountInfo
  pub serum_asks : AccountInfo
  pub serum_event_queue : AccountInfo
  pub serum_coin_vault : AccountInfo
  pub serum_pc_vault : AccountInfo
  pub serum_vault_signer : AccountInfo

pub record ProxyOrca : Type 0 where
  pub token_program : AccountInfo
  pub token_authority : AccountInfo
  pub whirlpool_program : AccountInfo
  pub whirlpool : AccountInfo
  pub token_owner_account_a : AccountInfo
  pub token_vault_a : AccountInfo
  pub token_owner_account_b : AccountInfo
  pub token_vault_b : AccountInfo
  pub tick_array_0 : AccountInfo
  pub tick_array_1 : AccountInfo
  pub tick_array_2 : AccountInfo
  pub oracle : AccountInfo

-- `Signer`
abbrev pub signer : AccountInfo → Result ProgramError (Unit {0})
signer i = check i.is_signer account_not_signer

-- `#[account(mut)]`
abbrev pub mutable : AccountInfo → Result ProgramError (Unit {0})
mutable i = check i.is_writable constraint_mut

-- `Program<Token>`
abbrev pub program : Pubkey → AccountInfo → Result ProgramError (Unit {0})
program id i = do
  check (i.key == id) invalid_program_id
  check i.executable invalid_program_executable

module _ (token_program_id : Pubkey) where
  unfoldable pub try_marginfi_flashloan_bounds :
      MarginfiFlashloanBounds → Result ProgramError (Unit {0})
  try_marginfi_flashloan_bounds a = do signer a.signer; mutable a.marginfi_account

  unfoldable pub try_marginfi_borrow : MarginfiBorrow → Result ProgramError (Unit {0})
  try_marginfi_borrow a = do
    signer a.signer
    program token_program_id a.token_program
    mutable a.marginfi_account
    mutable a.bank
    mutable a.destination_token_account
    mutable a.bank_liquidity_vault

  unfoldable pub try_marginfi_repay : MarginfiRepay → Result ProgramError (Unit {0})
  try_marginfi_repay a = do
    signer a.signer
    program token_program_id a.token_program
    mutable a.marginfi_account
    mutable a.bank
    mutable a.signer_token_account
    mutable a.bank_liquidity_vault

  unfoldable pub try_proxy_raydium : ProxyRaydium → Result ProgramError (Unit {0})
  try_proxy_raydium a = do
    signer a.user
    program token_program_id a.token_program
    mutable a.user
    mutable a.user_token_account
    mutable a.destination_token_account
    mutable a.amm_id
    mutable a.amm_open_orders
    mutable a.amm_target_orders
    mutable a.amm_coin_vault
    mutable a.amm_pc_vault
    mutable a.serum_market
    mutable a.serum_bids
    mutable a.serum_asks
    mutable a.serum_event_queue
    mutable a.serum_coin_vault
    mutable a.serum_pc_vault

  unfoldable pub try_proxy_orca : ProxyOrca → Result ProgramError (Unit {0})
  try_proxy_orca a = do
    program token_program_id a.token_program
    signer a.token_authority
    mutable a.whirlpool
    mutable a.token_owner_account_a
    mutable a.token_vault_a
    mutable a.token_owner_account_b
    mutable a.token_vault_b
    mutable a.tick_array_0
    mutable a.tick_array_1
    mutable a.tick_array_2
    mutable a.oracle
