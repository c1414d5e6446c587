-- ===== src/Bot/Raydium.antt =====
-- `proxy_raydium` of programs/flash_loan_bot/src/lib.rs: the first leg, USDC to SOL on Raydium AMM V4.
use bot_flash_loan.Prelude.{
  ℕ, true, false, List, [], ◌∷◌, ◌++◌, Result, ok, check, ok_or, ◌>>=◌, ◌>>◌, leb, checked_sub,
}
use bot_flash_loan.Word.{Bytes, u64_le}
use bot_flash_loan.Solana.{
  AccountInfo, AccountMeta, Instruction, Runtime, writable_meta, readonly_meta,
}
use bot_flash_loan.Bot.Error.{ProgramError, custom, arithmetic_overflow, slippage_exceeded}
use bot_flash_loan.Bot.Accounts.{ProxyRaydium}

abbrev pub proxy_raydium_payload : ℕ → ℕ → Bytes
proxy_raydium_payload amount_in amount_out_min = 9 ∷ (u64_le amount_in ++ u64_le amount_out_min)

-- The metas of `proxy_raydium`, in order.
abbrev pub proxy_raydium_metas : ProxyRaydium → List AccountMeta
proxy_raydium_metas a =
    readonly_meta a.token_program.key false
    ∷ writable_meta a.amm_id.key false
    ∷ readonly_meta a.amm_authority.key false
    ∷ writable_meta a.amm_open_orders.key false
    ∷ writable_meta a.amm_target_orders.key false
    ∷ writable_meta a.amm_coin_vault.key false
    ∷ writable_meta a.amm_pc_vault.key false
    ∷ readonly_meta a.serum_program.key false
    ∷ writable_meta a.serum_market.key false
    ∷ writable_meta a.serum_bids.key false
    ∷ writable_meta a.serum_asks.key false
    ∷ writable_meta a.serum_event_queue.key false
    ∷ writable_meta a.serum_coin_vault.key false
    ∷ writable_meta a.serum_pc_vault.key false
    ∷ readonly_meta a.serum_vault_signer.key false
    ∷ writable_meta a.user_token_account.key false
    ∷ writable_meta a.destination_token_account.key false
    ∷ readonly_meta a.user.key true
    ∷ []

-- The accounts that `proxy_raydium` passes along.
abbrev pub proxy_raydium_infos : ProxyRaydium → List AccountInfo
proxy_raydium_infos a =
    a.token_program ∷ a.amm_id ∷ a.amm_authority ∷ a.amm_open_orders ∷ a.amm_target_orders
    ∷ a.amm_coin_vault ∷ a.amm_pc_vault ∷ a.serum_program ∷ a.serum_market ∷ a.serum_bids
    ∷ a.serum_asks ∷ a.serum_event_queue ∷ a.serum_coin_vault ∷ a.serum_pc_vault
    ∷ a.serum_vault_signer ∷ a.user_token_account ∷ a.destination_token_account ∷ a.user ∷ []

abbrev pub proxy_raydium_ix : ProxyRaydium → ℕ → ℕ → Instruction
proxy_raydium_ix a amount_in amount_out_min = record {
  program_id = a.raydium_program.key;
  accounts = proxy_raydium_metas a;
  payload = proxy_raydium_payload amount_in amount_out_min;
}

-- The balance of the receiving account is read before and after the invocation.
module _ {World : Type 0} (rt : Runtime ProgramError World) where
  unfoldable pub proxy_raydium : ProxyRaydium → ℕ → ℕ → World → Result ProgramError World
  proxy_raydium a amount_in amount_out_min w = do
    before ← rt.amount a.destination_token_account w
    w' ← rt.invoke (proxy_raydium_ix a amount_in amount_out_min) (proxy_raydium_infos a) w
    after ← rt.amount a.destination_token_account w'
    received ← ok_or (checked_sub after before) (custom arithmetic_overflow)
    check (leb amount_out_min received) (custom slippage_exceeded)
    ok w'
