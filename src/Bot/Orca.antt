-- ===== src/Bot/Orca.antt =====
-- `proxy_orca` of programs/flash_loan_bot/src/lib.rs: the second leg, SOL to USDC on Orca
-- Whirlpool.
use bot_flash_loan.Prelude.{
  ℕ, true, false, List, [], ◌∷◌, ◌++◌, Result, ok, check, ok_or, ◌>>=◌, ◌>>◌, leb, checked_sub,
}
use bot_flash_loan.Word.{Bytes, u64_le, u128_le}
use bot_flash_loan.Solana.{
  AccountInfo, AccountMeta, Instruction, Runtime, writable_meta, readonly_meta,
}
use bot_flash_loan.Bot.Error.{ProgramError, custom, arithmetic_overflow, slippage_exceeded}
use bot_flash_loan.Bot.Accounts.{ProxyOrca}

abbrev pub swap_discriminator : Bytes
swap_discriminator = 0xf8 ∷ 0xc6 ∷ 0x9e ∷ 0x91 ∷ 0xe1 ∷ 0x75 ∷ 0x87 ∷ 0xc8 ∷ []

abbrev pub min_sqrt_price : ℕ
min_sqrt_price = 4295048016

-- The two last bytes are `amount_specified_is_input` and `a_to_b`.
abbrev pub proxy_orca_payload : ℕ → ℕ → Bytes
proxy_orca_payload amount_in amount_out_min =
    swap_discriminator
    ++ (u64_le amount_in ++ (u64_le amount_out_min ++ (u128_le min_sqrt_price ++ 1 ∷ 1 ∷ [])))

-- The metas of `proxy_orca`, in order.
abbrev pub proxy_orca_metas : ProxyOrca → List AccountMeta
proxy_orca_metas a =
    readonly_meta a.token_program.key false
    ∷ readonly_meta a.token_authority.key true
    ∷ writable_meta a.whirlpool.key false
    ∷ writable_meta a.token_owner_account_a.key false
    ∷ writable_meta a.token_vault_a.key false
    ∷ writable_meta a.token_owner_account_b.key false
    ∷ writable_meta a.token_vault_b.key false
    ∷ writable_meta a.tick_array_0.key false
    ∷ writable_meta a.tick_array_1.key false
    ∷ writable_meta a.tick_array_2.key false
    ∷ writable_meta a.oracle.key false
    ∷ []

-- The accounts that `proxy_orca` passes along.
abbrev pub proxy_orca_infos : ProxyOrca → List AccountInfo
proxy_orca_infos a =
    a.token_program ∷ a.token_authority ∷ a.whirlpool ∷ a.token_owner_account_a ∷ a.token_vault_a
    ∷ a.token_owner_account_b ∷ a.token_vault_b ∷ a.tick_array_0 ∷ a.tick_array_1 ∷ a.tick_array_2
    ∷ a.oracle ∷ []

abbrev pub proxy_orca_ix : ProxyOrca → ℕ → ℕ → Instruction
proxy_orca_ix a amount_in amount_out_min = record {
  program_id = a.whirlpool_program.key;
  accounts = proxy_orca_metas a;
  payload = proxy_orca_payload amount_in amount_out_min;
}

-- The balance of the receiving account is read before and after the invocation.
module _ {World : Type 0} (rt : Runtime ProgramError World) where
  unfoldable pub proxy_orca : ProxyOrca → ℕ → ℕ → World → Result ProgramError World
  proxy_orca a amount_in amount_out_min w = do
    before ← rt.amount a.token_owner_account_b w
    w' ← rt.invoke (proxy_orca_ix a amount_in amount_out_min) (proxy_orca_infos a) w
    after ← rt.amount a.token_owner_account_b w'
    received ← ok_or (checked_sub after before) (custom arithmetic_overflow)
    check (leb amount_out_min received) (custom slippage_exceeded)
    ok w'
