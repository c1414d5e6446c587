-- ===== src/Solana.antt =====
-- The Solana runtime and the Anchor framework as the programs see them: accounts, instructions and
-- cross-program invocation. The runtime is not part of the repository: `Runtime` is a parameter of
-- every definition that calls it.
pub mod Privileges
use bot_flash_loan.Prelude.{ℕ, Bool, true, false, List, Result}
use bot_flash_loan.Word.{Bytes}

-- An account's address; addresses are only compared.
abbrev pub Pubkey : Type 0
Pubkey = ℕ

-- What the runtime tells a program about an account that the caller passed.
pub record AccountInfo : Type 0 where
  pub key : Pubkey
  pub is_signer : Bool
  pub is_writable : Bool
  pub executable : Bool

-- How an instruction asks for an account.
pub record AccountMeta : Type 0 where
  pub pubkey : Pubkey
  pub is_signer : Bool
  pub is_writable : Bool

pub record Instruction : Type 0 where
  pub program_id : Pubkey
  pub accounts : List AccountMeta
  pub payload : Bytes

abbrev pub writable_meta : Pubkey → Bool → AccountMeta
writable_meta k s = record { pubkey = k; is_signer = s; is_writable = true }

abbrev pub readonly_meta : Pubkey → Bool → AccountMeta
readonly_meta k s = record { pubkey = k; is_signer = s; is_writable = false }

-- `invoke` runs another program on the given accounts, and `amount` is the SPL token accessor, which
-- reads the balance that is stored in a token account. Both may fail; `World` is the state of all
-- accounts, which only the runtime and other programs change.
pub record Runtime (E World : Type 0) : Type 0 where
  pub invoke : Instruction → List AccountInfo → World → Result E World
  pub amount : AccountInfo → World → Result E ℕ
