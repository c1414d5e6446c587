-- ===== src/Solana/Privileges.antt =====
-- What the runtime demands of a cross-program invocation: every account of the instruction is among
-- the accounts passed, and no privilege is asked for that the caller does not hold.
use bot_flash_loan.Prelude.{◌≡◌, true, not, ◌||◌, List, [], ◌∷◌}
use bot_flash_loan.Solana.{AccountInfo, AccountMeta}

-- The account passed is the one asked for, with at least the privileges asked for.
pub record Grants (i : AccountInfo) (m : AccountMeta) : Type 0 where
  pub same_key : i.key ≡ m.pubkey
  pub may_sign : (not m.is_signer || i.is_signer) ≡ true
  pub may_write : (not m.is_writable || i.is_writable) ≡ true

-- The two lists agree position by position.
abbrev pub Granted : List AccountInfo → List AccountMeta → Type 0
Granted [] [] = Unit
Granted (i ∷ is) (m ∷ ms) = Grants i m × Granted is ms
Granted _ _ = ⊥
