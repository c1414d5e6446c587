-- ===== src/Marginfi/Sysvar/Guards.antt =====
-- What the instruction guards let through.
use bot_flash_loan.Prelude.{
  ℕ, zero, suc, ◌≤◌, ◌≡◌, true, List, [], ◌∷◌, some, ok, arith, length, get_elem?, take,
}
use bot_flash_loan.Word.{Bytes}
use bot_flash_loan.Solana.{Instruction, Pubkey}
use bot_flash_loan.Marginfi.Sysvar.{contains_hash, validate_ixes_exclusive}

-- Where `validate_ixes_exclusive` succeeds, every instruction of the program, wherever it stands
-- in the list, has at least eight bytes, and the first eight are one of the expected
-- discriminators.
pub validate_ixes_exclusive-contains_hash :
    (ixs : List Instruction) (program_id : Pubkey) (hashes : List Bytes) (i : ℕ) (ix : Instruction)
    → validate_ixes_exclusive ixs program_id hashes ≡ ok tt
    → get_elem? ixs i ≡ some ix
    → ix.program_id ≡ program_id
    → (8 ≤ length ix.payload) × (contains_hash hashes (take 8 ix.payload) ≡ true)
unfolding validate_ixes_exclusive
validate_ixes_exclusive-contains_hash [] program_id hashes i ix h at_i own = absurd (ground arith)
validate_ixes_exclusive-contains_hash (x ∷ ixs) program_id hashes zero ix h at_i own = ground arith
validate_ixes_exclusive-contains_hash (x ∷ ixs) program_id hashes (suc i) ix h at_i own =
    ground (arith, validate_ixes_exclusive-contains_hash ixs program_id hashes i ix)
