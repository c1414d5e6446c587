-- ===== src/Marginfi/Sysvar.antt =====
-- The instruction guards of marginfi-v2/programs/marginfi/src/ix_utils.rs, over the instructions
-- sysvar: the top-level instructions of the running transaction and the index of the current one.
-- The sysvar and the stack height are the runtime's; an instruction sees them as `TxContext`.
pub mod Guards
use bot_flash_loan.Prelude.{
  ℕ, Bool, true, false, not, ◌&&◌, ◌||◌, Option, none, some, List, [], ◌∷◌, Result, ok, err, check,
  ok_or, ◌>>=◌, ◌>>◌, ◌==◌, if◌then◌else◌, ltb, length, get_elem?, take,
}
use bot_flash_loan.Word.{Bytes, eq_bytes}
use bot_flash_loan.Solana.{Instruction, Pubkey}
use bot_flash_loan.Marginfi.Error.{MarginfiError}
use bot_flash_loan.Marginfi.Account.{Failure, marginfi, program_error, panic}

pub record TxContext : Type 0 where
  pub instructions : List Instruction
  pub current_index : ℕ
  pub stack_height : ℕ

-- `ProgramError::InvalidArgument`, by its code.
abbrev pub invalid_argument : ℕ
invalid_argument = 2

abbrev pub transaction_level_stack_height : ℕ
transaction_level_stack_height = 1

abbrev pub load_instruction_at : TxContext → ℕ → Result Failure Instruction
load_instruction_at tx i = ok_or (get_elem? tx.instructions i) (program_error invalid_argument)

-- `&data[..8]`, which panics on shorter data.
abbrev pub discriminator : Instruction → Result Failure Bytes
discriminator ix = if ltb (length ix.payload) 8 then err panic else ok (take 8 ix.payload)

unfoldable pub validate_not_cpi_with_sysvar : Pubkey → TxContext → Result Failure ℕ
validate_not_cpi_with_sysvar mrgn_key tx = do
  current_ix ← load_instruction_at tx tx.current_index
  check (current_ix.program_id == mrgn_key) (marginfi MarginfiError.not_allowed_in_cpi)
  ok tx.current_index

unfoldable pub validate_not_cpi_by_stack_height : TxContext → Result Failure (Unit {0})
validate_not_cpi_by_stack_height tx =
    check (tx.stack_height == transaction_level_stack_height)
      (marginfi MarginfiError.not_allowed_in_cpi)

-- `allowed_ixs.contains(..)`
abbrev pub contains_ix : List (Pubkey × Bytes) → Pubkey → Bytes → Bool
contains_ix [] p d = false
contains_ix ((q, e) ∷ rest) p d = p == q && eq_bytes d e || contains_ix rest p d

module _ (compute_budget_key program_id : Pubkey) (expected_hash : Bytes)
    (allowed_ixs : List (Pubkey × Bytes)) where
  abbrev is_expected : Instruction → Bool
  is_expected ix = ix.program_id == program_id && eq_bytes (take 8 ix.payload) expected_hash

  -- The loop of `validate_ix_first`; the flag is `expected_ix_encountered`.
  unfoldable pub validate_ix_first_from : Bool → List Instruction → Result Failure (Unit {0})
  validate_ix_first_from encountered [] = check encountered (marginfi MarginfiError.start_not_first)
  validate_ix_first_from encountered (ix ∷ ixes) =
      let skip = validate_ix_first_from encountered ixes in
      let start = validate_ix_first_from true ixes in
      if ix.program_id == compute_budget_key
      then skip
      else if ltb (length ix.payload) 8
      then err (marginfi MarginfiError.start_not_first)
      else if not encountered
      then (if is_expected ix
          then start
          else if not (contains_ix allowed_ixs ix.program_id (take 8 ix.payload))
          then err (marginfi MarginfiError.start_not_first)
          else skip)
      else if is_expected ix
      then err (marginfi MarginfiError.start_repeats)
      else skip

  unfoldable pub validate_ix_first : List Instruction → Result Failure (Unit {0})
  unfolding validate_ix_first_from
  validate_ix_first = validate_ix_first_from false

-- `ixes.last()`
abbrev pub last : Instruction → List Instruction → Instruction
last ix [] = ix
last ix (next ∷ rest) = last next rest

-- The `unwrap` of an empty slice panics.
unfoldable pub validate_ix_last : List Instruction → Pubkey → Bytes → Result Failure (Unit {0})
validate_ix_last [] program_id expected_hash = err panic
validate_ix_last (ix ∷ ixes) program_id expected_hash =
    let last_ix = last ix ixes in
    if ltb (length last_ix.payload) 8
    then err (marginfi MarginfiError.end_not_last)
    else check (last_ix.program_id == program_id) (marginfi MarginfiError.end_not_last)
      >> check (eq_bytes (take 8 last_ix.payload) expected_hash)
          (marginfi MarginfiError.end_not_last)

abbrev pub contains_hash : List Bytes → Bytes → Bool
contains_hash [] d = false
contains_hash (h ∷ hs) d = eq_bytes h d || contains_hash hs d

unfoldable pub validate_ixes_exclusive :
    List Instruction → Pubkey → List Bytes → Result Failure (Unit {0})
validate_ixes_exclusive [] program_id expected_hashes = ok tt
validate_ixes_exclusive (ix ∷ ixes) program_id expected_hashes =
    let rest = validate_ixes_exclusive ixes program_id expected_hashes in
    if not (ix.program_id == program_id)
    then rest
    else if ltb (length ix.payload) 8
    then err panic
    else if contains_hash expected_hashes (take 8 ix.payload)
    then rest
    else err (marginfi MarginfiError.forbidden_ix)
