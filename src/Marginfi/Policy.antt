-- ===== src/Marginfi/Policy.antt =====
-- Which banks an account or an instruction may use: asset tags and the operational state of a bank,
-- of marginfi-v2/programs/marginfi/src/utils/general.rs.
pub mod Tags
use bot_flash_loan.Prelude.{
  ℕ, Bool, true, false, not, ◌&&◌, ◌||◌, List, [], ◌∷◌, Result, ok, err, check, ◌>>=◌, ◌>>◌, ◌==◌,
  if◌then◌else◌,
}
use bot_flash_loan.Marginfi.Error.{MarginfiError}
use bot_flash_loan.Marginfi.Account.{Failure, marginfi, panic, Balance, is_active}
use bot_flash_loan.Marginfi.Bank.{
  Bank, BankOperationalState, paused, operational, reduce_only, killed_by_bankruptcy,
}

-- `ASSET_TAG_SOL` and `ASSET_TAG_STAKED`.
abbrev pub asset_tag_sol : ℕ
asset_tag_sol = 1

abbrev pub asset_tag_staked : ℕ
asset_tag_staked = 2

-- Default, Kamino, Drift or Solend.
abbrev pub is_default_like : ℕ → Bool
is_default_like tag = tag == 0 || tag == 3 || tag == 4 || tag == 5

abbrev pub is_staked : ℕ → Bool
is_staked tag = tag == asset_tag_staked

-- The loop of `validate_asset_tags`: `has_default_asset` and `has_staked_asset` after it. A tag it
-- does not know panics.
unfoldable pub scan_tags : Bool → Bool → List Balance → Result Failure (Bool × Bool)
scan_tags has_default_asset has_staked_asset [] = ok (has_default_asset, has_staked_asset)
scan_tags has_default_asset has_staked_asset (b ∷ bs) =
    let skip = scan_tags has_default_asset has_staked_asset bs in
    let default = scan_tags true has_staked_asset bs in
    let staked = scan_tags has_default_asset true bs in
    if not (is_active b)
    then skip
    else if is_default_like b.bank_asset_tag
    then default
    else if b.bank_asset_tag == asset_tag_sol
    then skip
    else if is_staked b.bank_asset_tag
    then staked
    else err panic

unfoldable pub validate_asset_tags : Bank → List Balance → Result Failure (Unit {0})
validate_asset_tags bank bs = do
  has ← scan_tags false false bs
  check (not (is_default_like bank.config.asset_tag && has.1))
      (marginfi MarginfiError.asset_tag_mismatch)
  check (not (is_staked bank.config.asset_tag && has.0)) (marginfi MarginfiError.asset_tag_mismatch)

unfoldable pub validate_bank_asset_tags : Bank → Bank → Result Failure (Unit {0})
validate_bank_asset_tags a b = do
  check (not (is_default_like a.config.asset_tag && is_staked b.config.asset_tag))
      (marginfi MarginfiError.asset_tag_mismatch)
  check (not (is_staked a.config.asset_tag && is_default_like b.config.asset_tag))
      (marginfi MarginfiError.asset_tag_mismatch)

pub data InstructionKind : Type 0 where
  unrestricted fails_in_reduce_state : InstructionKind
  fails_in_paused_state fails_if_paused_or_reduce_state : InstructionKind

-- The `match` on the kind, for a bank that is not killed.
abbrev pub kind_allows : InstructionKind → BankOperationalState → Result Failure (Unit {0})
kind_allows fails_in_reduce_state reduce_only = err (marginfi MarginfiError.bank_reduce_only)
kind_allows fails_in_paused_state paused = err (marginfi MarginfiError.bank_paused)
kind_allows fails_if_paused_or_reduce_state paused = err (marginfi MarginfiError.bank_paused)
kind_allows fails_if_paused_or_reduce_state reduce_only =
    err (marginfi MarginfiError.bank_reduce_only)
kind_allows _ _ = ok tt

abbrev pub is_killed : BankOperationalState → Bool
is_killed killed_by_bankruptcy = true
is_killed _ = false

unfoldable pub validate_bank_state : Bank → InstructionKind → Result Failure (Unit {0})
validate_bank_state bank kind = do
  check (not (is_killed bank.config.operational_state))
      (marginfi MarginfiError.bank_killed_by_bankruptcy)
  kind_allows kind bank.config.operational_state
