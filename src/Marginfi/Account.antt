-- ===== src/Marginfi/Account.antt =====
-- The user's account of MarginFi: marginfi-v2/type-crate/src/types/user_account.rs, with the flag
-- operations and guards of marginfi-v2/programs/marginfi/src/state/marginfi_account.rs. Padding,
-- the health cache, the emissions destination, migration and PDA fields are left out: no modelled
-- operation reads them.
pub mod Flags
use bot_flash_loan.Prelude.{
  ℕ, ◌+◌, ◌-◌, ◌^◌, Bool, true, false, not, ◌&&◌, ◌||◌, Option, none, some, List, [], ◌∷◌, Result,
  ok, err, ◌==◌, if◌then◌else◌,
}
use bot_flash_loan.Prelude.Bits.{mask, bit_and, bit_or}
use bot_flash_loan.Prelude.Int.{ltb_ℤ}
use bot_flash_loan.Solana.{Pubkey}
use bot_flash_loan.Marginfi.Error.{MarginfiError}
use bot_flash_loan.Marginfi.Fixed.{I80F48, zero_fixed, empty_balance_threshold, leb_fixed}

-- How an instruction fails: with an error of MarginFi, with one of the runtime (by its code), or by
-- a Rust panic.
pub data Failure : Type 0 where
  marginfi : MarginfiError → Failure
  program_error : ℕ → Failure
  panic : Failure

pub data BalanceSide : Type 0 where
  assets liabilities : BalanceSide

pub record Balance : Type 0 where
  pub active : ℕ
  pub bank_pk : Pubkey
  pub bank_asset_tag : ℕ
  pub asset_shares : I80F48
  pub liability_shares : I80F48
  pub emissions_outstanding : I80F48
  pub last_update : ℕ

pub record MarginfiAccount : Type 0 where
  pub group : Pubkey
  pub authority : Pubkey
  pub balances : List Balance
  pub account_flags : ℕ
  pub last_update : ℕ

abbrev pub account_disabled : ℕ
account_disabled = mask 0

abbrev pub account_in_flashloan : ℕ
account_in_flashloan = mask 1

abbrev pub account_in_receivership : ℕ
account_in_receivership = mask 4

abbrev pub account_in_deleverage : ℕ
account_in_deleverage = mask 5

abbrev pub account_frozen : ℕ
account_frozen = mask 6

abbrev pub is_active : Balance → Bool
is_active b = not (b.active == 0)

abbrev pub is_empty : Balance → BalanceSide → Bool
is_empty b assets = ltb_ℤ b.asset_shares empty_balance_threshold
is_empty b liabilities = ltb_ℤ b.liability_shares empty_balance_threshold

-- `get_side` asserts that one side is empty.
abbrev pub get_side : Balance → Result Failure (Option BalanceSide)
get_side b =
    if is_empty b assets || is_empty b liabilities
    then ok (
        if leb_fixed empty_balance_threshold b.liability_shares
        then some liabilities
        else if leb_fixed empty_balance_threshold b.asset_shares
        then some assets
        else none)
    else err panic

-- `Pubkey::default()`
abbrev pub default_pubkey : Pubkey
default_pubkey = 0

abbrev pub asset_tag_default : ℕ
asset_tag_default = 0

abbrev pub empty_deactivated : Balance
empty_deactivated = record {
  active = 0;
  bank_pk = default_pubkey;
  bank_asset_tag = asset_tag_default;
  asset_shares = zero_fixed;
  liability_shares = zero_fixed;
  emissions_outstanding = zero_fixed;
  last_update = 0;
}

-- `!flag` on a `u64`.
abbrev pub not_u64 : ℕ → ℕ
not_u64 flag = 2 ^ 64 - 1 - flag

unfoldable pub set_flag : MarginfiAccount → ℕ → MarginfiAccount
set_flag a flag = record a { account_flags = bit_or a.account_flags flag }

unfoldable pub unset_flag : MarginfiAccount → ℕ → MarginfiAccount
unset_flag a flag = record a { account_flags = bit_and a.account_flags (not_u64 flag) }

unfoldable pub get_flag : MarginfiAccount → ℕ → Bool
get_flag a flag = not (bit_and a.account_flags flag == 0)

unfoldable pub is_signer_authorized : MarginfiAccount → Pubkey → Pubkey → Bool → Bool
is_signer_authorized a group_admin signer allow_receivership =
    if allow_receivership && get_flag a account_in_receivership
    then true
    else if get_flag a account_frozen
    then group_admin == signer
    else a.authority == signer

unfoldable pub account_not_frozen_for_authority : MarginfiAccount → Pubkey → Bool
account_not_frozen_for_authority a signer = not (get_flag a account_frozen && a.authority == signer)

-- `self.balances.iter().all(|balance| balance.get_side().is_none())`, which stops at the first
-- balance that has a side.
abbrev pub all_sides_none : List Balance → Result Failure Bool
all_sides_none [] = ok true
all_sides_none (b ∷ bs) = elim (get_side b) [
  | ok none ↦ all_sides_none bs
  | ok (some s) ↦ ok false
  | err e ↦ err e
]

unfoldable pub can_be_closed : MarginfiAccount → Result Failure Bool
can_be_closed a = elim (all_sides_none a.balances) [
  | ok only_empty ↦ ok (
      not (get_flag a account_disabled)
      && only_empty
      && not (get_flag a account_in_flashloan)
      && not (get_flag a account_in_receivership))
  | err e ↦ err e
]
