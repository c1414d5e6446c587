-- ===== src/Marginfi/Emode.antt =====
-- E-mode, better weights for collateral that a bank names by a tag:
-- marginfi-v2/type-crate/src/types/emode.rs, with `update_emode_enabled` and `check_dupes` of
-- marginfi-v2/programs/marginfi/src/state/emode.rs. The standard library's `BTreeMap` is a list of
-- keys in ascending order with their values.
pub mod Trees
pub mod Merging
pub mod Survivors
pub mod Shared
pub mod Classic
pub mod Leverage
use bot_flash_loan.Prelude.{
  ℕ, zero, suc, ◌+◌, ◌-◌, Bool, true, false, not, ◌||◌, List, [], ◌∷◌, ◌++◌, map, Option, none,
  some, Result, ok, err, check, ◌>>=◌, ◌>>◌, ◌==◌, ltb, leb, length, if◌then◌else◌,
}
use bot_flash_loan.Prelude.Bits.{bit_and, bit_or}
use bot_flash_loan.Prelude.Int.{ℤ, pos, ltb_ℤ}
use bot_flash_loan.Marginfi.Error.{MarginfiError}
use bot_flash_loan.Marginfi.Fixed.{I80F48, zero_fixed}
use bot_flash_loan.Marginfi.Account.{Failure, marginfi, panic, not_u64}

pub record EmodeEntry : Type 0 where
  pub collateral_bank_emode_tag : ℕ
  pub flags : ℕ
  pub asset_weight_init : I80F48
  pub asset_weight_maint : I80F48

-- The array of `MAX_EMODE_ENTRIES` entries.
pub record EmodeConfig : Type 0 where
  pub entries : List EmodeEntry

pub record EmodeSettings : Type 0 where
  pub emode_tag : ℕ
  pub timestamp : ℤ
  pub flags : ℕ
  pub emode_config : EmodeConfig

abbrev pub emode_on : ℕ
emode_on = 1

abbrev pub max_emode_entries : ℕ
max_emode_entries = 10

abbrev pub emode_tag_empty : ℕ
emode_tag_empty = 0

abbrev pub tag_equals : EmodeEntry → ℕ → Bool
tag_equals e tag = e.collateral_bank_emode_tag == tag

abbrev pub is_empty : EmodeEntry → Bool
is_empty e = tag_equals e emode_tag_empty

abbrev pub zeroed_entry : EmodeEntry
zeroed_entry = record {
  collateral_bank_emode_tag = 0;
  flags = 0;
  asset_weight_init = zero_fixed;
  asset_weight_maint = zero_fixed;
}

unfoldable pub padding : ℕ → List EmodeEntry
padding zero = []
padding (suc n) = zeroed_entry ∷ padding n

-- `sort_by_key` by the tag, which is stable.
unfoldable pub insert_by_tag : EmodeEntry → List EmodeEntry → List EmodeEntry
insert_by_tag e [] = e ∷ []
insert_by_tag e (f ∷ fs) =
    let later = insert_by_tag e fs in
    if ltb f.collateral_bank_emode_tag e.collateral_bank_emode_tag then f ∷ later else e ∷ f ∷ fs

unfoldable pub sort_by_tag : List EmodeEntry → List EmodeEntry
sort_by_tag [] = []
sort_by_tag (e ∷ es) = insert_by_tag e (sort_by_tag es)

unfoldable pub from_entries : List EmodeEntry → Result Failure EmodeConfig
from_entries es = do
  check (leb (length es) max_emode_entries) panic
  ok (record { entries = sort_by_tag es ++ padding (max_emode_entries - length es) })

unfoldable pub find_tag : ℕ → List EmodeEntry → Option EmodeEntry
find_tag tag [] = none
find_tag tag (e ∷ es) = let later = find_tag tag es in if tag_equals e tag then some e else later

unfoldable pub find_with_tag : EmodeConfig → ℕ → Option EmodeEntry
find_with_tag c tag = if tag == emode_tag_empty then none else find_tag tag c.entries

unfoldable pub any_entry : List EmodeEntry → Bool
any_entry [] = false
any_entry (e ∷ es) = not (is_empty e) || any_entry es

unfoldable pub has_entries : EmodeConfig → Bool
has_entries c = any_entry c.entries

unfoldable pub update_emode_enabled : EmodeSettings → EmodeSettings
update_emode_enabled s =
    if has_entries s.emode_config
    then record s { flags = bit_or s.flags emode_on }
    else record s { flags = bit_and s.flags (not_u64 emode_on) }

abbrev pub is_enabled : EmodeSettings → Bool
is_enabled s = not (bit_and s.flags emode_on == 0)

unfoldable pub filled : List EmodeEntry → List EmodeEntry
filled [] = []
filled (e ∷ es) = let later = filled es in if is_empty e then later else e ∷ later

-- `windows(2).any(…)`
unfoldable pub any_equal_neighbours : List EmodeEntry → Bool
any_equal_neighbours [] = false
any_equal_neighbours (e ∷ []) = false
any_equal_neighbours (e ∷ f ∷ fs) =
    tag_equals e f.collateral_bank_emode_tag || any_equal_neighbours (f ∷ fs)

unfoldable pub check_dupes : EmodeConfig → Result Failure (Unit {0})
check_dupes c =
    check (not (any_equal_neighbours (filled c.entries))) (marginfi MarginfiError.bad_emode_config)

-- `entry(key).and_modify(change).or_insert(value)` of a `BTreeMap`.
module _ {ℓ} {V : Type ℓ} where
  unfoldable pub modify_or_insert : ℕ → (V → V) → V → List (ℕ × V) → List (ℕ × V)
  modify_or_insert key change value [] = (key, value) ∷ []
  modify_or_insert key change value (x ∷ xs) =
      let later = modify_or_insert key change value xs in
      if key == x.0
      then (x.0, change x.1) ∷ xs
      else if ltb key x.0
      then (key, value) ∷ x ∷ xs
      else x ∷ later

-- The entry kept so far of a tag, with how many have been seen.
pub record MergedEntry : Type 0 where
  pub entry : EmodeEntry
  pub seen : ℕ

abbrev pub lesser : I80F48 → I80F48 → I80F48
lesser cur new = if ltb_ℤ new cur then new else cur

-- The least favourable of two entries of one tag.
unfoldable pub merge_entries : EmodeEntry → EmodeEntry → EmodeEntry
merge_entries merged entry = record merged {
  flags = if ltb entry.flags merged.flags then entry.flags else merged.flags;
  asset_weight_init = lesser merged.asset_weight_init entry.asset_weight_init;
  asset_weight_maint = lesser merged.asset_weight_maint entry.asset_weight_maint;
}

abbrev pub MergedEntries : Type 0
MergedEntries = List (ℕ × MergedEntry)

abbrev pub see : EmodeEntry → MergedEntry → MergedEntry
see e m = record { entry = merge_entries m.entry e; seen = m.seen + 1 }

-- The loop over the entries of one configuration.
unfoldable pub merge_cfg : List EmodeEntry → MergedEntries → MergedEntries
merge_cfg [] merged = merged
merge_cfg (e ∷ es) merged = merge_cfg es (
    if is_empty e
    then merged
    else modify_or_insert e.collateral_bank_emode_tag (see e) (record { entry = e; seen = 1 })
        merged)

unfoldable pub merge_all : List EmodeConfig → MergedEntries → MergedEntries
merge_all [] merged = merged
merge_all (c ∷ cs) merged = merge_all cs (merge_cfg c.entries merged)

-- The entries of the tags that every configuration has.
unfoldable pub seen_times : ℕ → MergedEntries → List EmodeEntry
seen_times n [] = []
seen_times n (x ∷ xs) =
    let later = seen_times n xs in if x.1.seen == n then x.1.entry ∷ later else later

-- The buffer has room for `MAX_EMODE_ENTRIES` entries; writing one more panics.
unfoldable pub reconcile_emode_configs : List EmodeConfig → Result Failure EmodeConfig
reconcile_emode_configs [] = ok (record { entries = padding max_emode_entries })
reconcile_emode_configs (c ∷ cs) = do
  let buf = seen_times (length (c ∷ cs)) (merge_all (c ∷ cs) [])
  check (leb (length buf) max_emode_entries) panic
  from_entries buf

unfoldable pub reconcile_emode_configs_classic : List EmodeConfig → Result Failure EmodeConfig
reconcile_emode_configs_classic [] = ok (record { entries = padding max_emode_entries })
reconcile_emode_configs_classic (c ∷ []) = ok c
reconcile_emode_configs_classic (c ∷ d ∷ ds) =
    from_entries (seen_times (length (c ∷ d ∷ ds)) (merge_all (c ∷ d ∷ ds) []))
