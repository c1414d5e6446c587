-- ===== src/Marginfi/Admin/Entries.antt =====
-- The e-mode entries that `lending_pool_configure_bank_emode` (Admin) lets a bank have.
use bot_flash_loan.Prelude.{
  ℕ, suc, ◌≤◌, ◌<◌, ◌≡◌, ◌⊎◌, refl, sym, ap, ◌∙◌, true, false, Bool-cases, inl, inr, List, [], ◌∷◌,
  ok, >>=-eq-ok, ok-injective, Every, every_none, every_next, Every-map, ltb, length, arith,
}
use mathlib.Core.Path.{subst}
use bot_flash_loan.Prelude.Int.{ℤ}
use bot_flash_loan.Marginfi.Fixed.{Fixed, I80F48}
use bot_flash_loan.Marginfi.Bank.{Bank}
use bot_flash_loan.Marginfi.Emode.{
  EmodeEntry, EmodeSettings, is_empty, insert_by_tag, sort_by_tag, filled, any_equal_neighbours,
  check_dupes, update_emode_enabled, has_entries,
}
use bot_flash_loan.Marginfi.Emode.Merging.{Deduped, deduped_none, deduped_empty, deduped_next}
use bot_flash_loan.Marginfi.Emode.Survivors.{Ascending, ascending_none, ascending_next}
use bot_flash_loan.Marginfi.Emode.Shared.{Wellformed}
use bot_flash_loan.Marginfi.Emode.Leverage.{
  u32_to_basis, validate_entries, validate_entries_with_liability_weights,
}
use bot_flash_loan.Marginfi.Emode.Leverage.Limits.{
  Limited, validate_entries_with_liability_weights-Limited,
}
use bot_flash_loan.Marginfi.Admin.{
  BankAccounts, try_bank_accounts, lending_pool_configure_bank_emode,
}

-- No entry has a smaller tag than one before it.
pub data Sorted : List EmodeEntry → Type 0 where
  sorted_none : Sorted []
  sorted_next :
      {e : EmodeEntry} {es : List EmodeEntry}
      → Every (λ f. e.collateral_bank_emode_tag ≤ f.collateral_bank_emode_tag) es
      → Sorted es
      → Sorted (e ∷ es)

insert_by_tag-Every :
    (k : ℕ) (e : EmodeEntry) (es : List EmodeEntry)
    → k ≤ e.collateral_bank_emode_tag
    → Every (λ f. k ≤ f.collateral_bank_emode_tag) es
    → Every (λ f. k ≤ f.collateral_bank_emode_tag) (insert_by_tag e es)
unfolding insert_by_tag
insert_by_tag-Every k e [] h all = every_next h every_none
insert_by_tag-Every k e (f ∷ fs) h (every_next here all) =
    elim (Bool-cases (ltb f.collateral_bank_emode_tag e.collateral_bank_emode_tag)) [
      | inl after ↦ rw (after) (every_next here (insert_by_tag-Every k e fs h all))
      | inr before ↦ rw (before) (every_next h (every_next here all))
    ]

insert_by_tag-Sorted :
    (e : EmodeEntry) (es : List EmodeEntry) → Sorted es → Sorted (insert_by_tag e es)
unfolding insert_by_tag
insert_by_tag-Sorted e [] s = sorted_next every_none sorted_none
insert_by_tag-Sorted e (f ∷ fs) (sorted_next below s) =
    elim (Bool-cases (ltb f.collateral_bank_emode_tag e.collateral_bank_emode_tag)) [
      | inl after ↦ rw (after) (
          sorted_next
            (insert_by_tag-Every f.collateral_bank_emode_tag e fs (ground (arith, after)) below)
            (insert_by_tag-Sorted e fs s))
      | inr before ↦ rw (before) (
          sorted_next
            (every_next (ground (arith, before))
              (Every-map (λ x h. ground (arith, before, h)) below))
            (sorted_next below s))
    ]

sort_by_tag-Sorted : (es : List EmodeEntry) → Sorted (sort_by_tag es)
unfolding sort_by_tag
sort_by_tag-Sorted [] = sorted_none
sort_by_tag-Sorted (e ∷ es) = insert_by_tag-Sorted e (sort_by_tag es) (sort_by_tag-Sorted es)

length-insert_by_tag :
    (e : EmodeEntry) (es : List EmodeEntry) → length (insert_by_tag e es) ≡ suc (length es)
unfolding insert_by_tag
length-insert_by_tag e [] = refl
length-insert_by_tag e (f ∷ fs) =
    elim (Bool-cases (ltb f.collateral_bank_emode_tag e.collateral_bank_emode_tag)) [
      | inl after ↦ rw (after) (ap suc (length-insert_by_tag e fs))
      | inr before ↦ rw (before) refl
    ]

length-sort_by_tag : (es : List EmodeEntry) → length (sort_by_tag es) ≡ length es
unfolding sort_by_tag
length-sort_by_tag [] = refl
length-sort_by_tag (e ∷ es) =
    length-insert_by_tag e (sort_by_tag es) ∙ ap suc (length-sort_by_tag es)

filled-all :
    (es : List EmodeEntry) → Every (λ e. 0 < e.collateral_bank_emode_tag) es → filled es ≡ es
unfolding filled
filled-all [] h = refl
filled-all (e ∷ es) (every_next h hs) = rw (used e h) (ap (λ l. e ∷ l) (filled-all es hs))
  where
    used : (e : EmodeEntry) → 0 < e.collateral_bank_emode_tag → is_empty e ≡ false
    used e h = ground (arith, h)

prepend :
    (e f : EmodeEntry) (fs : List EmodeEntry)
    → e.collateral_bank_emode_tag < f.collateral_bank_emode_tag
    → Ascending (f ∷ fs)
    → Ascending (e ∷ f ∷ fs)
prepend e f fs h (ascending_next below a) =
    ascending_next (every_next h (Every-map (λ x k. omega (arith, h, k)) below))
      (ascending_next below a)

distinct_neighbours-Ascending :
    (es : List EmodeEntry) → Sorted es → any_equal_neighbours es ≡ false → Ascending es
unfolding any_equal_neighbours
distinct_neighbours-Ascending [] s h = ascending_none
distinct_neighbours-Ascending (e ∷ []) s h = ascending_next every_none ascending_none
distinct_neighbours-Ascending (e ∷ f ∷ fs) (sorted_next (every_next here below) s) h =
    prepend e f fs (ground (arith, here, h))
      (distinct_neighbours-Ascending (f ∷ fs) s (ground (arith, h)))

Ascending-Deduped : (es : List EmodeEntry) → Ascending es → Deduped es
Ascending-Deduped [] a = deduped_none
Ascending-Deduped (e ∷ es) (ascending_next below a) =
    deduped_next (Every-map (λ f h. ground (arith, h)) below) (Ascending-Deduped es a)

Sorted-Deduped :
    (es : List EmodeEntry) → Sorted es → any_equal_neighbours (filled es) ≡ false → Deduped es
unfolding filled
Sorted-Deduped [] s h = deduped_none
Sorted-Deduped (e ∷ es) (sorted_next below s) h = elim (Bool-cases (is_empty e)) [
  | inl blank ↦ deduped_empty blank (Sorted-Deduped es s (rw (blank) at h))
  | inr used ↦ Ascending-Deduped (e ∷ es) (
      distinct_neighbours-Ascending (e ∷ es) (sorted_next below s) (
        ap any_equal_neighbours (
          sym (
            filled-all (e ∷ es) (
              every_next (ground (arith, used))
                (Every-map (λ f k. ground (arith, used, k)) below))))
        ∙ h))
]

check_dupes-Deduped :
    (es : List EmodeEntry) → Sorted es → check_dupes (record { entries = es }) ≡ ok tt → Deduped es
unfolding check_dupes
check_dupes-Deduped es s h = Sorted-Deduped es s (ground (arith, h))

admitted :
    (a : BankAccounts)
    → try_bank_accounts a.group.emode_admin a ≡ ok tt
    → (a.signer ≡ a.group.emode_admin) × (a.bank.group ≡ a.group_key)
unfolding try_bank_accounts
admitted a h = (ground (arith, h), ground (arith, h))

-- The entries of a bank's e-mode after they were configured.
pub record EntriesConfigured (fx : Fixed) (a : BankAccounts) (b : Bank) : Type 0 where
  pub authorized : a.signer ≡ a.group.emode_admin
  pub same_group : a.bank.group ≡ a.group_key
  pub wellformed : Wellformed b.emode.emode_config
  pub ordered : Sorted b.emode.emode_config.entries
  pub max_init : I80F48
  pub max_maint : I80F48
  pub max_init_is : u32_to_basis fx a.group.emode_max_init_leverage ≡ ok max_init
  pub max_maint_is : u32_to_basis fx a.group.emode_max_maint_leverage ≡ ok max_maint
  pub limited :
      Every
        (λ e. (is_empty e ≡ true) ⊎ Limited fx b.config max_init max_maint e)
        b.emode.emode_config.entries

module _ (fx : Fixed) where
  passed_dupes :
      (a : BankAccounts) (s : EmodeSettings)
      → validate_entries_with_liability_weights fx s a.bank.config a.group.emode_max_init_leverage
          a.group.emode_max_maint_leverage
        ≡ ok tt
      → check_dupes s.emode_config ≡ ok tt
  unfolding validate_entries_with_liability_weights
  passed_dupes a s h =
      let (max_init, _, h₁) = >>=-eq-ok (u32_to_basis fx a.group.emode_max_init_leverage) _ h in
      let (max_maint, _, h₂) = >>=-eq-ok (u32_to_basis fx a.group.emode_max_maint_leverage) _ h₁ in
      let (_, _, h₃) =
        >>=-eq-ok (validate_entries fx a.bank.config max_init max_maint s.emode_config.entries) _
          h₂ in
      h₃

  enabled-config : (s : EmodeSettings) → (update_emode_enabled s).emode_config ≡ s.emode_config
  unfolding update_emode_enabled
  enabled-config s = elim (Bool-cases (has_entries s.emode_config)) [
    | inl some_entry ↦ rw (some_entry) refl
    | inr no_entry ↦ rw (no_entry) refl
  ]

  -- Configuring the e-mode of a bank with an array of ten entries, where it succeeds, was asked for by
  -- the e-mode admin of the bank's group, and leaves entries in the order of their tags and no two of
  -- one tag, so what holds of reconciled configurations without duplicates holds of those
  -- of such banks. Every entry in use counts its collateral for less than the debt that it backs, and
  -- its leverages are at most the group's limits.
  pub lending_pool_configure_bank_emode-Configured :
      (now : ℤ) (a : BankAccounts) (tag : ℕ) (entries : List EmodeEntry) (b : Bank)
      → length entries ≡ 10
      → lending_pool_configure_bank_emode fx now a tag entries ≡ ok b
      → EntriesConfigured fx a b
  unfolding lending_pool_configure_bank_emode
  lending_pool_configure_bank_emode-Configured now a tag entries b ten h =
      let emode : EmodeSettings = record a.bank.emode {
        emode_tag = tag;
        timestamp = now;
        emode_config = record { entries = sort_by_tag entries };
      } in
      let (_, e₁, h₁) = >>=-eq-ok (try_bank_accounts a.group.emode_admin a) _ h in
      let (_, e, h₂) =
        >>=-eq-ok
          (validate_entries_with_liability_weights fx emode a.bank.config
            a.group.emode_max_init_leverage a.group.emode_max_maint_leverage)
          _ h₁ in
      let (max_init, max_maint, i, m, limited) =
        validate_entries_with_liability_weights-Limited fx emode a.bank.config
          a.group.emode_max_init_leverage a.group.emode_max_maint_leverage e in
      let kept = sym (enabled-config emode) in
      subst (EntriesConfigured fx a) (ok-injective h₂) (record {
        authorized = (admitted a e₁).0;
        same_group = (admitted a e₁).1;
        ordered = subst (λ c. Sorted c.entries) kept (sort_by_tag-Sorted entries);
        wellformed = subst Wellformed kept (record {
          full = length-sort_by_tag entries ∙ ten;
          deduped =
              check_dupes-Deduped (sort_by_tag entries) (sort_by_tag-Sorted entries)
                (passed_dupes a emode e);
        });
        max_init = max_init;
        max_maint = max_maint;
        max_init_is = i;
        max_maint_is = m;
        limited =
            subst
              (λ c.
                Every (λ e. (is_empty e ≡ true) ⊎ Limited fx a.bank.config max_init max_maint e)
                  (c.entries))
              kept limited;
      })
