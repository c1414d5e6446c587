-- ===== src/Marginfi/Emode/Classic.antt =====
-- The two ways to reconcile e-mode configurations (Emode) agree on the configurations that
-- `from_entries` builds.
use bot_flash_loan.Prelude.{
  ℕ, zero, suc, ◌-◌, ◌≤◌, ◌<◌, ◌≡◌, refl, sym, ap, ◌∙◌, true, false, List, [], ◌∷◌, ◌++◌, map, ok,
  Every, every_none, every_next, Every-map, ◌==◌, ltb, leb, length, length-append, arith,
}
use mathlib.Core.List.{append-nil, append_assoc}
use bot_flash_loan.Marginfi.Emode.{
  EmodeEntry, EmodeConfig, MergedEntry, MergedEntries, merge_cfg, merge_all, modify_or_insert,
  seen_times, padding, from_entries, is_empty, reconcile_emode_configs,
  reconcile_emode_configs_classic,
}
use bot_flash_loan.Marginfi.Emode.Merging.{put}
use bot_flash_loan.Marginfi.Emode.Survivors.{
  Ascending, ascending_next, sort_by_tag-Ascending, at_most_ten,
}

-- A configuration as `from_entries` builds it: at most ten entries by ascending tag, no two of one
-- tag, and empty ones after them.
pub record Canonical (c : EmodeConfig) : Type 0 where
  pub used : List EmodeEntry
  pub few : length used ≤ 10
  pub ascending : Ascending used
  pub tagged : Every (λ e. 0 < e.collateral_bank_emode_tag) used
  pub entries_are : c.entries ≡ used ++ padding (10 - length used)

length-padding : (n : ℕ) → length (padding n) ≡ n
unfolding padding
length-padding zero = refl
length-padding (suc n) = ap suc (length-padding n)

full : (c : EmodeConfig) → Canonical c → length c.entries ≡ 10
full c v =
    ap length v.entries_are
    ∙ length-append v.used (padding (10 - length v.used))
    ∙ omega (arith, length-padding (10 - length v.used), v.few)

abbrev one : EmodeEntry → ℕ × MergedEntry
one e = (e.collateral_bank_emode_tag, record { entry = e; seen = 1 })

put-last :
    (e : EmodeEntry) (m : MergedEntries)
    → Every (λ y. y.0 < e.collateral_bank_emode_tag) m
    → put e m ≡ m ++ one e ∷ []
unfolding modify_or_insert
put-last e [] h = refl
put-last e (x ∷ xs) (every_next h hs) =
    rw (same x.0 e.collateral_bank_emode_tag h, before x.0 e.collateral_bank_emode_tag h)
      (ap (λ l. x ∷ l) (put-last e xs hs))
  where
    same : (a b : ℕ) → a < b → (b == a) ≡ false
    same a b h = ground (arith, h)

    before : (a b : ℕ) → a < b → ltb b a ≡ false
    before a b h = ground (arith, h)

merge_cfg-append :
    (es fs : List EmodeEntry) (m : MergedEntries)
    → merge_cfg (es ++ fs) m ≡ merge_cfg fs (merge_cfg es m)
unfolding merge_cfg
merge_cfg-append [] fs m = refl
merge_cfg-append (e ∷ es) fs m = merge_cfg-append es fs _

merge_cfg-padding : (n : ℕ) (m : MergedEntries) → merge_cfg (padding n) m ≡ m
unfolding merge_cfg padding
merge_cfg-padding zero m = refl
merge_cfg-padding (suc n) m = merge_cfg-padding n m

Before : MergedEntries → List EmodeEntry → Type 0
Before m es = Every (λ y. Every (λ f. y.0 < f.collateral_bank_emode_tag) es) m

Every-head :
    {P : EmodeEntry → Type 0} {e : EmodeEntry} {es : List EmodeEntry} → Every P (e ∷ es) → P e
Every-head (every_next h hs) = h

Before-heads :
    (m : MergedEntries) (e : EmodeEntry) (es : List EmodeEntry)
    → Before m (e ∷ es)
    → Every (λ y. y.0 < e.collateral_bank_emode_tag) m
unfolding Before
Before-heads m e es b = Every-map (λ y h. Every-head h) b

Before-next :
    (m : MergedEntries) (e : EmodeEntry) (es : List EmodeEntry)
    → Before m (e ∷ es)
    → Every (λ f. e.collateral_bank_emode_tag < f.collateral_bank_emode_tag) es
    → Before (m ++ one e ∷ []) es
unfolding Before
Before-next [] e es b below = every_next below every_none
Before-next (x ∷ xs) e es (every_next (every_next h hs) b) below =
    every_next hs (Before-next xs e es b below)

merge_cfg-Ascending :
    (es : List EmodeEntry) (m : MergedEntries)
    → Ascending es
    → Every (λ e. 0 < e.collateral_bank_emode_tag) es
    → Before m es
    → merge_cfg es m ≡ m ++ map one es
unfolding merge_cfg
merge_cfg-Ascending [] m a t b = sym (append-nil m)
merge_cfg-Ascending (e ∷ es) m (ascending_next below a) (every_next t ts) b = rw (used e t) (
    ap (merge_cfg es) (put-last e m (Before-heads m e es b))
    ∙ merge_cfg-Ascending es (m ++ one e ∷ []) a ts (Before-next m e es b below)
    ∙ append_assoc m (one e ∷ []) (map one es))
  where
    used : (e : EmodeEntry) → 0 < e.collateral_bank_emode_tag → is_empty e ≡ false
    used e t = ground (arith, t)

seen_times-once : (es : List EmodeEntry) → seen_times 1 (map one es) ≡ es
unfolding seen_times
seen_times-once [] = refl
seen_times-once (e ∷ es) = ap (λ l. e ∷ l) (seen_times-once es)

merged_alone : (c : EmodeConfig) (v : Canonical c) → seen_times 1 (merge_all (c ∷ []) []) ≡ v.used
unfolding merge_all Before
merged_alone c v =
    ap (λ es. seen_times 1 (merge_cfg es [])) v.entries_are
    ∙ ap (seen_times 1) (merge_cfg-append v.used (padding (10 - length v.used)) [])
    ∙ ap (seen_times 1) (merge_cfg-padding (10 - length v.used) (merge_cfg v.used []))
    ∙ ap (seen_times 1) (merge_cfg-Ascending v.used [] v.ascending v.tagged every_none)
    ∙ seen_times-once v.used

le→leb : (a b : ℕ) → a ≤ b → leb a b ≡ true
le→leb a b h = ground (arith, h)

alone : (c : EmodeConfig) → Canonical c → reconcile_emode_configs (c ∷ []) ≡ ok c
unfolding reconcile_emode_configs from_entries
alone c v =
    rw (merged_alone c v, le→leb (length v.used) 10 v.few)
      (ap (λ es. ok (record { entries = es ++ padding (10 - length v.used) }))
          (sort_by_tag-Ascending v.used v.ascending)
        ∙ ap (λ es. ok (record { entries = es })) (sym v.entries_are))

-- On configurations as `from_entries` builds them, `reconcile_emode_configs` and
-- `reconcile_emode_configs_classic` return the same.
pub reconcile_emode_configs-classic :
    (cs : List EmodeConfig)
    → Every Canonical cs
    → reconcile_emode_configs cs ≡ reconcile_emode_configs_classic cs
unfolding reconcile_emode_configs_classic reconcile_emode_configs
reconcile_emode_configs-classic [] vs = refl
reconcile_emode_configs-classic (c ∷ []) (every_next v vs) = alone c v
reconcile_emode_configs-classic (c ∷ d ∷ ds) vs =
    rw (le→leb _ 10 (at_most_ten c (d ∷ ds) (Every-map full vs))) refl
