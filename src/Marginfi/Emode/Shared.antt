-- ===== src/Marginfi/Emode/Shared.antt =====
-- What users who borrow from several banks get: the entries that `reconcile_emode_configs` (Emode)
-- makes of the banks' configurations.
use bot_flash_loan.Prelude.{
  ℕ, suc, ◌+◌, ◌-◌, ◌≤◌, ◌<◌, ◌≡◌, inl, inr, refl, sym, ap, ◌∙◌, true, Option-cases, List, [], ◌∷◌,
  ◌++◌, Option, none, some, ok, Every, every_none, every_next, Every-map, leb, ltb, min,
  if◌then◌else◌, length, arith,
}
use bot_flash_loan.Marginfi.Fixed.{min_fixed}
use bot_flash_loan.Marginfi.Emode.{
  EmodeEntry, EmodeConfig, MergedEntry, MergedEntries, see, merge_entries, merge_cfg, merge_all,
  seen_times, find_tag, find_with_tag, sort_by_tag, padding, from_entries, reconcile_emode_configs,
}
use bot_flash_loan.Marginfi.Emode.Trees.{lookup, Ordered, ordered_none}
use bot_flash_loan.Marginfi.Emode.Merging.{Deduped, bump, merge_cfg-Ordered, lookup-merge_cfg}
use bot_flash_loan.Marginfi.Emode.Survivors.{
  Keyed, pick, merge_cfg-Keyed, find_tag-seen_times, seen_times-Ascending, sort_by_tag-Ascending,
  find_tag-append-padding, at_most_ten,
}

-- A configuration as banks keep it: ten entries, and no two of one tag.
pub record Wellformed (c : EmodeConfig) : Type 0 where
  pub full : length c.entries ≡ 10
  pub deduped : Deduped c.entries

-- Of two entries of a tag, the lower flags and the lower weights.
unfoldable pub weakest : EmodeEntry → EmodeEntry → EmodeEntry
weakest e f = record {
  collateral_bank_emode_tag = e.collateral_bank_emode_tag;
  flags = min e.flags f.flags;
  asset_weight_init = min_fixed e.asset_weight_init f.asset_weight_init;
  asset_weight_maint = min_fixed e.asset_weight_maint f.asset_weight_maint;
}

lower : (a b : ℕ) → (if ltb b a then b else a) ≡ min a b
lower a b = grind arith

merge_entries-eq-weakest : (e f : EmodeEntry) → merge_entries e f ≡ weakest e f
unfolding merge_entries weakest
merge_entries-eq-weakest e f = ap (λ n. record (weakest e f) { flags = n }) (lower e.flags f.flags)

-- The least favourable of an entry and of what further configurations have for the tag, if they all
-- have it.
unfoldable pub least : ℕ → EmodeEntry → List EmodeConfig → Option EmodeEntry
least tag e [] = some e
least tag e (c ∷ cs) = elim (find_with_tag c tag) [
  | none ↦ none
  | some f ↦ least tag (weakest e f) cs
]

unfoldable pub shared_entry : ℕ → List EmodeConfig → Option EmodeEntry
shared_entry tag [] = none
shared_entry tag (c ∷ cs) = elim (find_with_tag c tag) [ none ↦ none | some e ↦ least tag e cs ]

-- What is seen of a tag through a list of configurations.
steps : ℕ → Option MergedEntry → List EmodeConfig → Option MergedEntry
steps k acc [] = acc
steps k acc (c ∷ cs) = steps k (bump acc (find_tag k c.entries)) cs

record Merged (cs : List EmodeConfig) (k : ℕ) (m m' : MergedEntries) : Type 0 where
  ordered : Ordered m'
  keyed : Keyed m'
  seen : lookup k m' ≡ steps k (lookup k m) cs

merge_all-Merged :
    (k : ℕ) (cs : List EmodeConfig) (m : MergedEntries)
    → 0 < k
    → Every Wellformed cs
    → Ordered m
    → Keyed m
    → Merged cs k m (merge_all cs m)
unfolding merge_all steps
merge_all-Merged k [] m p w o h = record { ordered = o; keyed = h; seen = refl }
merge_all-Merged k (c ∷ cs) m p (every_next w ws) o h =
    let rest =
      merge_all-Merged k cs (merge_cfg c.entries m) p ws (merge_cfg-Ordered c.entries m o)
        (merge_cfg-Keyed c.entries m h) in
    record {
      ordered = rest.ordered;
      keyed = rest.keyed;
      seen = rest.seen ∙ ap (λ l. steps k l cs) (lookup-merge_cfg k c.entries m p w.deduped o);
    }

-- A tag that has been missed once is not in every configuration.
steps-missed :
    (k : ℕ) (n : ℕ) (acc : MergedEntry) (cs : List EmodeConfig)
    → acc.seen + length cs < n
    → pick n (steps k (some acc) cs) ≡ none
unfolding steps pick bump
steps-missed k n acc [] h = ground (arith, h)
steps-missed k n acc (c ∷ cs) h = elim (Option-cases (find_tag k c.entries)) [
  | inl missing ↦ rw (missing) (steps-missed k n acc cs (omega (arith, h)))
  | inr (e, found) ↦ rw (found) (steps-missed k n (see e acc) cs (omega (arith, h)))
]

steps-never :
    (k : ℕ) (n : ℕ) (cs : List EmodeConfig) → length cs < n → pick n (steps k none cs) ≡ none
unfolding steps pick bump
steps-never k n [] h = refl
steps-never k n (c ∷ cs) h = elim (Option-cases (find_tag k c.entries)) [
  | inl missing ↦ rw (missing) (steps-never k n cs (omega (arith, h)))
  | inr (e, found) ↦
      rw (found) (steps-missed k n (record { entry = e; seen = 1 }) cs (omega (arith, h)))
]

find_with : (k : ℕ) (c : EmodeConfig) → 0 < k → find_with_tag c k ≡ find_tag k c.entries
unfolding find_with_tag
find_with k c p = ground (arith, p)

least-find :
    (k : ℕ) (e : EmodeEntry) (c : EmodeConfig) (cs : List EmodeConfig) (o : Option EmodeEntry)
    → 0 < k
    → find_tag k c.entries ≡ o
    → least k e (c ∷ cs) ≡ (elim o [ none ↦ none | some f ↦ least k (weakest e f) cs ])
unfolding least
least-find k e c cs o p h =
    ap (λ o. elim o [ none ↦ none | some f ↦ least k (weakest e f) cs ]) (find_with k c p ∙ h)

shared_entry-find :
    (k : ℕ) (c : EmodeConfig) (cs : List EmodeConfig) (o : Option EmodeEntry)
    → 0 < k
    → find_tag k c.entries ≡ o
    → shared_entry k (c ∷ cs) ≡ (elim o [ none ↦ none | some e ↦ least k e cs ])
unfolding shared_entry
shared_entry-find k c cs o p h =
    ap (λ o. elim o [ none ↦ none | some e ↦ least k e cs ]) (find_with k c p ∙ h)

steps-least :
    (k : ℕ) (acc : MergedEntry) (cs : List EmodeConfig)
    → 0 < k
    → pick (acc.seen + length cs) (steps k (some acc) cs) ≡ least k acc.entry cs
unfolding steps pick bump least
steps-least k acc [] p = ground arith
steps-least k acc (c ∷ cs) p = elim (Option-cases (find_tag k c.entries)) [
  | inl missing ↦
      rw (missing) (steps-missed k (acc.seen + suc (length cs)) acc cs (omega arith))
      ∙ sym (least-find k acc.entry c cs none p missing)
  | inr (e, found) ↦
      rw (found) (
        ap (λ n. pick n (steps k (some (see e acc)) cs)) (omega arith)
        ∙ steps-least k (see e acc) cs p
        ∙ ap (λ x. least k x cs) (merge_entries-eq-weakest acc.entry e))
      ∙ sym (least-find k acc.entry c cs (some e) p found)
]

-- The entry seen in all of the configurations is the least favourable one.
steps-shared :
    (k : ℕ) (c : EmodeConfig) (cs : List EmodeConfig)
    → 0 < k
    → pick (length (c ∷ cs)) (steps k none (c ∷ cs)) ≡ shared_entry k (c ∷ cs)
unfolding steps bump pick
steps-shared k c cs p = elim (Option-cases (find_tag k c.entries)) [
  | inl missing ↦
      rw (missing) (steps-never k (suc (length cs)) cs (omega arith))
      ∙ sym (shared_entry-find k c cs none p missing)
  | inr (e, found) ↦
      rw (found) (
        ap (λ n. pick n (steps k (some (record { entry = e; seen = 1 })) cs)) (omega arith)
        ∙ steps-least k (record { entry = e; seen = 1 }) cs p)
      ∙ sym (shared_entry-find k c cs (some e) p found)
]

le→leb : (a b : ℕ) → a ≤ b → leb a b ≡ true
le→leb a b h = ground (arith, h)

abbrev survivors : EmodeConfig → List EmodeConfig → List EmodeEntry
survivors c cs = seen_times (length (c ∷ cs)) (merge_all (c ∷ cs) [])

config_of : List EmodeEntry → EmodeConfig
config_of es = record { entries = sort_by_tag es ++ padding (10 - length es) }

reconciled :
    (c : EmodeConfig) (cs : List EmodeConfig)
    → Every Wellformed (c ∷ cs)
    → reconcile_emode_configs (c ∷ cs) ≡ ok (config_of (survivors c cs))
unfolding reconcile_emode_configs from_entries config_of
reconciled c cs w = rw (le→leb _ 10 (at_most_ten c cs (Every-map (λ c v. v.full) w))) refl

found :
    (k : ℕ) (c : EmodeConfig) (cs : List EmodeConfig)
    → 0 < k
    → Every Wellformed (c ∷ cs)
    → find_with_tag (config_of (survivors c cs)) k ≡ shared_entry k (c ∷ cs)
unfolding config_of Keyed lookup
found k c cs p w =
    let all = merge_all-Merged k (c ∷ cs) [] p w ordered_none every_none in
    find_with k (config_of (survivors c cs)) p
    ∙ find_tag-append-padding k (10 - length (survivors c cs)) (sort_by_tag (survivors c cs)) p
    ∙ ap (find_tag k) (
        sort_by_tag-Ascending (survivors c cs)
          (seen_times-Ascending (length (c ∷ cs)) (merge_all (c ∷ cs) []) all.ordered all.keyed))
    ∙ find_tag-seen_times k (length (c ∷ cs)) (merge_all (c ∷ cs) []) all.ordered all.keyed
    ∙ ap (pick (length (c ∷ cs))) all.seen
    ∙ steps-shared k c cs p

-- Reconciling the well-formed configurations of at least one bank returns a configuration, and never
-- has too many entries for it. For every tag it has the least favourable of the configurations'
-- entries of that tag, flags and both weights by themselves, if all of them have one, and none if
-- not.
pub reconcile_emode_configs-shared_entry :
    (c : EmodeConfig) (cs : List EmodeConfig) (tag : ℕ)
    → 0 < tag
    → Every Wellformed (c ∷ cs)
    → (r : EmodeConfig) × (reconcile_emode_configs (c ∷ cs) ≡ ok r)
      × (find_with_tag r tag ≡ shared_entry tag (c ∷ cs))
reconcile_emode_configs-shared_entry c cs tag p w =
    (config_of (survivors c cs), reconciled c cs w, found tag c cs p w)
