-- ===== src/Marginfi/Emode/Merging.antt =====
-- The loops that merge e-mode configurations (Emode), by what they leave at one tag.
use bot_flash_loan.Prelude.{
  ℕ, ◌<◌, ◌≡◌, inl, inr, refl, sym, ap, ◌∙◌, true, false, Bool-cases, List, [], ◌∷◌, Option, none,
  some, Every, every_next, arith,
}
use bot_flash_loan.Marginfi.Emode.{
  EmodeEntry, MergedEntry, MergedEntries, tag_equals, is_empty, see, merge_cfg, modify_or_insert,
  find_tag,
}
use bot_flash_loan.Marginfi.Emode.Trees.{
  lookup, Ordered, changed, modify_or_insert-Ordered, lookup-modify_or_insert,
  lookup-modify_or_insert-others,
}

-- No two entries of one tag, the empty ones aside.
pub data Deduped : List EmodeEntry → Type 0 where
  deduped_none : Deduped []
  deduped_empty :
      {e : EmodeEntry} {es : List EmodeEntry} → is_empty e ≡ true → Deduped es → Deduped (e ∷ es)
  deduped_next :
      {e : EmodeEntry} {es : List EmodeEntry}
      → Every (λ f. tag_equals f e.collateral_bank_emode_tag ≡ false) es
      → Deduped es
      → Deduped (e ∷ es)

-- One more entry of the tag is seen.
unfoldable pub bump : Option MergedEntry → Option EmodeEntry → Option MergedEntry
bump acc none = acc
bump none (some e) = some (record { entry = e; seen = 1 })
bump (some m) (some e) = some (see e m)

abbrev pub put : EmodeEntry → MergedEntries → MergedEntries
put e m = modify_or_insert e.collateral_bank_emode_tag (see e) (record { entry = e; seen = 1 }) m

find_tag-none :
    (k : ℕ) (es : List EmodeEntry) → Every (λ f. tag_equals f k ≡ false) es → find_tag k es ≡ none
unfolding find_tag
find_tag-none k [] h = refl
find_tag-none k (e ∷ es) (every_next h hs) = rw (h) (find_tag-none k es hs)

bump-changed :
    (e : EmodeEntry) (acc : Option MergedEntry)
    → ◌≡◌ {A = Option MergedEntry}
        (some (changed (see e) (record { entry = e; seen = 1 }) acc))
        (bump acc (some e))
unfolding bump
bump-changed e none = refl
bump-changed e (some m) = refl

lookup-put :
    (e : EmodeEntry) (m : MergedEntries)
    → Ordered m
    → lookup e.collateral_bank_emode_tag (put e m)
      ≡ bump (lookup e.collateral_bank_emode_tag m) (some e)
lookup-put e m o =
    lookup-modify_or_insert e.collateral_bank_emode_tag (see e) (record { entry = e; seen = 1 }) m o
    ∙ bump-changed e (lookup e.collateral_bank_emode_tag m)

lookup-put-others :
    (k : ℕ) (e : EmodeEntry) (m : MergedEntries)
    → tag_equals e k ≡ false
    → lookup k (put e m) ≡ lookup k m
lookup-put-others k e m h =
    lookup-modify_or_insert-others k e.collateral_bank_emode_tag (see e)
      (record { entry = e; seen = 1 }) m (ground (arith, h))

put-Ordered : (e : EmodeEntry) (m : MergedEntries) → Ordered m → Ordered (put e m)
put-Ordered e m o =
    modify_or_insert-Ordered e.collateral_bank_emode_tag (see e) (record { entry = e; seen = 1 }) m
      o

not_blank : (k : ℕ) (e : EmodeEntry) → 0 < k → is_empty e ≡ true → tag_equals e k ≡ false
not_blank k e p h = ground (arith, p, h)

pub merge_cfg-Ordered :
    (es : List EmodeEntry) (m : MergedEntries) → Ordered m → Ordered (merge_cfg es m)
unfolding merge_cfg
merge_cfg-Ordered [] m o = o
merge_cfg-Ordered (e ∷ es) m o = elim (Bool-cases (is_empty e)) [
  | inl blank ↦ rw (blank) (merge_cfg-Ordered es m o)
  | inr used ↦ rw (used) (merge_cfg-Ordered es (put e m) (put-Ordered e m o))
]

merge_cfg-absent :
    (k : ℕ) (es : List EmodeEntry) (m : MergedEntries)
    → Every (λ f. tag_equals f k ≡ false) es
    → lookup k (merge_cfg es m) ≡ lookup k m
unfolding merge_cfg
merge_cfg-absent k [] m h = refl
merge_cfg-absent k (e ∷ es) m (every_next h hs) = elim (Bool-cases (is_empty e)) [
  | inl blank ↦ rw (blank) (merge_cfg-absent k es m hs)
  | inr used ↦ rw (used) (merge_cfg-absent k es (put e m) hs ∙ lookup-put-others k e m h)
]

used : (k : ℕ) (e : EmodeEntry) → 0 < k → tag_equals e k ≡ true → is_empty e ≡ false
used k e p h = ground (arith, p, h)

tag_is : (k : ℕ) (e : EmodeEntry) → tag_equals e k ≡ true → e.collateral_bank_emode_tag ≡ k
tag_is k e h = ground (arith, h)

-- A configuration without duplicates adds the entry that it has for the tag.
pub lookup-merge_cfg :
    (k : ℕ) (es : List EmodeEntry) (m : MergedEntries)
    → 0 < k
    → Deduped es
    → Ordered m
    → lookup k (merge_cfg es m) ≡ bump (lookup k m) (find_tag k es)
unfolding merge_cfg find_tag bump
lookup-merge_cfg k [] m p d o = refl
lookup-merge_cfg k (e ∷ es) m p (deduped_empty blank d) o =
    rw (blank, not_blank k e p blank) (lookup-merge_cfg k es m p d o)
lookup-merge_cfg k (e ∷ es) m p (deduped_next h d) o = elim (Bool-cases (tag_equals e k)) [
  | inl same ↦
      rw (same, used k e p same)
        (ap (λ t. lookup t (merge_cfg es (put e m))) (sym (tag_is k e same))
          ∙ merge_cfg-absent e.collateral_bank_emode_tag es (put e m) h
          ∙ lookup-put e m o
          ∙ ap (λ t. bump (lookup t m) (some e)) (tag_is k e same))
  | inr differs ↦ elim (Bool-cases (is_empty e)) [
    | inl blank ↦ rw (differs, blank) (lookup-merge_cfg k es m p d o)
    | inr filled ↦
        rw (differs, filled)
          (lookup-merge_cfg k es (put e m) p d (put-Ordered e m o)
            ∙ ap (λ l. bump l (find_tag k es)) (lookup-put-others k e m differs))
  ]
]
