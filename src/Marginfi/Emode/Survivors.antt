-- ===== src/Marginfi/Emode/Survivors.antt =====
-- Which entries come out of the merged ones (Emode), and that there are not too many.
use bot_flash_loan.Prelude.{
  ℕ, zero, suc, ◌+◌, ◌*◌, ◌≤◌, ◌<◌, ◌≡◌, inl, inr, refl, sym, ap, ◌∙◌, false, Bool-cases, List, [],
  ◌∷◌, ◌++◌, Option, none, some, Every, every_none, every_next, Every-map, ◌==◌, ltb, length,
  if◌then◌else◌, arith,
}
use mathlib.Core.Path.{subst}
use bot_flash_loan.Marginfi.Emode.{
  EmodeEntry, EmodeConfig, MergedEntry, MergedEntries, is_empty, see, merge_entries, merge_cfg,
  merge_all, modify_or_insert, seen_times, find_tag, insert_by_tag, sort_by_tag, padding,
}
use bot_flash_loan.Marginfi.Emode.Trees.{lookup, Ordered, ordered_next, modify_or_insert-Every}
use bot_flash_loan.Marginfi.Emode.Merging.{put}

-- Each entry stands at its own tag.
unfoldable pub Keyed : MergedEntries → Type 0
Keyed m = Every (λ x. x.1.entry.collateral_bank_emode_tag ≡ x.0) m

pub merge_cfg-Keyed : (es : List EmodeEntry) (m : MergedEntries) → Keyed m → Keyed (merge_cfg es m)
unfolding merge_cfg Keyed merge_entries
merge_cfg-Keyed [] m h = h
merge_cfg-Keyed (e ∷ es) m h = elim (Bool-cases (is_empty e)) [
  | inl blank ↦ rw (blank) (merge_cfg-Keyed es m h)
  | inr used ↦ rw (used) (
      merge_cfg-Keyed es (put e m) (
        modify_or_insert-Every e.collateral_bank_emode_tag (see e) (record { entry = e; seen = 1 })
          m refl (λ x k. k) h))
]

-- What a key's entry comes to, if it has been seen `n` times.
unfoldable pub pick : ℕ → Option MergedEntry → Option EmodeEntry
pick n none = none
pick n (some x) = if x.seen == n then some x.entry else none

below_none :
    (k : ℕ) (n : ℕ) (m : MergedEntries)
    → Keyed m
    → Every (λ y. k < y.0) m
    → find_tag k (seen_times n m) ≡ none
unfolding find_tag seen_times Keyed
below_none k n [] h b = refl
below_none k n (x ∷ xs) (every_next h hs) (every_next b bs) =
    ground (arith, h, b, below_none k n xs hs bs)

pub find_tag-seen_times :
    (k n : ℕ) (m : MergedEntries)
    → Ordered m
    → Keyed m
    → find_tag k (seen_times n m) ≡ pick n (lookup k m)
unfolding find_tag seen_times lookup pick Keyed
find_tag-seen_times k n [] o h = refl
find_tag-seen_times k n (x ∷ xs) (ordered_next below o) (every_next h hs) = ground (
  arith,
  h,
  find_tag-seen_times k n xs o hs,
  λ (e : k ≡ x.0). below_none k n xs hs (Every-map (λ y b. omega (arith, b, e)) below),
)

-- Tags strictly ascend.
pub data Ascending : List EmodeEntry → Type 0 where
  ascending_none : Ascending []
  ascending_next :
      {e : EmodeEntry} {es : List EmodeEntry}
      → Every (λ f. e.collateral_bank_emode_tag < f.collateral_bank_emode_tag) es
      → Ascending es
      → Ascending (e ∷ es)

seen_times-Every :
    (k n : ℕ) (m : MergedEntries)
    → Keyed m
    → Every (λ y. k < y.0) m
    → Every (λ f. k < f.collateral_bank_emode_tag) (seen_times n m)
unfolding seen_times Keyed
seen_times-Every k n [] h b = every_none
seen_times-Every k n (x ∷ xs) (every_next h hs) (every_next b bs) =
    elim (Bool-cases (x.1.seen == n)) [
      | inl all ↦ rw (all) (every_next (omega (arith, h, b)) (seen_times-Every k n xs hs bs))
      | inr some_only ↦ rw (some_only) (seen_times-Every k n xs hs bs)
    ]

pub seen_times-Ascending :
    (n : ℕ) (m : MergedEntries) → Ordered m → Keyed m → Ascending (seen_times n m)
unfolding seen_times Keyed
seen_times-Ascending n [] o h = ascending_none
seen_times-Ascending n (x ∷ xs) (ordered_next below o) (every_next h hs) =
    elim (Bool-cases (x.1.seen == n)) [
      | inl all ↦ rw (all) (
          ascending_next
            (subst (λ t. Every (λ f. t < f.collateral_bank_emode_tag) (seen_times n xs)) (sym h)
              (seen_times-Every x.0 n xs hs below))
            (seen_times-Ascending n xs o hs))
      | inr some_only ↦ rw (some_only) (seen_times-Ascending n xs o hs)
    ]

insert_by_tag-front :
    (e : EmodeEntry) (es : List EmodeEntry)
    → Every (λ f. e.collateral_bank_emode_tag < f.collateral_bank_emode_tag) es
    → insert_by_tag e es ≡ e ∷ es
unfolding insert_by_tag
insert_by_tag-front e [] h = refl
insert_by_tag-front e (f ∷ fs) (every_next h hs) =
    rw (not_before e.collateral_bank_emode_tag f.collateral_bank_emode_tag h) refl
  where
    not_before : (a b : ℕ) → a < b → ltb b a ≡ false
    not_before a b h = ground (arith, h)

-- Ascending entries are sorted.
pub sort_by_tag-Ascending : (es : List EmodeEntry) → Ascending es → sort_by_tag es ≡ es
unfolding sort_by_tag
sort_by_tag-Ascending [] a = refl
sort_by_tag-Ascending (e ∷ es) (ascending_next below a) =
    ap (insert_by_tag e) (sort_by_tag-Ascending es a) ∙ insert_by_tag-front e es below

find_tag-padding : (k n : ℕ) → 0 < k → find_tag k (padding n) ≡ none
unfolding find_tag padding
find_tag-padding k zero p = refl
find_tag-padding k (suc n) p = ground (arith, p, find_tag-padding k n p)

-- Padding has no entry.
pub find_tag-append-padding :
    (k n : ℕ) (es : List EmodeEntry) → 0 < k → find_tag k (es ++ padding n) ≡ find_tag k es
unfolding find_tag
find_tag-append-padding k n [] p = find_tag-padding k n p
find_tag-append-padding k n (e ∷ es) p = ground (arith, find_tag-append-padding k n es p)

total : MergedEntries → ℕ
total [] = 0
total (x ∷ xs) = x.1.seen + total xs

total-put : (e : EmodeEntry) (m : MergedEntries) → total (put e m) ≡ total m + 1
unfolding total modify_or_insert
total-put e [] = refl
total-put e (x ∷ xs) = ground (arith, total-put e xs)

total-merge_cfg :
    (es : List EmodeEntry) (m : MergedEntries) → total (merge_cfg es m) ≤ total m + length es
unfolding merge_cfg
total-merge_cfg [] m = omega arith
total-merge_cfg (e ∷ es) m = elim (Bool-cases (is_empty e)) [
  | inl blank ↦ rw (blank) (omega (arith, total-merge_cfg es m))
  | inr used ↦ rw (used) (omega (arith, total-merge_cfg es (put e m), total-put e m))
]

total-merge_all :
    (cs : List EmodeConfig) (m : MergedEntries)
    → Every (λ c. length c.entries ≡ 10) cs
    → total (merge_all cs m) ≤ total m + 10 * length cs
unfolding merge_all
total-merge_all [] m h = omega arith
total-merge_all (c ∷ cs) m (every_next h hs) =
    omega (arith, h, total-merge_cfg c.entries m, total-merge_all cs (merge_cfg c.entries m) hs)

seen_times-total : (n : ℕ) (m : MergedEntries) → length (seen_times n m) * n ≤ total m
unfolding seen_times total
seen_times-total n [] = omega arith
seen_times-total n (x ∷ xs) = elim (Bool-cases (x.1.seen == n)) [
  | inl all ↦ rw (all) (grind (arith, all, seen_times-total n xs))
  | inr some_only ↦ rw (some_only) (omega (arith, seen_times-total n xs))
]

few : (l n t : ℕ) → l * suc n ≤ t → t ≤ 10 * suc n → l ≤ 10
few l n t h k = grind (arith, h, k)

-- A tag that survives is seen once for configuration, so at most ten do.
pub at_most_ten :
    (c : EmodeConfig) (cs : List EmodeConfig)
    → Every (λ c. length c.entries ≡ 10) (c ∷ cs)
    → length (seen_times (length (c ∷ cs)) (merge_all (c ∷ cs) [])) ≤ 10
unfolding total
at_most_ten c cs h =
    few _ (length cs) (total (merge_all (c ∷ cs) []))
      (seen_times-total (length (c ∷ cs)) (merge_all (c ∷ cs) []))
      (omega (arith, total-merge_all (c ∷ cs) [] h))
