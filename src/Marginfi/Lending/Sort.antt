-- ===== src/Marginfi/Lending/Sort.antt =====
-- `sort_balances` (Lending) keeps an account's balances and puts them in order.
use mathlib.Core.List.Perm
use mathlib.Core.List.{Perm}
use bot_flash_loan.Prelude.{
  ℕ, ◌≤◌, List, [], ◌∷◌, Every, every_none, every_next, Every-map, ltb, Bool-cases, inl, inr, arith,
}
use bot_flash_loan.Marginfi.Account.{Balance}
use bot_flash_loan.Marginfi.Lending.{insert, sort_balances}

-- No balance has a smaller bank key than a later one.
pub data Descending : List Balance → Type 0 where
  descending_none : Descending []
  descending_next :
      {b : Balance} {bs : List Balance}
      → Every (λ c. c.bank_pk ≤ b.bank_pk) bs
      → Descending bs
      → Descending (b ∷ bs)

insert-Perm : (b : Balance) (bs : List Balance) → Perm (insert b bs) (b ∷ bs)
unfolding insert
insert-Perm b [] = Perm.refl (b ∷ [])
insert-Perm b (c ∷ cs) = elim (Bool-cases (ltb b.bank_pk c.bank_pk)) [
  | inl below ↦ rw (below) (Perm.trans (Perm.cons c (insert-Perm b cs)) (Perm.swap b c cs))
  | inr above ↦ rw (above) (Perm.refl (b ∷ c ∷ cs))
]

insert-Every :
    (k : ℕ) (b : Balance) (bs : List Balance)
    → b.bank_pk ≤ k
    → Every (λ c. c.bank_pk ≤ k) bs
    → Every (λ c. c.bank_pk ≤ k) (insert b bs)
unfolding insert
insert-Every k b [] h all = every_next h every_none
insert-Every k b (c ∷ cs) h (every_next here all) = elim (Bool-cases (ltb b.bank_pk c.bank_pk)) [
  | inl below ↦ rw (below) (every_next here (insert-Every k b cs h all))
  | inr above ↦ rw (above) (every_next h (every_next here all))
]

insert-Descending : (b : Balance) (bs : List Balance) → Descending bs → Descending (insert b bs)
unfolding insert
insert-Descending b [] d = descending_next every_none descending_none
insert-Descending b (c ∷ cs) (descending_next below d) =
    elim (Bool-cases (ltb b.bank_pk c.bank_pk)) [
      | inl less ↦ rw (less) (
          descending_next (insert-Every c.bank_pk b cs (ground (arith, less)) below)
            (insert-Descending b cs d))
      | inr more ↦ rw (more) (
          descending_next
            (every_next (ground (arith, more)) (Every-map (λ x h. ground (arith, more, h)) below))
            (descending_next below d))
    ]

sort_balances-Descending : (bs : List Balance) → Descending (sort_balances bs)
unfolding sort_balances
sort_balances-Descending [] = descending_none
sort_balances-Descending (b ∷ bs) =
    insert-Descending b (sort_balances bs) (sort_balances-Descending bs)

sort_balances-Perm : (bs : List Balance) → Perm (sort_balances bs) bs
unfolding sort_balances
sort_balances-Perm [] = Perm.refl []
sort_balances-Perm (b ∷ bs) =
    Perm.trans (insert-Perm b (sort_balances bs)) (Perm.cons b (sort_balances-Perm bs))

-- Sorting an account's balances keeps every balance as often as it occurs, and puts none behind one
-- with a smaller bank key.
pub sort_balances_sorts :
    (bs : List Balance) → Perm (sort_balances bs) bs × Descending (sort_balances bs)
sort_balances_sorts bs = (sort_balances-Perm bs, sort_balances-Descending bs)
