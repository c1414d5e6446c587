-- ===== src/Marginfi/Wrapper/Slots/Lookup.antt =====
-- What `find_or_create` finds or creates, `find` finds again (Wrapper/Slots).
use mathlib.Core.Path.{subst}
use bot_flash_loan.Prelude.{
  ℕ, zero, suc, ◌≡◌, ◌≢◌, refl, Bool, true, not, Option-cases, inl, inr, none, some, List, [], ◌∷◌,
  ok, check, ok_or, >>=-eq-ok, ok-injective, get_elem?, arith, ltb, ◌||◌,
}
use bot_flash_loan.Solana.{Pubkey}
use bot_flash_loan.Marginfi.Account.{Failure, Balance, is_active}
use bot_flash_loan.Marginfi.Bank.{Bank}
use bot_flash_loan.Marginfi.Wrapper.Slots.{
  position, count, set_balance, is_of, is_integration, is_integration_asset_tag,
  max_integration_positions, get_first_empty_balance, find, created, create, find_or_create,
}

-- Writing into the first free place a balance that is the only one with `p`.
position-set_balance :
    (p q : Balance → Bool) (bs : List Balance) (i : ℕ) (x : Balance)
    → position p bs ≡ none
    → position q bs ≡ some i
    → p x ≡ true
    → position p (set_balance bs i x) ≡ some i
unfolding position set_balance
position-set_balance p q [] i x absent free is = cc
position-set_balance p q (b ∷ bs) zero x absent free is = ground arith
position-set_balance p q (b ∷ bs) (suc i) x absent free is =
    ground (arith, position-set_balance p q bs i x, absent, free, is)

get_elem?-set_balance :
    (bs : List Balance) (i j : ℕ) (x : Balance)
    → j ≢ i
    → get_elem? (set_balance bs i x) j ≡ get_elem? bs j
unfolding set_balance
get_elem?-set_balance [] i j x other = refl
get_elem?-set_balance (b ∷ bs) zero zero x other = absurd (other refl)
get_elem?-set_balance (b ∷ bs) zero (suc j) x other = refl
get_elem?-set_balance (b ∷ bs) (suc i) zero x other = refl
get_elem?-set_balance (b ∷ bs) (suc i) (suc j) x other =
    get_elem?-set_balance bs i j x (λ e. other (rw e))

created-is_of :
    (now : ℕ) (bank_pk : Pubkey) (bank : Bank) → is_of bank_pk (created now bank_pk bank) ≡ true
created-is_of now bank_pk bank = ground arith

-- The balances after, against those before: `find` finds the returned place, no other changed.
record Placed (bank_pk : Pubkey) (bs : List Balance) (i : ℕ) (bs' : List Balance) : Type 0 where
  pub found : find bank_pk bs' ≡ ok i
  pub others_kept : (j : ℕ) → j ≢ i → get_elem? bs' j ≡ get_elem? bs j

create-Placed :
    (now : ℕ) (bank_pk : Pubkey) (bank : Bank) (bs bs' : List Balance) (i : ℕ)
    → position (is_of bank_pk) bs ≡ none
    → create now bank_pk bank bs ≡ ok (i, bs')
    → Placed bank_pk bs i bs'
unfolding create get_first_empty_balance find
create-Placed now bank_pk bank bs bs' i absent h =
    let (_, _, h₁) =
      >>=-eq-ok
        (check
          (not (is_integration_asset_tag bank.config.asset_tag)
            || ltb (count is_integration bs) max_integration_positions)
          _)
        _ h in
    let (k, free, h₂) = >>=-eq-ok (ok_or (position (λ b. not (is_active b)) bs) _) _ h₁ in
    placed k (first_empty _ free) (ok-injective h₂)
  where
    first_empty :
        {k : ℕ} (e : Failure)
        → ok_or (position (λ b. not (is_active b)) bs) e ≡ ok k
        → position (λ b. not (is_active b)) bs ≡ some k
    first_empty e free = ground arith

    placed :
        (k : ℕ)
        → position (λ b. not (is_active b)) bs ≡ some k
        → ◌≡◌ {A = ℕ × List Balance} (k, set_balance bs k (created now bank_pk bank)) (i, bs')
        → Placed bank_pk bs i bs'
    placed k free whole =
        subst (λ p. Placed bank_pk bs p.0 p.1) whole
          (record {
            found =
                rw
                  (position-set_balance (is_of bank_pk) (λ b. not (is_active b)) bs k
                    (created now bank_pk bank) absent free (created-is_of now bank_pk bank))
                  refl;
            others_kept = λ j. get_elem?-set_balance bs k j (created now bank_pk bank);
          })

module _ (now : ℕ) (bank_pk : Pubkey) (bank : Bank) (bs : List Balance) where
  existing-Placed :
      (k i : ℕ) (bs' : List Balance)
      → position (is_of bank_pk) bs ≡ some k
      → ◌≡◌ {A = ℕ × List Balance} (k, bs) (i, bs')
      → Placed bank_pk bs i bs'
  unfolding find
  existing-Placed k i bs' there whole =
      subst (λ p. Placed bank_pk bs p.0 p.1) whole
        (record { found = rw there refl; others_kept = λ j other. refl })

  find_or_create-Placed :
      (i : ℕ) (bs' : List Balance)
      → find_or_create now bank_pk bank bs ≡ ok (i, bs')
      → Placed bank_pk bs i bs'
  unfolding find_or_create
  find_or_create-Placed i bs' h = elim (Option-cases (position (is_of bank_pk) bs)) [
    | inl absent ↦ create-Placed now bank_pk bank bs bs' i absent (rw (absent, find_or_create) at h)
    | inr (k, there) ↦
        existing-Placed k i bs' there (ok-injective (rw (there, find_or_create) at h))
  ]

  -- After `find_or_create` succeeds, `find` returns the same place for the bank.
  pub find_or_create-find :
      (i : ℕ) (bs' : List Balance)
      → find_or_create now bank_pk bank bs ≡ ok (i, bs')
      → find bank_pk bs' ≡ ok i
  find_or_create-find i bs' h = (find_or_create-Placed i bs' h).found

  -- `find_or_create`, when it succeeds, changes no balance but the one at the place it returns.
  pub find_or_create-others_kept :
      (i : ℕ) (bs' : List Balance) (j : ℕ)
      → find_or_create now bank_pk bank bs ≡ ok (i, bs')
      → j ≢ i
      → get_elem? bs' j ≡ get_elem? bs j
  find_or_create-others_kept i bs' j h other = (find_or_create-Placed i bs' h).others_kept j other
