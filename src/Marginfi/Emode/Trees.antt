-- ===== src/Marginfi/Emode/Trees.antt =====
-- The ordered map of Emode as a function from keys, and the entries that it sees.
use bot_flash_loan.Prelude.{
  ℕ, ◌<◌, ◌≡◌, ◌≢◌, inl, inr, refl, true, Bool-cases, List, [], ◌∷◌, Option, none, some, Every,
  every_none, every_next, Every-map, ◌==◌, ltb, if◌then◌else◌, arith,
}
use bot_flash_loan.Marginfi.Emode.{modify_or_insert}

same_key : (key : ℕ) → (key == key) ≡ true
same_key key = ground arith

module _ {ℓ} {V : Type ℓ} where
  unfoldable pub lookup : ℕ → List (ℕ × V) → Option V
  lookup key [] = none
  lookup key (x ∷ xs) = let later = lookup key xs in if key == x.0 then some x.1 else later

  -- `and_modify` and `or_insert` on what a key has.
  abbrev pub changed : (V → V) → V → Option V → V
  changed change value none = value
  changed change value (some v) = change v

  -- Keys strictly ascend.
  pub data Ordered : List (ℕ × V) → Type ℓ where
    ordered_none : Ordered []
    ordered_next :
        {x : ℕ × V} {xs : List (ℕ × V)} → Every (λ y. x.0 < y.0) xs → Ordered xs → Ordered (x ∷ xs)

  pub lookup-none : (key : ℕ) (xs : List (ℕ × V)) → Every (λ y. key < y.0) xs → lookup key xs ≡ none
  unfolding lookup
  lookup-none key [] h = refl
  lookup-none key (x ∷ xs) (every_next h hs) = ground (arith, h, lookup-none key xs hs)

  pub modify_or_insert-Every {κ} :
      {P : ℕ × V → Type κ} (key : ℕ) (change : V → V) (value : V) (xs : List (ℕ × V))
      → P (key, value)
      → ((x : ℕ × V) → P x → P (x.0, change x.1))
      → Every P xs
      → Every P (modify_or_insert key change value xs)
  unfolding modify_or_insert
  modify_or_insert-Every key change value [] h f all = every_next h every_none
  modify_or_insert-Every key change value (x ∷ xs) h f (every_next here all) =
      elim (Bool-cases (key == x.0)) [
        | inl same ↦ rw (same) (every_next (f x here) all)
        | inr differs ↦ elim (Bool-cases (ltb key x.0)) [
          | inl less ↦ rw (differs, less) (every_next h (every_next here all))
          | inr more ↦
              rw (differs, more)
                (every_next here (modify_or_insert-Every key change value xs h f all))
        ]
      ]

  pub modify_or_insert-Ordered :
      (key : ℕ) (change : V → V) (value : V) (xs : List (ℕ × V))
      → Ordered xs
      → Ordered (modify_or_insert key change value xs)
  unfolding modify_or_insert
  modify_or_insert-Ordered key change value [] o = ordered_next every_none ordered_none
  modify_or_insert-Ordered key change value (x ∷ xs) (ordered_next below o) =
      elim (Bool-cases (key == x.0)) [
        | inl same ↦ rw (same) (ordered_next below o)
        | inr differs ↦ elim (Bool-cases (ltb key x.0)) [
          | inl less ↦
              rw (differs, less)
                (ordered_next
                  (every_next (ground (arith, less))
                    (Every-map (λ y h. ground (arith, less, h)) below))
                  (ordered_next below o))
          | inr more ↦
              rw (differs, more)
                (ordered_next
                  (modify_or_insert-Every key change value xs (ground (arith, differs, more))
                    (λ y h. h) below)
                  (modify_or_insert-Ordered key change value xs o))
        ]
      ]

  -- On ordered keys, the key has what the change made of it.
  pub lookup-modify_or_insert :
      (key : ℕ) (change : V → V) (value : V) (xs : List (ℕ × V))
      → Ordered xs
      → lookup key (modify_or_insert key change value xs)
        ≡ some (changed change value (lookup key xs))
  unfolding lookup modify_or_insert
  lookup-modify_or_insert key change value [] o = rw (same_key key) refl
  lookup-modify_or_insert key change value (x ∷ xs) (ordered_next below o) =
      elim (Bool-cases (key == x.0)) [
        | inl same ↦ rw (same, same) refl
        | inr differs ↦ elim (Bool-cases (ltb key x.0)) [
          | inl less ↦
              rw
                (
                  differs,
                  less,
                  same_key key,
                  lookup-none key xs (Every-map (λ y k. ground (arith, less, k)) below),
                )
                refl
          | inr more ↦ rw (differs, more, differs) (lookup-modify_or_insert key change value xs o)
        ]
      ]

  -- Every other key has what it had.
  pub lookup-modify_or_insert-others :
      (k key : ℕ) (change : V → V) (value : V) (xs : List (ℕ × V))
      → k ≢ key
      → lookup k (modify_or_insert key change value xs) ≡ lookup k xs
  unfolding lookup modify_or_insert
  lookup-modify_or_insert-others k key change value [] h = ground (arith, h)
  lookup-modify_or_insert-others k key change value (x ∷ xs) h =
      ground (arith, h, lookup-modify_or_insert-others k key change value xs h)
