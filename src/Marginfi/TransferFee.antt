-- ===== src/Marginfi/TransferFee.antt =====
-- What has to be sent of a token with a transfer fee, for an amount to arrive:
-- `calculate_pre_fee_amount` of marginfi-v2/programs/marginfi/src/utils/general.rs. Reading the fee
-- off the mint's account is not part of the model.
use native.Mathlib.Nat.{lt-div-mul-add, mul-sub, mul-le-mul_left}
use mathlib.Core.Path.{subst}
use bot_flash_loan.Prelude.{
  ℕ, ◌+◌, ◌-◌, ◌*◌, ◌/◌, ◌^◌, ◌≤◌, ◌<◌, ◌≡◌, ◌⊎◌, inl, inr, Option, none, some, ◌==◌, ltb, leb,
  checked_sub, if◌then◌else◌, arith,
}

pub record TransferFee : Type 0 where
  pub maximum_fee : ℕ
  pub transfer_fee_basis_points : ℕ

abbrev pub one_in_basis_points : ℕ
one_in_basis_points = 10000

-- A result that fits into `w` bits.
abbrev pub fitting : ℕ → ℕ → Option ℕ
fitting w n = if ltb n (2 ^ w) then some n else none

infixl 5 ◌>>=?◌
-- `?` on an `Option`.
abbrev pub ◌>>=?◌ : Option ℕ → (ℕ → Option ℕ) → Option ℕ
none >>=? f = none
some n >>=? f = f n

unfoldable pub ceil_div : ℕ → ℕ → Option ℕ
ceil_div numerator denominator = fitting 128 (numerator + denominator) >>=? λ sum.
    checked_sub sum 1 >>=? λ less. if denominator == 0 then none else some (less / denominator)

-- The last branch: a fee between 0 and 100%, of an amount that is not zero.
unfoldable pub pre_fee_between : TransferFee → ℕ → Option ℕ
pre_fee_between fee post_fee_amount =
    fitting 128 (post_fee_amount * one_in_basis_points) >>=? λ numerator.
    checked_sub one_in_basis_points fee.transfer_fee_basis_points >>=? λ denominator.
    ceil_div numerator denominator >>=? λ raw. checked_sub raw post_fee_amount >>=? λ difference.
    if leb fee.maximum_fee difference
    then fitting 64 (post_fee_amount + fee.maximum_fee)
    else fitting 64 raw

unfoldable pub calculate_pre_fee_amount : TransferFee → ℕ → Option ℕ
calculate_pre_fee_amount fee post_fee_amount =
    if fee.transfer_fee_basis_points == 0
    then some post_fee_amount
    else if post_fee_amount == 0
    then some 0
    else if fee.transfer_fee_basis_points == one_in_basis_points
    then fitting 64 (fee.maximum_fee + post_fee_amount)
    else pre_fee_between fee post_fee_amount

-- What the token program documents of the fee that it takes from a transfer of `n`: it is the share
-- in basis points, rounded up, and at most the maximum.
pub record Charges (fee : TransferFee) (charged : ℕ → ℕ) : Type 0 where
  pub rounded_up :
      (n : ℕ) → charged n * one_in_basis_points < n * fee.transfer_fee_basis_points + 10000
  pub capped : (n : ℕ) → charged n ≤ fee.maximum_fee

quotient : (n d q : ℕ) → ceil_div n d ≡ some q → (0 < d) × ((n + d - 1) / d ≡ q)
unfolding ceil_div
quotient n d q h = ground (arith, h)

ceil_div-le : (n d q : ℕ) → ceil_div n d ≡ some q → n ≤ q * d
ceil_div-le n d q h =
    let (pos, e) = quotient n d q h in
    let by = lt-div-mul-add {a = n + d - 1} {b = d} pos in
    let by' = subst (λ x. n + d - 1 < x * d + d) e by in omega arith

-- What the last branch returns: the amount with the maximum fee, or enough for the fee in parts.
between_cases :
    (fee : TransferFee) (post pre : ℕ)
    → pre_fee_between fee post ≡ some pre
    → (pre ≡ post + fee.maximum_fee)
      ⊎ ((ceil_div (post * 10000) (10000 - fee.transfer_fee_basis_points) ≡ some pre)
          × (fee.transfer_fee_basis_points ≤ 10000))
unfolding pre_fee_between
between_cases fee post pre h = ground (arith, h)

pre_fee_cases :
    (fee : TransferFee) (post pre : ℕ)
    → calculate_pre_fee_amount fee post ≡ some pre
    → ((fee.transfer_fee_basis_points ≡ 0) × (pre ≡ post))
      ⊎ ((post ≡ 0) × (pre ≡ 0))
      ⊎ (pre ≡ post + fee.maximum_fee)
      ⊎ (pre_fee_between fee post ≡ some pre)
unfolding calculate_pre_fee_amount
pre_fee_cases fee post pre h = ground (arith, h)

in_parts :
    (fee : TransferFee) (charged : ℕ → ℕ) (post pre : ℕ)
    → Charges fee charged
    → fee.transfer_fee_basis_points ≤ 10000
    → post * 10000 ≤ pre * (10000 - fee.transfer_fee_basis_points)
    → post + charged pre ≤ pre
in_parts fee charged post pre c below enough =
    let rounded = c.rounded_up pre in
    let sub = mul-sub pre 10000 fee.transfer_fee_basis_points in
    let most = mul-le-mul_left pre below in omega arith

-- Where `calculate_pre_fee_amount` returns an amount, and the token program charges a fee as it
-- documents, what is left of that amount after the fee is at least what was asked for.
pub calculate_pre_fee_amount-le :
    (fee : TransferFee) (charged : ℕ → ℕ) (post pre : ℕ)
    → Charges fee charged
    → calculate_pre_fee_amount fee post ≡ some pre
    → post + charged pre ≤ pre
calculate_pre_fee_amount-le fee charged post pre c h =
    let rounded = c.rounded_up pre in
    let capped = c.capped pre in
    elim (pre_fee_cases fee post pre h) [
      | inl (free, e) ↦ no_fee free e rounded
      | inr (inl (none_due, e)) ↦ nothing_sent none_due e rounded
      | inr (inr (inl e)) ↦ omega arith
      | inr (inr (inr between)) ↦ elim (between_cases fee post pre between) [
        | inl e ↦ omega arith
        | inr (e, below) ↦
            in_parts fee charged post pre c below
              (ceil_div-le (post * 10000) (10000 - fee.transfer_fee_basis_points) pre e)
      ]
    ]
  where
    no_fee :
        fee.transfer_fee_basis_points ≡ 0
        → pre ≡ post
        → charged pre * 10000 < pre * fee.transfer_fee_basis_points + 10000
        → post + charged pre ≤ pre
    no_fee free e rounded =
        let r = subst (λ b. charged pre * 10000 < pre * b + 10000) free rounded in omega arith

    nothing_sent :
        post ≡ 0
        → pre ≡ 0
        → charged pre * 10000 < pre * fee.transfer_fee_basis_points + 10000
        → post + charged pre ≤ pre
    nothing_sent none_due e rounded =
        let r =
          subst (λ n. charged pre * 10000 < n * fee.transfer_fee_basis_points + 10000) e rounded in
        omega arith
