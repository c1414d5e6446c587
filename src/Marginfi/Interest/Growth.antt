-- ===== src/Marginfi/Interest/Growth.antt =====
-- The share values that interest gives (Interest/Rates) are not below those before.
use native.Mathlib.Nat.{mul-le-mul_left}
use mathlib.Core.Path.{subst}
use bot_flash_loan.Prelude.{
  ℕ, ◌+◌, ◌*◌, ◌/◌, ◌^◌, ◌≤◌, ◌<◌, ◌≡◌, refl, true, Option, none, some, ok, ok_or, ok-injective,
  >>=-eq-ok, check, check-eq-ok, arith,
}
use bot_flash_loan.Prelude.Int.{pos, negsuc, ◌+ℤ◌}
use bot_flash_loan.Marginfi.Fixed.{
  Fixed, FixedLaws, FixedRounding, I80F48, zero_fixed, one_fixed, seconds_per_year, leb_fixed,
}
use bot_flash_loan.Marginfi.Interest.Curve.{NoRate, plus}
use bot_flash_loan.Marginfi.Interest.Rates.{
  InterestRateCalc, ComputedInterestRates, InterestRateStateChanges, mul, add, div, get_fees,
  base_rate, rates_from, assert_rates, calc_interest_rate, calc_accrued_interest_payment_per_period,
  calc_interest_payment_for_period, calc_interest_rate_accrual_state_changes,
}

pub leb_fixed_refl : (a : I80F48) → leb_fixed a a ≡ true
leb_fixed_refl a = ground arith

non_negative : (a : I80F48) → leb_fixed zero_fixed a ≡ true → (n : ℕ) × (a ≡ pos n)
non_negative (pos n) h = (n, refl)
non_negative (negsuc n) h = absurd (ground (arith, h))

pub ok_or-eq-ok {ℓ κ} :
    {E : Type ℓ} {A : Type κ} (o : Option A) (e : E) {a : A} → ok_or o e ≡ ok a → o ≡ some a
ok_or-eq-ok none e h = cc
ok_or-eq-ok (some a) e h = cc

floor-le : (v p : ℕ) → v ≤ v * (2 ^ 48 + p) / 2 ^ 48
floor-le v p = let by = mul-le-mul_left v (le_add p) in omega arith
  where
    le_add : (p : ℕ) → 2 ^ 48 ≤ 2 ^ 48 + p
    le_add p = omega arith

module _ (fx : Fixed) (laws : FixedLaws fx) (rounding : FixedRounding fx) where
  mul_pos :
      (a b : ℕ) (x y r : I80F48)
      → x ≡ pos a
      → y ≡ pos b
      → mul fx x y ≡ ok r
      → r ≡ pos (a * b / 2 ^ 48)
  mul_pos a b x y r at_x at_y h =
      rounding.mul_floor a b r
        (ok_or-eq-ok (fx.checked_mul (pos a) (pos b)) _ (rw (at_x, at_y) at h))

  div_pos :
      (a b : ℕ) (x y r : I80F48)
      → x ≡ pos a
      → y ≡ pos b
      → 0 < b
      → div fx x y ≡ ok r
      → r ≡ pos (a * 2 ^ 48 / b)
  div_pos a b x y r at_x at_y lt h =
      rounding.div_floor a b r lt
        (ok_or-eq-ok (fx.checked_div (pos a) (pos b)) _ (rw (at_x, at_y) at h))

  add_pos : (a b : ℕ) (x y r : I80F48) → x ≡ pos a → y ≡ pos b → add fx x y ≡ ok r → r ≡ pos (a + b)
  unfolding ◌+ℤ◌
  add_pos a b x y r at_x at_y h =
      let e = laws.add_exact x y r (ok_or-eq-ok (fx.checked_add x y) _ h) in
      ground (arith, e, at_x, at_y)

  -- A value with interest at a rate that is not negative is not below the value.
  calc_accrued_interest_payment_per_period-le :
      (a dt v : ℕ) (r : I80F48)
      → calc_accrued_interest_payment_per_period fx (pos a) dt (pos v) ≡ ok r
      → leb_fixed (pos v) r ≡ true
  unfolding calc_accrued_interest_payment_per_period
  calc_accrued_interest_payment_per_period-le a dt v r h =
      let (scaled, e₁, h₁) = >>=-eq-ok (mul fx (pos a) (fx.from_u64 dt)) _ h in
      let (period, e₂, h₂) = >>=-eq-ok (div fx scaled (fx.from_u64 seconds_per_year)) _ h₁ in
      let (growth, e₃, h₃) = >>=-eq-ok (add fx one_fixed period) _ h₂ in
      let at_scaled =
        mul_pos a (dt * 2 ^ 48) (pos a) (fx.from_u64 dt) scaled refl (laws.from_u64_exact dt) e₁ in
      let at_period =
        div_pos _ (seconds_per_year * 2 ^ 48) scaled _ period at_scaled
          (laws.from_u64_exact seconds_per_year) (omega arith) e₂ in
      let at_growth = add_pos (2 ^ 48) _ one_fixed period growth refl at_period e₃ in
      let at_r = mul_pos v _ (pos v) growth r refl at_growth h₃ in
      let le = floor-le v (a * (dt * 2 ^ 48) / 2 ^ 48 * 2 ^ 48 / (seconds_per_year * 2 ^ 48)) in
      rw (at_r) (ground (arith, le))

  assert_rates-not_negative :
      (rates r : ComputedInterestRates)
      → assert_rates fx rates ≡ ok r
      → (leb_fixed zero_fixed r.lending_rate_apr ≡ true)
        × (leb_fixed zero_fixed r.borrowing_rate_apr ≡ true)
  unfolding assert_rates
  assert_rates-not_negative rates r h =
      let (_, c₁, h₁) =
        >>=-eq-ok (check (leb_fixed zero_fixed rates.lending_rate_apr) NoRate.panicked) _ h in
      let (_, c₂, h₂) =
        >>=-eq-ok (check (leb_fixed zero_fixed rates.borrowing_rate_apr) NoRate.panicked) _ h₁ in
      let (_, _, h₃) =
        >>=-eq-ok (check (leb_fixed zero_fixed rates.group_fee_apr) NoRate.panicked) _ h₂ in
      let (_, _, h₄) =
        >>=-eq-ok (check (leb_fixed zero_fixed rates.insurance_fee_apr) NoRate.panicked) _ h₃ in
      let (_, _, h₅) =
        >>=-eq-ok (check (leb_fixed zero_fixed rates.protocol_fee_apr) NoRate.panicked) _ h₄ in
      subst
        (λ x.
          (leb_fixed zero_fixed x.lending_rate_apr ≡ true)
          × (leb_fixed zero_fixed x.borrowing_rate_apr ≡ true))
        (ok-injective h₅) (check-eq-ok _ _ c₁, check-eq-ok _ _ c₂)

  calc_interest_rate-not_negative :
      (c : InterestRateCalc) (u : I80F48) (r : ComputedInterestRates)
      → calc_interest_rate fx c u ≡ ok r
      → (leb_fixed zero_fixed r.lending_rate_apr ≡ true)
        × (leb_fixed zero_fixed r.borrowing_rate_apr ≡ true)
  unfolding calc_interest_rate
  calc_interest_rate-not_negative c u r h =
      let (f₁, _, h₁) =
        >>=-eq-ok (plus fx (get_fees c).insurance_fee_rate (get_fees c).group_fee_rate) _ h in
      let (f₂, _, h₂) = >>=-eq-ok (plus fx f₁ (get_fees c).protocol_fee_rate) _ h₁ in
      let (f₃, _, h₃) =
        >>=-eq-ok (plus fx (get_fees c).insurance_fee_fixed (get_fees c).group_fee_fixed) _ h₂ in
      let (f₄, _, h₄) = >>=-eq-ok (plus fx f₃ (get_fees c).protocol_fee_fixed) _ h₃ in
      let (base, _, h₅) = >>=-eq-ok (base_rate fx c u) _ h₄ in
      let (rates, _, h₆) = >>=-eq-ok (rates_from fx c u f₂ f₄ base) _ h₅ in
      assert_rates-not_negative rates r h₆

  -- The share values of the changes are not below those before.
  pub state_changes-le :
      (dt v w : ℕ) (ta tl : I80F48) (c : InterestRateCalc) (s : InterestRateStateChanges)
      → calc_interest_rate_accrual_state_changes fx dt ta tl c (pos v) (pos w) ≡ ok s
      → (leb_fixed (pos v) s.new_asset_share_value ≡ true)
        × (leb_fixed (pos w) s.new_liability_share_value ≡ true)
  unfolding calc_interest_rate_accrual_state_changes
  state_changes-le dt v w ta tl c s h =
      let (u, _, h₁) = >>=-eq-ok (div fx tl ta) _ h in
      let (r, e, h₂) = >>=-eq-ok (calc_interest_rate fx c u) _ h₁ in
      let (lends, borrows) = calc_interest_rate-not_negative c u r e in
      let (nv, e₃, h₃) =
        >>=-eq-ok (calc_accrued_interest_payment_per_period fx r.lending_rate_apr dt (pos v)) _
          h₂ in
      let (nw, e₄, h₄) =
        >>=-eq-ok (calc_accrued_interest_payment_per_period fx r.borrowing_rate_apr dt (pos w)) _
          h₃ in
      let (i, _, h₅) =
        >>=-eq-ok (calc_interest_payment_for_period fx r.insurance_fee_apr dt tl) _ h₄ in
      let (g, _, h₆) = >>=-eq-ok (calc_interest_payment_for_period fx r.group_fee_apr dt tl) _ h₅ in
      let (p, _, h₇) =
        >>=-eq-ok (calc_interest_payment_for_period fx r.protocol_fee_apr dt tl) _ h₆ in
      let (a, at_a) = non_negative r.lending_rate_apr lends in
      let (b, at_b) = non_negative r.borrowing_rate_apr borrows in
      subst
        (λ x.
          (leb_fixed (pos v) x.new_asset_share_value ≡ true)
          × (leb_fixed (pos w) x.new_liability_share_value ≡ true))
        (ok-injective h₇)
        (
          calc_accrued_interest_payment_per_period-le a dt v nv (rw (at_a) at e₃),
          calc_accrued_interest_payment_per_period-le b dt w nw (rw (at_b) at e₄),
        )
