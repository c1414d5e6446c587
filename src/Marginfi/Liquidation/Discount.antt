-- ===== src/Marginfi/Liquidation/Discount.antt =====
-- What the liquidatee is relieved of is at most what the liquidator takes on (Liquidation), so the
-- assertion on the insurance fee holds.
use native.Mathlib.Nat.{
  mul-le-mul_left, mul-le-mul_right, le-div_iff_mul-le, div-mul-le_self, one-le-pow,
}
use mathlib.Core.Path.{subst}
use bot_flash_loan.Prelude.{
  ℕ, ◌-◌, ◌*◌, ◌/◌, ◌^◌, ◌≤◌, ◌<◌, ◌≡◌, refl, ap, ◌∙◌, true, false, some, Result, ok, ok_or, ◌>>=◌,
  >>=-eq-ok, arith,
}
use bot_flash_loan.Prelude.Int.{pos}
use bot_flash_loan.Marginfi.Fixed.{Fixed, FixedRounding, I80F48, zero_fixed, eq_fixed, leb_fixed}
use bot_flash_loan.Marginfi.Account.{Failure, panic}
use bot_flash_loan.Marginfi.Risk.{math_error}
use bot_flash_loan.Marginfi.Risk.Conditions.{calc_value, calc_amount}
use bot_flash_loan.Marginfi.Bank.{Bank, exp_10_fixed, get_balance_decimals}
use bot_flash_loan.Marginfi.Interest.Growth.{ok_or-eq-ok}
use bot_flash_loan.Marginfi.Liquidation.{
  discounted_amount, liquidation_amounts, liquidator_discount, final_discount, liquidation_fee,
}

div-le-div : (k m n : ℕ) → 0 < k → m ≤ n → m / k ≤ n / k
div-le-div k m n p h =
    (le-div_iff_mul-le {k = k} {x = m / k} {y = n} p).1 (omega (arith, div-mul-le_self m k, h))

-- The value of `n` at price `p` and weight `w`, and the amount of that value at price `q`, rounded
-- down at each step.
abbrev valued : ℕ → ℕ → ℕ → ℕ → ℕ
valued scale n p w = n * w / 2 ^ 48 * p / 2 ^ 48 * 2 ^ 48 / scale

abbrev amounted : ℕ → ℕ → ℕ → ℕ
amounted scale q v = v * scale / 2 ^ 48 * 2 ^ 48 / q

valued-le : (scale n p w w' : ℕ) → 0 < scale → w ≤ w' → valued scale n p w ≤ valued scale n p w'
valued-le scale n p w w' s h = div-le-div scale _ _ s (
    mul-le-mul_right (2 ^ 48) (
      div-le-div (2 ^ 48) _ _ (omega arith)
        (mul-le-mul_right p (div-le-div (2 ^ 48) _ _ (omega arith) (mul-le-mul_left n h)))))

amounted-le : (scale q v v' : ℕ) → 0 < q → v ≤ v' → amounted scale q v ≤ amounted scale q v'
amounted-le scale q v v' p h =
    div-le-div q _ _ p
      (mul-le-mul_right (2 ^ 48) (div-le-div (2 ^ 48) _ _ (omega arith) (mul-le-mul_right scale h)))

exp_10-positive :
    (d : ℕ) (s : I80F48)
    → exp_10_fixed d ≡ ok s
    → (0 < 10 ^ d * 2 ^ 48) × (s ≡ pos (10 ^ d * 2 ^ 48))
exp_10-positive d s h = (omega (arith, one-le-pow d 10 (omega arith)), ground (arith, h))

module _ (fx : Fixed) (rounding : FixedRounding fx) where
  product :
      (a b : ℕ) (e : Failure) (c : I80F48)
      → ok_or (fx.checked_mul (pos a) (pos b)) e ≡ ok c
      → c ≡ pos (a * b / 2 ^ 48)
  product a b e c h = rounding.mul_floor a b c (ok_or-eq-ok (fx.checked_mul (pos a) (pos b)) e h)

  quotient :
      (a b : ℕ) (e : Failure) (c : I80F48)
      → 0 < b
      → ok_or (fx.checked_div (pos a) (pos b)) e ≡ ok c
      → c ≡ pos (a * 2 ^ 48 / b)
  quotient a b e c p h =
      rounding.div_floor a b c p (ok_or-eq-ok (fx.checked_div (pos a) (pos b)) e h)

  -- A product and then a quotient, each rounded down.
  abbrev scaled : I80F48 → I80F48 → I80F48 → Result Failure I80F48
  scaled x p k = do y ← ok_or (fx.checked_mul x p) math_error; ok_or (fx.checked_div y k) math_error

  scaled-floor :
      (x : I80F48) (a p k : ℕ) (v : I80F48)
      → 0 < k
      → x ≡ pos a
      → scaled x (pos p) (pos k) ≡ ok v
      → v ≡ pos (a * p / 2 ^ 48 * 2 ^ 48 / k)
  scaled-floor x a p k v positive e h =
      let (y, e₁, h₁) =
        >>=-eq-ok (ok_or (fx.checked_mul (pos a) (pos p)) math_error) _
          (subst (λ x. scaled x (pos p) (pos k) ≡ ok v) e h) in
      quotient (a * p / 2 ^ 48) k math_error v positive (
        subst (λ y. ok_or (fx.checked_div y (pos k)) math_error ≡ ok v)
          (product a p math_error y e₁) h₁)

  weighed-floor :
      (n w p k : ℕ) (v : I80F48)
      → 0 < k
      → (ok_or (fx.checked_mul (pos n) (pos w)) panic >>= λ x. scaled x (pos p) (pos k)) ≡ ok v
      → v ≡ pos (valued k n p w)
  weighed-floor n w p k v positive h =
      let (x, e, h₁) = >>=-eq-ok (ok_or (fx.checked_mul (pos n) (pos w)) panic) _ h in
      scaled-floor x (n * w / 2 ^ 48) p k v positive (product n w panic x e) h₁

  nonzero : (n : ℕ) → 0 < n → eq_fixed (pos n) zero_fixed ≡ false
  nonzero n h = ground (arith, h)

  scale_of : ℕ → ℕ
  scale_of d = 10 ^ d * 2 ^ 48

  calc_value-valued :
      (n p w d : ℕ) (v : I80F48)
      → 0 < n
      → calc_value fx (pos n) (pos p) d (some (pos w)) ≡ ok v
      → v ≡ pos (valued (scale_of d) n p w)
  unfolding calc_value scale_of
  calc_value-valued n p w d v not_zero h =
      let (s, e, h₁) = >>=-eq-ok (exp_10_fixed d) _ (rw (nonzero n not_zero) at h) in
      let (positive, is) = exp_10-positive d s e in
      weighed-floor n w p (10 ^ d * 2 ^ 48) v positive (
        subst
          (λ s. (ok_or (fx.checked_mul (pos n) (pos w)) panic >>= λ x. scaled x (pos p) s) ≡ ok v)
          is h₁)

  calc_amount-amounted :
      (x q d : ℕ) (r : I80F48)
      → 0 < q
      → calc_amount fx (pos x) (pos q) d ≡ ok r
      → r ≡ pos (amounted (scale_of d) q x)
  unfolding calc_amount scale_of
  calc_amount-amounted x q d r p h =
      let (s, e, h₁) = >>=-eq-ok (exp_10_fixed d) _ h in
      let (_, is) = exp_10-positive d s e in
      scaled-floor (pos x) x (10 ^ d * 2 ^ 48) q r p refl
        (subst (λ s. scaled (pos x) s (pos q) ≡ ok r) is h₁)

  discounted :
      (asset_bank liab_bank : Bank) (n p q w : ℕ) (r : I80F48)
      → 0 < n
      → 0 < q
      → discounted_amount fx asset_bank liab_bank (pos n) (pos p) (pos q) (pos w) ≡ ok r
      → r
        ≡ pos (
            amounted
              (scale_of (get_balance_decimals fx liab_bank))
              q
              (valued (scale_of (get_balance_decimals fx asset_bank)) n p w))
  unfolding discounted_amount
  discounted asset_bank liab_bank n p q w r n_positive q_positive h =
      let (v, e, h₁) =
        >>=-eq-ok
          (calc_value fx (pos n) (pos p) (get_balance_decimals fx asset_bank) (some (pos w))) _ h in
      calc_amount-amounted _ q (get_balance_decimals fx liab_bank) r q_positive (
        subst (λ v. calc_amount fx v (pos q) (get_balance_decimals fx liab_bank) ≡ ok r)
          (calc_value-valued n p w (get_balance_decimals fx asset_bank) v n_positive e) h₁)

  scale-positive : (d : ℕ) → 0 < scale_of d
  unfolding scale_of
  scale-positive d = omega (arith, one-le-pow d 10 (omega arith))

  amounts_from :
      (asset_bank liab_bank : Bank) (amount asset_price liab_price : I80F48) (t r : ℕ)
      → r ≤ t
      → discounted_amount fx asset_bank liab_bank amount asset_price liab_price liquidator_discount
        ≡ ok (pos t)
      → discounted_amount fx asset_bank liab_bank amount asset_price liab_price final_discount
        ≡ ok (pos r)
      → liquidation_amounts fx asset_bank liab_bank amount asset_price liab_price
        ≡ ok (record { liquidator = pos t; final = pos r; insurance_fund_fee = pos (t - r) })
  unfolding liquidation_amounts
  amounts_from asset_bank liab_bank amount asset_price liab_price t r le h k =
      rw (h, k, rounding.sub_fits t r le, not_negative (t - r)) refl
    where
      not_negative : (n : ℕ) → leb_fixed zero_fixed (pos n) ≡ true
      not_negative n = ground arith

  -- For a positive amount of the asset and a positive price of the liability, where the two
  -- discounted amounts can be computed (products and quotients are rounded down), the amounts of a
  -- liquidation are returned: what the liquidatee is relieved of is at most what the liquidator takes
  -- on, so the insurance fee is their difference and the assertion that it is not negative holds.
  pub liquidation_amounts-fee :
      (asset_bank liab_bank : Bank) (n p q : ℕ) (x y : I80F48)
      → 0 < n
      → 0 < q
      → discounted_amount fx asset_bank liab_bank (pos n) (pos p) (pos q) liquidator_discount ≡ ok x
      → discounted_amount fx asset_bank liab_bank (pos n) (pos p) (pos q) final_discount ≡ ok y
      → (taken relieved : ℕ) × (relieved ≤ taken)
        × (liquidation_amounts fx asset_bank liab_bank (pos n) (pos p) (pos q)
            ≡ ok (record {
              liquidator = pos taken;
              final = pos relieved;
              insurance_fund_fee = pos (taken - relieved);
            }))
  liquidation_amounts-fee asset_bank liab_bank n p q x y n_positive q_positive h k =
      let assets = scale_of (get_balance_decimals fx asset_bank) in
      let liabs = scale_of (get_balance_decimals fx liab_bank) in
      let taken = amounted liabs q (valued assets n p (2 ^ 48 - liquidation_fee)) in
      let relieved = amounted liabs q (valued assets n p (2 ^ 48 - 2 * liquidation_fee)) in
      let at_most : relieved ≤ taken = amounted-le liabs q _ _ q_positive (
        valued-le assets n p _ _ (scale-positive (get_balance_decimals fx asset_bank))
          (omega arith)) in
      let x_is = discounted asset_bank liab_bank n p q _ x n_positive q_positive h in
      let y_is = discounted asset_bank liab_bank n p q _ y n_positive q_positive k in
      (
        taken,
        relieved,
        at_most,
        amounts_from asset_bank liab_bank (pos n) (pos p) (pos q) taken relieved at_most
            (h ∙ ap ok x_is) (k ∙ ap ok y_is),
      )
