-- ===== src/Marginfi/Interest/Bounds.antt =====
-- The seven-point curve of a valid configuration always has a rate, between the first and the last.
use native.Mathlib.Nat.{mul-le-mul_left, mul-le-mul_right, div-le_of_le-mul}
use bot_flash_loan.Prelude.{
  ℕ, ◌+◌, ◌-◌, ◌*◌, ◌/◌, ◌^◌, ◌≤◌, ◌<◌, ◌≡◌, ◌⊎◌, refl, inl, inr, List, [], ◌∷◌, ◌++◌, Every,
  every_none, every_next, Every-zip, Result, ok, leb, Bool-cases, if◌then◌else◌, arith,
}
use mathlib.Core.Path.{subst}
use bot_flash_loan.Prelude.Int.{pos, negsuc}
use bot_flash_loan.Marginfi.Fixed.{
  Fixed, FixedLaws, FixedRounding, I80F48, zero_fixed, one_fixed, min_fixed, max_fixed,
}
use bot_flash_loan.Marginfi.Interest.{RatePoint, InterestRateConfig, validate_seven_point, u32_max}
use bot_flash_loan.Marginfi.Interest.Valid.{
  IsUsed, IsBlank, Between, Below, Ascending, ascending_next, validate_seven_point_iff,
}
use bot_flash_loan.Marginfi.Interest.Curve.{
  NoRate, lerp, util_from_u32, rate_from_u32, curve_from, interest_rate_multipoint_curve,
}

-- A part of the distance, as a fraction of 2 ^ 48.
fraction : ℕ → ℕ → ℕ
fraction d e = d * 2 ^ 48 / e

fraction-le : (d e : ℕ) → d ≤ e → fraction d e ≤ 2 ^ 48
unfolding fraction
fraction-le d e h = div-le_of_le-mul e (mul-le-mul_right (2 ^ 48) h)

part : ℕ → ℕ → ℕ
part h f = h * f / 2 ^ 48

part-le : (h f : ℕ) → f ≤ 2 ^ 48 → part h f ≤ h
unfolding part
part-le h f le = let by = mul-le-mul_left h le in omega arith

-- Rates and utilizations as fixed-point numbers.
pub rate_of : ℕ → ℕ
rate_of r = part (fraction (r * 2 ^ 48) (u32_max * 2 ^ 48)) (10 * 2 ^ 48)

util_of : ℕ → ℕ
util_of u = fraction (u * 2 ^ 48) (u32_max * 2 ^ 48)

rate_of-le : (a b : ℕ) → a ≤ b → rate_of a ≤ rate_of b
unfolding rate_of part fraction
rate_of-le a b h = omega arith

rate_of-lt : (r : ℕ) → r < 2 ^ 32 → rate_of r < 2 ^ 60
unfolding rate_of part fraction
rate_of-lt r h = omega arith

util_of-le : (u : ℕ) → u < 2 ^ 32 → util_of u ≤ 2 ^ 48
unfolding util_of fraction
util_of-le u h = omega arith

module _ (fx : Fixed) (laws : FixedLaws fx) (rounding : FixedRounding fx) where
  util_from_u32_eq : (u : ℕ) → u < 2 ^ 32 → util_from_u32 fx u ≡ ok (pos (util_of u))
  unfolding util_from_u32 util_of fraction
  util_from_u32_eq u h =
      rw
        (
          laws.from_u64_exact u,
          laws.from_u64_exact u32_max,
          rounding.div_fits (u * 2 ^ 48) (u32_max * 2 ^ 48) (omega arith) (omega arith),
        )
        refl

  rate_from_u32_eq : (r : ℕ) → r < 2 ^ 32 → rate_from_u32 fx r ≡ ok (pos (rate_of r))
  unfolding rate_from_u32 rate_of part fraction
  rate_from_u32_eq r h =
      rw
        (
          laws.from_u64_exact r,
          laws.from_u64_exact u32_max,
          laws.from_u64_exact 10,
          rounding.div_fits (r * 2 ^ 48) (u32_max * 2 ^ 48) (omega arith) (omega arith),
        )
        (rw
          (rounding.mul_fits (r * 2 ^ 48 * 2 ^ 48 / (u32_max * 2 ^ 48)) (10 * 2 ^ 48) (omega arith))
          refl)

  lerp_eq :
      (x0 y0 x1 y1 x : ℕ)
      → x0 < x1
      → x0 ≤ x
      → x ≤ x1
      → y0 ≤ y1
      → y1 < 2 ^ 127
      → lerp fx (pos x0) (pos y0) (pos x1) (pos y1) (pos x)
        ≡ ok (pos (y0 + part (y1 - y0) (fraction (x - x0) (x1 - x0))))
  unfolding lerp part fraction
  lerp_eq x0 y0 x1 y1 x lt h k rising small =
      let f = fraction_small in
      let p = part_small in
      ground (
        arith,
        rounding.sub_fits x1 x0 (omega arith),
        rounding.sub_fits x x0 h,
        rounding.div_fits (x - x0) (x1 - x0) (omega arith) (omega arith),
        rounding.sub_fits y1 y0 rising,
        rounding.mul_fits (y1 - y0) ((x - x0) * 2 ^ 48 / (x1 - x0)) (omega arith),
        rounding.add_fits y0 ((y1 - y0) * ((x - x0) * 2 ^ 48 / (x1 - x0)) / 2 ^ 48) (omega arith),
      )
    where
      fraction_small : (x - x0) * 2 ^ 48 / (x1 - x0) ≤ 2 ^ 48
      fraction_small = fraction-le (x - x0) (x1 - x0) (omega arith)

      part_small : (y1 - y0) * ((x - x0) * 2 ^ 48 / (x1 - x0)) / 2 ^ 48 ≤ y1 - y0
      part_small = part-le (y1 - y0) _ fraction_small

  lerp_flat :
      (x0 y0 x1 y1 x : ℕ)
      → x1 ≤ x0
      → lerp fx (pos x0) (pos y0) (pos x1) (pos y1) (pos x) ≡ ok (pos y0)
  unfolding lerp
  lerp_flat x0 y0 x1 y1 x h = ground arith

  lerp-bounds :
      (x0 y0 x1 y1 x : ℕ)
      → x0 ≤ x
      → x ≤ x1
      → y0 ≤ y1
      → y1 < 2 ^ 127
      → (r : ℕ) × (lerp fx (pos x0) (pos y0) (pos x1) (pos y1) (pos x) ≡ ok (pos r))
        × (y0 ≤ r)
        × (r ≤ y1)
  lerp-bounds x0 y0 x1 y1 x h k rising small = elim (le-or-lt x1 x0) [
    | inl flat ↦ (y0, lerp_flat x0 y0 x1 y1 x flat, omega arith, rising)
    | inr lt ↦
        let by = part-le (y1 - y0) _ (fraction-le (x - x0) (x1 - x0) (omega arith)) in
        (
          y0 + part (y1 - y0) (fraction (x - x0) (x1 - x0)),
          lerp_eq x0 y0 x1 y1 x lt h k rising small,
          omega arith,
          omega arith,
        )
  ]
    where
      le-or-lt : (a b : ℕ) → (a ≤ b) ⊎ (b < a)
      le-or-lt a b = ground arith

  module _ (last : ℕ) (small : last < 2 ^ 32) (x : ℕ) (at_most_one : x ≤ 2 ^ 48) where
    curve_from-blank :
        (u r : ℕ) (ps : List RatePoint)
        → Every IsBlank ps
        → curve_from fx (pos (rate_of last)) (pos x) (pos u) (pos r) ps
          ≡ lerp fx (pos u) (pos r) one_fixed (pos (rate_of last)) (pos x)
    unfolding curve_from IsBlank
    curve_from-blank u r [] every_none = refl
    curve_from-blank u r (p ∷ ps) (every_next (e, z) bs) = rw (e) (curve_from-blank u r ps bs)

    InRange : ℕ → Result NoRate I80F48 → Type 0
    InRange low result = (r : ℕ) × (result ≡ ok (pos r)) × (low ≤ r) × (r ≤ rate_of last)

    -- The step of the loop at a point in use.
    curve_from-point :
        (u r : ℕ) (p : RatePoint) (ps : List RatePoint)
        → IsUsed p
        → p.util < 2 ^ 32
        → p.rate < 2 ^ 32
        → curve_from fx (pos (rate_of last)) (pos x) (pos u) (pos r) (p ∷ ps) ≡ (
            if leb x (util_of p.util)
            then lerp fx (pos u) (pos r) (pos (util_of p.util)) (pos (rate_of p.rate)) (pos x)
            else curve_from fx
                (pos (rate_of last))
                (pos x)
                (pos (util_of p.util))
                (pos (rate_of p.rate))
                ps)
    unfolding curve_from IsUsed
    curve_from-point u r p ps in_use h k =
        ground (arith, util_from_u32_eq p.util h, rate_from_u32_eq p.rate k)

    curve_from-InRange :
        (u r : ℕ) (us ps : List RatePoint)
        → u ≤ x
        → r ≤ last
        → Every IsUsed us
        → Every (λ p. p.util < 2 ^ 32) us
        → Every (Between r last) us
        → Ascending us
        → Every IsBlank ps
        → InRange
            (rate_of r)
            (curve_from fx (pos (rate_of last)) (pos x) (pos u) (pos (rate_of r)) (us ++ ps))
    unfolding InRange Between Below
    curve_from-InRange u r [] ps ux rl all typed between asc blank =
        rw (curve_from-blank u (rate_of r) ps blank) (
          lerp-bounds u (rate_of r) (2 ^ 48) (rate_of last) x ux at_most_one (rate_of-le r last rl)
            (let lt = rate_of-lt last small in omega arith))
    curve_from-InRange u r (p ∷ us) ps ux rl (every_next here all) (every_next t typed)
          (every_next b between) (ascending_next above asc) blank =
        let (low, high) = b in
        rw (curve_from-point u (rate_of r) p (us ++ ps) here t (omega arith))
          (elim (Bool-cases (leb x (util_of p.util))) [
            | inl reached ↦
                let (v, e, at_least, at_most) =
                  lerp-bounds u (rate_of r) (util_of p.util) (rate_of p.rate) x ux
                    (ground (arith, reached)) (rate_of-le r p.rate low)
                    (let lt = rate_of-lt p.rate (omega arith) in omega arith) in
                let top = rate_of-le p.rate last high in rw (reached) (v, e, at_least, omega arith)
            | inr passed ↦
                let (v, e, at_least, at_most) =
                  curve_from-InRange (util_of p.util) p.rate us ps (ground (arith, passed)) high all
                    typed (Every-zip (between_next p) above between) asc blank in
                let bottom = rate_of-le r p.rate low in rw (passed) (v, e, omega arith, at_most)
          ])
      where
        between_next : (p q : RatePoint) → Below p q → Between r last q → Between p.rate last q
        between_next p q (lt, le) (_, top) = (le, top)

  clamped :
      (ur : I80F48)
      → (x : ℕ) × (min_fixed (max_fixed ur zero_fixed) one_fixed ≡ pos x) × (x ≤ 2 ^ 48)
  clamped (negsuc n) = (0, ground arith, omega arith)
  clamped (pos n) = elim (Bool-cases (leb n (2 ^ 48))) [
    | inl low ↦ (n, ground (arith, low), ground (arith, low))
    | inr high ↦ (2 ^ 48, ground (arith, high), omega arith)
  ]

  used_typed :
      (us ps : List RatePoint)
      → Every (λ p. p.util < 2 ^ 32) (us ++ ps)
      → Every (λ p. p.util < 2 ^ 32) us
  used_typed [] ps all = every_none
  used_typed (u ∷ us) ps (every_next t all) = every_next t (used_typed us ps all)

  -- For every utilization, negative or above one too, the curve of a configuration that
  -- `validate_seven_point` accepts (with 32-bit numbers) has a rate, and it lies between the rates
  -- at zero and at full utilization. The operations of the fixed-point numbers are taken to return
  -- where the result fits, and to round down.
  pub interest_rate_multipoint_curve-bounds :
      (c : InterestRateConfig) (ur : I80F48)
      → c.hundred_util_rate < 2 ^ 32
      → Every (λ p. p.util < 2 ^ 32) c.points
      → validate_seven_point c ≡ ok tt
      → (low rate high : ℕ) × (rate_from_u32 fx c.zero_util_rate ≡ ok (pos low))
        × (rate_from_u32 fx c.hundred_util_rate ≡ ok (pos high))
        × (interest_rate_multipoint_curve fx c.zero_util_rate c.hundred_util_rate c.points ur
            ≡ ok (pos rate))
        × (low ≤ rate)
        × (rate ≤ high)
  unfolding interest_rate_multipoint_curve InRange
  interest_rate_multipoint_curve-bounds c ur small typed h =
      let v = (validate_seven_point_iff c).0 h in
      let rising = v.rising in
      let (x, at_x, at_most_one) = clamped ur in
      let us_typed =
        used_typed v.used v.padding (subst (Every (λ p. p.util < 2 ^ 32)) v.points_are typed) in
      let (rate, e, low, high) =
        curve_from-InRange c.hundred_util_rate small x at_most_one 0 c.zero_util_rate v.used
          v.padding (omega arith) rising v.in_use us_typed v.between v.ascending v.blank in
      let zero_rate = rate_from_u32_eq c.zero_util_rate (omega arith) in
      let hundred_rate = rate_from_u32_eq c.hundred_util_rate small in
      (
        rate_of c.zero_util_rate,
        rate,
        rate_of c.hundred_util_rate,
        zero_rate,
        hundred_rate,
        rw (zero_rate, hundred_rate, at_x, v.points_are) e,
        low,
        high,
      )
