-- ===== src/Marginfi/Interest/Curve.antt =====
-- The interest rate curve of
-- marginfi-v2/programs/marginfi/src/state/interest_rate.rs: the seven points and the line between
-- two of them. The operators `+`, `-`, `*` and `/` of the fixed-point numbers panic where the
-- checked operations return nothing.
use bot_flash_loan.Prelude.{
  ℕ, not, List, [], ◌∷◌, Result, ok, check, ok_or, ◌>>=◌, ◌>>◌, ◌==◌, if◌then◌else◌,
}
use bot_flash_loan.Prelude.Int.{ltb_ℤ}
use bot_flash_loan.Marginfi.Fixed.{
  Fixed, I80F48, zero_fixed, one_fixed, leb_fixed, eq_fixed, min_fixed, max_fixed,
}
use bot_flash_loan.Marginfi.Interest.{RatePoint, u32_max}

-- Why a calculation returns no rate: its `?` found nothing, or it panicked.
pub data NoRate : Type 0 where
  nothing panicked : NoRate

module _ (fx : Fixed) where
  -- The operators and the checked operations of the calculations.
  abbrev pub plus : I80F48 → I80F48 → Result NoRate I80F48
  plus a b = ok_or (fx.checked_add a b) NoRate.panicked

  abbrev pub minus : I80F48 → I80F48 → Result NoRate I80F48
  minus a b = ok_or (fx.checked_sub a b) NoRate.panicked

  abbrev pub times : I80F48 → I80F48 → Result NoRate I80F48
  times a b = ok_or (fx.checked_mul a b) NoRate.panicked

  abbrev pub over : I80F48 → I80F48 → Result NoRate I80F48
  over a b = ok_or (fx.checked_div a b) NoRate.panicked

  unfoldable pub util_from_u32 : ℕ → Result NoRate I80F48
  util_from_u32 util = over (fx.from_u64 util) (fx.from_u64 u32_max)

  unfoldable pub rate_from_u32 : ℕ → Result NoRate I80F48
  rate_from_u32 rate = do
    ratio ← over (fx.from_u64 rate) (fx.from_u64 u32_max)
    times ratio (fx.from_u64 10)

  unfoldable pub lerp : I80F48 → I80F48 → I80F48 → I80F48 → I80F48 → Result NoRate I80F48
  lerp start_x start_y end_x end_y target_x = if leb_fixed end_x start_x then ok start_y else do
    check (not (ltb_ℤ target_x start_x)) NoRate.nothing
    check (not (ltb_ℤ end_x target_x)) NoRate.nothing
    check (not (ltb_ℤ end_y start_y)) NoRate.nothing
    delta_x ← minus end_x start_x
    if eq_fixed delta_x zero_fixed then ok start_y else do
      offset ← minus target_x start_x
      proportion ← over offset delta_x
      delta_y ← minus end_y start_y
      scaled_delta ← ok_or (fx.checked_mul delta_y proportion) NoRate.nothing
      plus start_y scaled_delta

  -- The loop over the points and the segment after it; `prev_util` and `prev_rate` are its state.
  unfoldable pub curve_from :
      I80F48 → I80F48 → I80F48 → I80F48 → List RatePoint → Result NoRate I80F48
  curve_from hundred_rate ur prev_util prev_rate [] =
      lerp prev_util prev_rate one_fixed hundred_rate ur
  curve_from hundred_rate ur prev_util prev_rate (p ∷ ps) =
      let skipped = curve_from hundred_rate ur prev_util prev_rate ps in
      let further : I80F48 → I80F48 → Result NoRate I80F48 =
        λ util rate. curve_from hundred_rate ur util rate ps in
      if p.util == 0 then skipped else do
        point_util ← util_from_u32 p.util
        point_rate ← rate_from_u32 p.rate
        if leb_fixed ur point_util
            then lerp prev_util prev_rate point_util point_rate ur
            else further point_util point_rate

  unfoldable pub interest_rate_multipoint_curve :
      ℕ → ℕ → List RatePoint → I80F48 → Result NoRate I80F48
  interest_rate_multipoint_curve zero_util_rate hundred_util_rate points ur = do
    zero_rate ← rate_from_u32 zero_util_rate
    hundred_rate ← rate_from_u32 hundred_util_rate
    curve_from hundred_rate (min_fixed (max_fixed ur zero_fixed) one_fixed) zero_fixed zero_rate
        points

  -- The arguments are the optimal utilization, the plateau rate and the greatest rate.
  unfoldable pub interest_rate_curve : I80F48 → I80F48 → I80F48 → I80F48 → Result NoRate I80F48
  interest_rate_curve optimal_ur plateau_ir max_ir ur =
      if leb_fixed ur optimal_ur
      then (do
        share ← ok_or (fx.checked_div ur optimal_ur) NoRate.nothing
        ok_or (fx.checked_mul share plateau_ir) NoRate.nothing)
      else do
        above ← minus ur optimal_ur
        width ← minus one_fixed optimal_ur
        share ← ok_or (fx.checked_div above width) NoRate.nothing
        height ← minus max_ir plateau_ir
        scaled ← ok_or (fx.checked_mul share height) NoRate.nothing
        ok_or (fx.checked_add scaled plateau_ir) NoRate.nothing
