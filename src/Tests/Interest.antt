-- ===== src/Tests/Interest.antt =====
-- An interest rate curve with one kink, at half utilization.
use bot_flash_loan.Prelude.{
  ℕ, ◌+◌, ◌^◌, ◌≤◌, ◌<◌, ◌≡◌, ◌↔◌, refl, [], ◌∷◌, Every, every_none, every_next, ok, arith,
}
use bot_flash_loan.Prelude.Int.{pos}
use bot_flash_loan.Marginfi.Interest.{
  InterestRateConfig, validate_seven_point, used_points, check_ascending, all_between,
}
use bot_flash_loan.Marginfi.Interest.Curve.{rate_from_u32, interest_rate_multipoint_curve}
use bot_flash_loan.Marginfi.Interest.Valid.{Sound, validate_seven_point_iff}
use bot_flash_loan.Marginfi.Interest.Bounds.{interest_rate_multipoint_curve-bounds}
use bot_flash_loan.Tests.Exact.{exact, exact-FixedLaws, exact-FixedRounding}

abbrev half : ℕ
half = 2 ^ 31

abbrev pub config : InterestRateConfig
config = record {
  optimal_utilization_rate = pos 0;
  plateau_interest_rate = pos 0;
  max_interest_rate = pos 0;
  insurance_fee_fixed_apr = pos 0;
  insurance_ir_fee = pos 0;
  protocol_fixed_fee_apr = pos 0;
  protocol_ir_fee = pos (2 ^ 45);
  protocol_origination_fee = pos 0;
  zero_util_rate = 1000000;
  hundred_util_rate = 429496729;
  points =
      record { util = half; rate = 40000000 }
      ∷ record { util = 0; rate = 0 }
      ∷ record { util = 0; rate = 0 }
      ∷ record { util = 0; rate = 0 }
      ∷ record { util = 0; rate = 0 }
      ∷ [];
  curve_type = 1;
}

config_valid : validate_seven_point config ≡ ok tt
unfolding validate_seven_point used_points check_ascending all_between
config_valid = refl

config_typed : Every (λ p. p.util < 2 ^ 32) config.points
config_typed = every_next (omega arith) (
    every_next (omega arith)
      (every_next (omega arith) (every_next (omega arith) (every_next (omega arith) every_none))))

validate_seven_point_iff_example : (validate_seven_point config ≡ ok tt) ↔ Sound config
validate_seven_point_iff_example = validate_seven_point_iff config

interest_rate_multipoint_curve-bounds_example :
    (low rate high : ℕ) × (rate_from_u32 exact config.zero_util_rate ≡ ok (pos low))
    × (rate_from_u32 exact config.hundred_util_rate ≡ ok (pos high))
    × (interest_rate_multipoint_curve exact config.zero_util_rate config.hundred_util_rate
          config.points
          (pos (2 ^ 47 + 2 ^ 46))
        ≡ ok (pos rate))
    × (low ≤ rate)
    × (rate ≤ high)
interest_rate_multipoint_curve-bounds_example =
    interest_rate_multipoint_curve-bounds exact exact-FixedLaws exact-FixedRounding config
      (pos (2 ^ 47 + 2 ^ 46)) (omega arith) config_typed config_valid
