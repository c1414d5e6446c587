-- ===== src/Marginfi/Interest.antt =====
-- Interest rates: marginfi-v2/programs/marginfi/src/state/interest_rate.rs, with the types of
-- marginfi-v2/type-crate/src/types/interest_rate.rs: the configuration and what it has to fulfil.
pub mod Curve
pub mod Rates
pub mod Valid
pub mod Bounds
pub mod Growth
use bot_flash_loan.Prelude.{
  ℕ, ◌-◌, ◌^◌, Bool, true, false, not, ◌&&◌, List, [], ◌∷◌, Option, none, some, Result, ok, err,
  check, ok_or, ◌>>=◌, ◌>>◌, ◌==◌, ltb, leb, if◌then◌else◌,
}
use bot_flash_loan.Prelude.Int.{pos, ltb_ℤ}
use bot_flash_loan.Marginfi.Error.{MarginfiError}
use bot_flash_loan.Marginfi.Fixed.{
  Fixed, I80F48, zero_fixed, one_fixed, leb_fixed, eq_fixed, min_fixed, max_fixed,
}
use bot_flash_loan.Marginfi.Account.{Failure, marginfi, panic}

pub record RatePoint : Type 0 where
  pub util : ℕ
  pub rate : ℕ

pub record InterestRateConfig : Type 0 where
  pub optimal_utilization_rate : I80F48
  pub plateau_interest_rate : I80F48
  pub max_interest_rate : I80F48
  pub insurance_fee_fixed_apr : I80F48
  pub insurance_ir_fee : I80F48
  pub protocol_fixed_fee_apr : I80F48
  pub protocol_ir_fee : I80F48
  pub protocol_origination_fee : I80F48
  pub zero_util_rate : ℕ
  pub hundred_util_rate : ℕ
  pub points : List RatePoint
  pub curve_type : ℕ

pub record InterestRateConfigOpt : Type 0 where
  pub insurance_fee_fixed_apr : Option I80F48
  pub insurance_ir_fee : Option I80F48
  pub protocol_fixed_fee_apr : Option I80F48
  pub protocol_ir_fee : Option I80F48
  pub protocol_origination_fee : Option I80F48
  pub zero_util_rate : Option ℕ
  pub hundred_util_rate : Option ℕ
  pub points : Option (List RatePoint)

abbrev pub interest_curve_legacy : ℕ
interest_curve_legacy = 0

abbrev pub interest_curve_seven_point : ℕ
interest_curve_seven_point = 1

abbrev pub u32_max : ℕ
u32_max = 2 ^ 32 - 1

abbrev pub invalid_config : Failure
invalid_config = marginfi MarginfiError.invalid_config

-- The loop that collects the points in use; `seen_padding` is its state.
unfoldable pub used_points : Bool → List RatePoint → Result Failure (List RatePoint)
used_points seen_padding [] = ok []
used_points seen_padding (p ∷ ps) =
    let after_padding = used_points true ps in
    let after_point = used_points false ps in
    if p.util == 0
    then check (p.rate == 0) invalid_config >> after_padding
    else check (not seen_padding) invalid_config >> (after_point >>= λ used. ok (p ∷ used))

-- The loop over neighbours.
unfoldable pub check_ascending : List RatePoint → Result Failure (Unit {0})
check_ascending [] = ok tt
check_ascending (prev ∷ []) = ok tt
check_ascending (prev ∷ curr ∷ rest) =
    let later = check_ascending (curr ∷ rest) in
    check (ltb prev.util curr.util) invalid_config
    >> (check (leb prev.rate curr.rate) invalid_config >> later)

unfoldable pub all_between : ℕ → ℕ → List RatePoint → Bool
all_between lowest highest [] = true
all_between lowest highest (p ∷ ps) =
    (leb lowest p.rate && leb p.rate highest) && all_between lowest highest ps

unfoldable pub validate_seven_point : InterestRateConfig → Result Failure (Unit {0})
validate_seven_point c = do
  used ← used_points false c.points
  check_ascending used
  check (leb c.zero_util_rate c.hundred_util_rate) invalid_config
  check (all_between c.zero_util_rate c.hundred_util_rate used) invalid_config

unfoldable pub validate_legacy : InterestRateConfig → Result Failure (Unit {0})
validate_legacy c = do
  check (ltb_ℤ zero_fixed c.optimal_utilization_rate && ltb_ℤ c.optimal_utilization_rate one_fixed)
      invalid_config
  check (ltb_ℤ zero_fixed c.plateau_interest_rate) invalid_config
  check (ltb_ℤ zero_fixed c.max_interest_rate) invalid_config
  check (ltb_ℤ c.plateau_interest_rate c.max_interest_rate) invalid_config

unfoldable pub validate : InterestRateConfig → Result Failure (Unit {0})
validate c =
    if c.curve_type == interest_curve_legacy
    then validate_legacy c
    else if c.curve_type == interest_curve_seven_point
    then validate_seven_point c
    else err panic

-- The macro `set_if_some`.
abbrev pub set_if_some {ℓ} : {A : Type ℓ} → A → Option A → A
set_if_some old none = old
set_if_some old (some new) = new

unfoldable pub update : InterestRateConfig → InterestRateConfigOpt → InterestRateConfig
update c o = record c {
  insurance_fee_fixed_apr = set_if_some c.insurance_fee_fixed_apr o.insurance_fee_fixed_apr;
  insurance_ir_fee = set_if_some c.insurance_ir_fee o.insurance_ir_fee;
  protocol_fixed_fee_apr = set_if_some c.protocol_fixed_fee_apr o.protocol_fixed_fee_apr;
  protocol_ir_fee = set_if_some c.protocol_ir_fee o.protocol_ir_fee;
  protocol_origination_fee = set_if_some c.protocol_origination_fee o.protocol_origination_fee;
  zero_util_rate = set_if_some c.zero_util_rate o.zero_util_rate;
  hundred_util_rate = set_if_some c.hundred_util_rate o.hundred_util_rate;
  points = set_if_some c.points o.points;
  curve_type = interest_curve_seven_point;
}
