-- ===== src/Tests/Exact.antt =====
-- Fixed-point arithmetic for the concrete runs: sums are exact and never overflow, products and
-- quotients are of the non-negative numbers, rounded down.
use bot_flash_loan.Prelude.{
  ℕ, ◌+◌, ◌-◌, ◌*◌, ◌/◌, ◌^◌, refl, Option, none, some, ◌==◌, if◌then◌else◌, arith,
}
use bot_flash_loan.Prelude.Int.{pos, negsuc, ◌+ℤ◌, ◌-ℤ◌}
use bot_flash_loan.Marginfi.Fixed.{Fixed, FixedLaws, FixedRounding, I80F48}

abbrev mul : I80F48 → I80F48 → Option I80F48
mul (pos a) (pos b) = some (pos (a * b / 2 ^ 48))
mul (pos a) (negsuc b) = none
mul (negsuc a) b = none

abbrev div : I80F48 → I80F48 → Option I80F48
div (pos a) (pos b) = if b == 0 then none else some (pos (a * 2 ^ 48 / b))
div (pos a) (negsuc b) = none
div (negsuc a) b = none

abbrev floor : I80F48 → Option I80F48
floor (pos a) = some (pos (a / 2 ^ 48 * 2 ^ 48))
floor (negsuc a) = none

abbrev ceil : I80F48 → Option I80F48
ceil (pos a) = some (pos ((a + 2 ^ 48 - 1) / 2 ^ 48 * 2 ^ 48))
ceil (negsuc a) = none

abbrev to_u64 : I80F48 → Option ℕ
to_u64 (pos a) = some (a / 2 ^ 48)
to_u64 (negsuc a) = none

abbrev to_u32 : I80F48 → ℕ
to_u32 (pos a) = a / 2 ^ 48
to_u32 (negsuc a) = 0

abbrev pub exact : Fixed
exact = record {
  checked_add = λ a b. some (a +ℤ b);
  checked_sub = λ a b. some (a -ℤ b);
  checked_mul = mul;
  checked_div = div;
  checked_floor = floor;
  checked_ceil = ceil;
  checked_to_u64 = to_u64;
  to_u32 = to_u32;
  saturating_add = λ a b. a +ℤ b;
  saturating_sub = λ a b. a -ℤ b;
  neg = λ a. some (pos 0 -ℤ a);
  from_u64 = λ n. pos (n * 2 ^ 48);
}

pub exact-FixedLaws : FixedLaws exact
exact-FixedLaws = record {
  add_exact = λ a b c h. cc;
  sub_exact = λ a b c h. cc;
  neg_exact = λ a c h. cc;
  from_u64_exact = λ n. refl;
}

pub exact-FixedRounding : FixedRounding exact
unfolding ◌+ℤ◌ ◌-ℤ◌
exact-FixedRounding = record {
  add_fits = λ a b h. ground arith;
  sub_fits = λ a b h. ground arith;
  mul_fits = λ a b h. refl;
  div_fits = λ a b h k. ground (arith, h);
  mul_floor = λ a b c h. cc;
  div_floor = λ a b c h k. ground (arith, h, k);
}

-- A whole number of tokens.
abbrev pub tokens : ℕ → I80F48
tokens n = pos (n * 2 ^ 48)
