-- ===== src/Marginfi/Fixed.antt =====
-- The fixed-point numbers of the `fixed` crate. An `I80F48` is its 128 bits read as a signed
-- integer, the value times 2 ^ 48; `WrappedI80F48` holds the same bits. The crate is not part of the
-- repository: its operations are the parameter `Fixed`, and `FixedLaws` is what is relied on.
use bot_flash_loan.Prelude.{
  ℕ, ◌+◌, ◌-◌, ◌*◌, ◌/◌, ◌%◌, ◌^◌, ◌≤◌, ◌<◌, ◌≡◌, Bool, not, Option, some, if◌then◌else◌,
}
use bot_flash_loan.Prelude.Int.{ℤ, pos, negsuc, ◌+ℤ◌, ◌-ℤ◌, ltb_ℤ}

abbrev pub I80F48 : Type 0
I80F48 = ℤ

abbrev pub zero_fixed : I80F48
zero_fixed = pos 0

abbrev pub one_fixed : I80F48
one_fixed = pos (2 ^ 48)

abbrev pub two_fixed : I80F48
two_fixed = pos (2 ^ 49)

-- `EMPTY_BALANCE_THRESHOLD`, 1.
abbrev pub empty_balance_threshold : I80F48
empty_balance_threshold = one_fixed

-- `ZERO_AMOUNT_THRESHOLD`, 0.0001 to the nearest 2 ^ -48.
abbrev pub zero_amount_threshold : I80F48
zero_amount_threshold = pos 28147497671

-- `SECONDS_PER_YEAR`, of 365 days.
abbrev pub seconds_per_year : ℕ
seconds_per_year = 31536000

-- `none` is an overflow or a division by zero; of `neg` it is the panic at the least
-- number. `to_u32` is the whole part where it fits; where it does not, the crate leaves it open.
pub record Fixed : Type 0 where
  pub checked_add : I80F48 → I80F48 → Option I80F48
  pub checked_sub : I80F48 → I80F48 → Option I80F48
  pub checked_mul : I80F48 → I80F48 → Option I80F48
  pub checked_div : I80F48 → I80F48 → Option I80F48
  pub checked_floor : I80F48 → Option I80F48
  pub checked_ceil : I80F48 → Option I80F48
  pub checked_to_u64 : I80F48 → Option ℕ
  pub to_u32 : I80F48 → ℕ
  pub saturating_add : I80F48 → I80F48 → I80F48
  pub saturating_sub : I80F48 → I80F48 → I80F48
  pub neg : I80F48 → Option I80F48
  pub from_u64 : ℕ → I80F48

-- Sums, differences and negation are exact where they return, and so is the conversion of a `u64`.
pub record FixedLaws (fx : Fixed) : Type 0 where
  pub add_exact : (a b c : I80F48) → fx.checked_add a b ≡ some c → c ≡ a +ℤ b
  pub sub_exact : (a b c : I80F48) → fx.checked_sub a b ≡ some c → c ≡ a -ℤ b
  pub neg_exact : (a c : I80F48) → fx.neg a ≡ some c → c ≡ pos 0 -ℤ a
  pub from_u64_exact : (n : ℕ) → fx.from_u64 n ≡ pos (n * 2 ^ 48)

-- Of non-negative numbers every operation returns where its result fits, and products and quotients
-- are rounded down.
pub record FixedRounding (fx : Fixed) : Type 0 where
  pub add_fits : (a b : ℕ) → a + b < 2 ^ 127 → fx.checked_add (pos a) (pos b) ≡ some (pos (a + b))
  pub sub_fits : (a b : ℕ) → b ≤ a → fx.checked_sub (pos a) (pos b) ≡ some (pos (a - b))
  pub mul_fits :
      (a b : ℕ)
      → a * b / 2 ^ 48 < 2 ^ 127
      → fx.checked_mul (pos a) (pos b) ≡ some (pos (a * b / 2 ^ 48))
  pub div_fits :
      (a b : ℕ)
      → 0 < b
      → a * 2 ^ 48 / b < 2 ^ 127
      → fx.checked_div (pos a) (pos b) ≡ some (pos (a * 2 ^ 48 / b))
  pub mul_floor :
      (a b : ℕ) (c : I80F48) → fx.checked_mul (pos a) (pos b) ≡ some c → c ≡ pos (a * b / 2 ^ 48)
  pub div_floor :
      (a b : ℕ) (c : I80F48)
      → 0 < b
      → fx.checked_div (pos a) (pos b) ≡ some c
      → c ≡ pos (a * 2 ^ 48 / b)

-- The comparisons of the crate are those of the values.
abbrev pub leb_fixed : I80F48 → I80F48 → Bool
leb_fixed a b = not (ltb_ℤ b a)

abbrev pub min_fixed : I80F48 → I80F48 → I80F48
min_fixed a b = if ltb_ℤ b a then b else a

-- Rust's `max` returns its second argument where the two are equal.
abbrev pub max_fixed : I80F48 → I80F48 → I80F48
max_fixed a b = if ltb_ℤ b a then a else b

abbrev pub eq_fixed : I80F48 → I80F48 → Bool
eq_fixed a b = if ltb_ℤ a b then not (ltb_ℤ a b) else not (ltb_ℤ b a)

-- The crate's `frac`, the bits below the point; never negative, as the bits are a two's complement.
abbrev pub frac : I80F48 → I80F48
frac (pos n) = pos (n % 2 ^ 48)
frac (negsuc n) = pos (2 ^ 48 - 1 - n % 2 ^ 48)
