-- ===== src/Prelude/Machine.antt =====
-- Machine integers: an `i64` is an integer in range, and what leaves the range saturates or panics.
use bot_flash_loan.Prelude.{
  ℕ, ◌+◌, ◌-◌, ◌%◌, ◌^◌, not, ◌&&◌, Option, none, some, leb, if◌then◌else◌,
}
use bot_flash_loan.Prelude.Int.{ℤ, pos, negsuc, ◌+ℤ◌, ◌-ℤ◌, ltb_ℤ}

abbrev pub i64_max : ℤ
i64_max = pos (2 ^ 63 - 1)

abbrev pub i64_min : ℤ
i64_min = negsuc (2 ^ 63 - 1)

abbrev pub saturate_i64 : ℤ → ℤ
saturate_i64 a = if ltb_ℤ i64_max a then i64_max else if ltb_ℤ a i64_min then i64_min else a

abbrev pub saturating_sub_i64 : ℤ → ℤ → ℤ
saturating_sub_i64 a b = saturate_i64 (a -ℤ b)

abbrev pub saturating_add_i64 : ℤ → ℤ → ℤ
saturating_add_i64 a b = saturate_i64 (a +ℤ b)

-- `a - b`, where the overflow check panics.
abbrev pub sub_i64 : ℤ → ℤ → Option ℤ
sub_i64 a b =
    if not (ltb_ℤ i64_max (a -ℤ b)) && not (ltb_ℤ (a -ℤ b) i64_min) then some (a -ℤ b) else none

-- `saturating_add(1)` on a `u8`.
abbrev pub saturating_inc_u8 : ℕ → ℕ
saturating_inc_u8 n = if leb 255 n then 255 else n + 1

-- `as u64` on an `i64`, in two's complement.
abbrev pub as_u64 : ℤ → ℕ
as_u64 (pos n) = n % 2 ^ 64
as_u64 (negsuc n) = 2 ^ 64 - 1 - n % 2 ^ 64
