-- ===== src/Word/LittleEndian.antt =====
-- Reading back what `to_le_bytes` wrote.
use bot_flash_loan.Prelude.{ℕ, zero, suc, ◌*◌, ◌/◌, ◌<◌, ◌≡◌, refl, arith, ◌++◌, length, take}
use bot_flash_loan.Word.{Bytes, to_le_bytes, from_le_bytes, u64_le, u128_le, u64_mod, u128_mod}

-- 256 ^ w
abbrev pub width_mod : ℕ → ℕ
width_mod zero = 1
width_mod (suc w) = 256 * width_mod w

pub from_le_bytes-to_le_bytes : (w n : ℕ) → n < width_mod w → from_le_bytes (to_le_bytes w n) ≡ n
from_le_bytes-to_le_bytes zero n h = omega arith
from_le_bytes-to_le_bytes (suc w) n h =
    omega (arith, from_le_bytes-to_le_bytes w (n / 256) (omega arith))

pub length-to_le_bytes : (w n : ℕ) → length (to_le_bytes w n) ≡ w
length-to_le_bytes zero n = refl
length-to_le_bytes (suc w) n = omega (arith, length-to_le_bytes w (n / 256))

-- A reader of eight bytes finds the `u64` that was written, and what follows it.
pub take-u64_le :
    (n : ℕ) (rest : Bytes) → n < u64_mod → from_le_bytes (take 8 (u64_le n ++ rest)) ≡ n
take-u64_le n rest h = from_le_bytes-to_le_bytes 8 n h

pub take-u128_le :
    (n : ℕ) (rest : Bytes) → n < u128_mod → from_le_bytes (take 16 (u128_le n ++ rest)) ≡ n
take-u128_le n rest h = from_le_bytes-to_le_bytes 16 n h
