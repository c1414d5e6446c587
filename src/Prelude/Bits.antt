-- ===== src/Prelude/Bits.antt =====
-- `|` and `&` on a `u64`, bit by bit: the account and bank flags are bit fields.
use bot_flash_loan.Prelude.{ℕ, zero, suc, ◌+◌, ◌*◌, ◌/◌, ◌%◌, ◌<◌, min, ◌≡◌, refl, arith}
use Prim.Native.Nat.{max}

-- The lowest `w` bits of the two numbers, combined by `f`.
unfoldable pub combine : (ℕ → ℕ → ℕ) → ℕ → ℕ → ℕ → ℕ
combine f zero a b = 0
combine f (suc w) a b = let rest = combine f w (a / 2) (b / 2) in f (a % 2) (b % 2) + 2 * rest

unfoldable pub bit_and : ℕ → ℕ → ℕ
bit_and = combine min 64

unfoldable pub bit_or : ℕ → ℕ → ℕ
bit_or = combine max 64

-- Bit `k` of a number, 0 or 1.
abbrev pub bit : ℕ → ℕ → ℕ
bit zero a = a % 2
bit (suc k) a = bit k (a / 2)

-- The mask with bit `k` alone.
abbrev pub mask : ℕ → ℕ
mask zero = 1
mask (suc k) = 2 * mask k

pub bit-lt : (k a : ℕ) → bit k a < 2
bit-lt zero a = omega arith
bit-lt (suc k) a = bit-lt k (a / 2)

-- What is added below a doubled number does not show in its upper bits.
half_of_double : (low rest : ℕ) → low < 2 → (low + 2 * rest) / 2 ≡ rest
half_of_double low rest h = omega arith

low_of_double : (low rest : ℕ) → low < 2 → (low + 2 * rest) % 2 ≡ low
low_of_double low rest h = omega arith

module _ (f : ℕ → ℕ → ℕ) (digit : (a b : ℕ) → f (a % 2) (b % 2) < 2) where
  bit-combine : (w k a b : ℕ) → k < w → bit k (combine f w a b) ≡ f (bit k a) (bit k b)
  unfolding combine
  bit-combine zero k a b h = absurd (omega (arith, h))
  bit-combine (suc w) zero a b h = low_of_double _ _ (digit a b)
  bit-combine (suc w) (suc k) a b h =
      rw (half_of_double (f (a % 2) (b % 2)) (combine f w (a / 2) (b / 2)) (digit a b))
        (bit-combine w k (a / 2) (b / 2) (omega (arith, h)))

pub bit-bit_and : (k a b : ℕ) → k < 64 → bit k (bit_and a b) ≡ min (bit k a) (bit k b)
unfolding bit_and
bit-bit_and k a b h = bit-combine min (λ x y. omega arith) 64 k a b h

pub bit-bit_or : (k a b : ℕ) → k < 64 → bit k (bit_or a b) ≡ max (bit k a) (bit k b)
unfolding bit_or
bit-bit_or k a b h = bit-combine max (λ x y. omega arith) 64 k a b h

combine-min-zero : (w a : ℕ) → combine min w a 0 ≡ 0
unfolding combine
combine-min-zero zero a = refl
combine-min-zero (suc w) a = omega (arith, combine-min-zero w (a / 2))

half_mask : (k : ℕ) → mask (suc k) / 2 ≡ mask k
half_mask k = omega arith

combine-min-mask : (w k a : ℕ) → k < w → combine min w a (mask k) ≡ bit k a * mask k
unfolding combine
combine-min-mask zero k a h = absurd (omega (arith, h))
combine-min-mask (suc w) zero a h = omega (arith, combine-min-zero w (a / 2))
combine-min-mask (suc w) (suc k) a h =
    let ih = combine-min-mask w k (a / 2) (omega (arith, h)) in rw (half_mask k) (omega (arith, ih))

-- `a & (1 << k)` is the bit, moved to its place.
pub bit_and-mask : (k a : ℕ) → k < 64 → bit_and a (mask k) ≡ bit k a * mask k
unfolding bit_and
bit_and-mask k a h = combine-min-mask 64 k a h
