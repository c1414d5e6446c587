-- ===== src/Marginfi/Account/Flags.antt =====
-- The flags of an account are independent bits.
use bot_flash_loan.Prelude.{ℕ, ◌<◌, ◌≡◌, refl, Bool, not, ◌&&◌, ◌||◌, ◌==◌, if◌then◌else◌, arith}
use bot_flash_loan.Prelude.Bits.{mask, bit, bit-bit_or, bit-bit_and, bit_and-mask, bit-lt}
use bot_flash_loan.Marginfi.Account.{MarginfiAccount, set_flag, unset_flag, get_flag, not_u64}

-- The flags that the program uses, by their bit.
pub data Flag : Type 0 where
  disabled in_flashloan in_receivership in_deleverage frozen : Flag

abbrev pub index : Flag → ℕ
index disabled = 0
index in_flashloan = 1
index in_receivership = 4
index in_deleverage = 5
index frozen = 6

abbrev pub has : Flag → MarginfiAccount → Bool
has f a = get_flag a (mask (index f))

abbrev pub same : Flag → Flag → Bool
same f g = index f == index g

index-lt : (f : Flag) → index f < 64
index-lt disabled = omega arith
index-lt in_flashloan = omega arith
index-lt in_receivership = omega arith
index-lt in_deleverage = omega arith
index-lt frozen = omega arith

pub has-bit : (f : Flag) (a : MarginfiAccount) → has f a ≡ (bit (index f) a.account_flags == 1)
unfolding get_flag
has-bit disabled a = ground (arith, bit_and-mask 0 a.account_flags (omega arith))
has-bit in_flashloan a = ground (arith, bit_and-mask 1 a.account_flags (omega arith))
has-bit in_receivership a = ground (arith, bit_and-mask 4 a.account_flags (omega arith))
has-bit in_deleverage a = ground (arith, bit_and-mask 5 a.account_flags (omega arith))
has-bit frozen a = ground (arith, bit_and-mask 6 a.account_flags (omega arith))

bit-mask : (f g : Flag) → bit (index g) (mask (index f)) ≡ (if same f g then 1 else 0)
bit-mask disabled disabled = refl
bit-mask disabled _ = refl
bit-mask in_flashloan disabled = refl
bit-mask in_flashloan _ = refl
bit-mask in_receivership disabled = refl
bit-mask in_receivership _ = refl
bit-mask in_deleverage disabled = refl
bit-mask in_deleverage _ = refl
bit-mask frozen disabled = refl
bit-mask frozen _ = refl

bit-not_mask : (f g : Flag) → bit (index g) (not_u64 (mask (index f))) ≡ (if same f g then 0 else 1)
bit-not_mask disabled disabled = refl
bit-not_mask disabled _ = refl
bit-not_mask in_flashloan disabled = refl
bit-not_mask in_flashloan _ = refl
bit-not_mask in_receivership disabled = refl
bit-not_mask in_receivership _ = refl
bit-not_mask in_deleverage disabled = refl
bit-not_mask in_deleverage _ = refl
bit-not_mask frozen disabled = refl
bit-not_mask frozen _ = refl

-- After `set_flag` with one of the program's flags, that flag is set and every other one is as it
-- was.
pub has-set_flag :
    (f g : Flag) (a : MarginfiAccount) → has g (set_flag a (mask (index f))) ≡ (same f g || has g a)
unfolding set_flag
has-set_flag f g a =
    rw (has-bit g (set_flag a (mask (index f))), has-bit g a)
      (ground (
        arith,
        bit-bit_or (index g) a.account_flags (mask (index f)) (index-lt g),
        bit-mask f g,
        bit-lt (index g) a.account_flags,
      ))

-- After `unset_flag` with one of the program's flags, that flag is not set and every other one is
-- as it was.
pub has-unset_flag :
    (f g : Flag) (a : MarginfiAccount)
    → has g (unset_flag a (mask (index f))) ≡ (not (same f g) && has g a)
unfolding unset_flag
has-unset_flag f g a =
    rw (has-bit g (unset_flag a (mask (index f))), has-bit g a)
      (ground (
        arith,
        bit-bit_and (index g) a.account_flags (not_u64 (mask (index f))) (index-lt g),
        bit-not_mask f g,
        bit-lt (index g) a.account_flags,
      ))
