-- ===== src/Tests/TransferFee.antt =====
-- A fee of 1%, at most 5000.
use bot_flash_loan.Prelude.{ℕ, ◌+◌, ◌*◌, ◌/◌, ◌≤◌, ◌≡◌, refl, min, some, arith}
use bot_flash_loan.Marginfi.TransferFee.{
  TransferFee, Charges, ceil_div, pre_fee_between, calculate_pre_fee_amount,
  calculate_pre_fee_amount-le,
}

abbrev fee : TransferFee
fee = record { maximum_fee = 5000; transfer_fee_basis_points = 100 }

abbrev charged : ℕ → ℕ
charged n = min ((n * 100 + 9999) / 10000) 5000

fee-Charges : Charges fee charged
fee-Charges = record { rounded_up = λ n. omega arith; capped = λ n. omega arith }

sent_for_100000 : calculate_pre_fee_amount fee 100000 ≡ some 101011
unfolding calculate_pre_fee_amount pre_fee_between ceil_div
sent_for_100000 = refl

calculate_pre_fee_amount-le_example : 100000 + charged 101011 ≤ 101011
calculate_pre_fee_amount-le_example =
    calculate_pre_fee_amount-le fee charged 100000 101011 fee-Charges sent_for_100000
