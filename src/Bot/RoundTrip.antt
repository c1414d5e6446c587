-- ===== src/Bot/RoundTrip.antt =====
-- Every payload that the bot writes is read back by its receiver as the call's own arguments.
use bot_flash_loan.Prelude.{◌<◌, ◌≡◌, refl, true, false, Option, none, some, if◌then◌else◌}
use bot_flash_loan.Word.{u64_mod}
use bot_flash_loan.Word.LittleEndian.{from_le_bytes-to_le_bytes}
use bot_flash_loan.Bot.Orca.{min_sqrt_price}
use bot_flash_loan.Bot.Calls.{
  Call, start_flashloan, borrow, raydium, orca, repay, end_flashloan, invoked,
}
use bot_flash_loan.Bot.Wire.{Request, decode_marginfi, decode_raydium, decode_orca}

-- The receiver's reading of a call's payload.
abbrev pub understood : Call → Option Request
understood (raydium a amount_in amount_out_min) =
    decode_raydium (invoked (raydium a amount_in amount_out_min)).payload
understood (orca a amount_in amount_out_min) =
    decode_orca (invoked (orca a amount_in amount_out_min)).payload
understood c = decode_marginfi (invoked c).payload

-- What the call means.
abbrev pub meant : Call → Request
meant (start_flashloan a end_index) = Request.start_flashloan end_index
meant (borrow a amount) = Request.borrow amount
meant (raydium a amount_in amount_out_min) = Request.swap_base_in amount_in amount_out_min
meant (orca a amount_in amount_out_min) = Request.swap (record {
  amount = amount_in;
  threshold = amount_out_min;
  price_limit = min_sqrt_price;
  is_input = true;
  a_to_b = true;
})
meant (repay a amount repay_all) = Request.repay amount (if repay_all then some true else none)
meant (end_flashloan a) = Request.end_flashloan

-- Every number of the call is a `u64`.
abbrev pub InRange : Call → Type 0
InRange (start_flashloan a end_index) = end_index < u64_mod
InRange (borrow a amount) = amount < u64_mod
InRange (raydium a amount_in amount_out_min) = (amount_in < u64_mod) × (amount_out_min < u64_mod)
InRange (orca a amount_in amount_out_min) = (amount_in < u64_mod) × (amount_out_min < u64_mod)
InRange (repay a amount repay_all) = amount < u64_mod
InRange (end_flashloan a) = Unit

-- For a call whose numbers are below 2 ^ 64, the receiver reads the payload of the invoked
-- instruction back as the call's own arguments, with nothing left over.
pub understood-eq-meant : (c : Call) → InRange c → understood c ≡ some (meant c)
understood-eq-meant (start_flashloan a n) h = rw (from_le_bytes-to_le_bytes 8 n h)
understood-eq-meant (borrow a n) h = rw (from_le_bytes-to_le_bytes 8 n h)
understood-eq-meant (raydium a m n) h =
    rw (from_le_bytes-to_le_bytes 8 m h.0, from_le_bytes-to_le_bytes 8 n h.1)
understood-eq-meant (orca a m n) h =
    rw (from_le_bytes-to_le_bytes 8 m h.0, from_le_bytes-to_le_bytes 8 n h.1)
understood-eq-meant (repay a n true) h = rw (from_le_bytes-to_le_bytes 8 n h)
understood-eq-meant (repay a n false) h = rw (from_le_bytes-to_le_bytes 8 n h)
understood-eq-meant (end_flashloan a) h = refl
