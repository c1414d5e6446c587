-- ===== src/Bot/Wire.antt =====
-- How the receivers read the bytes that the bot writes: an eight-byte tag (one byte for Raydium), then
-- the arguments, little endian, and nothing behind them. The formats and the tags are the receivers',
-- written out here again: the tag of an Anchor instruction is the first eight bytes of the SHA-256
-- hash of `global:` and its name (of the two flash loan instructions it also stands in
-- marginfi-v2/type-crate/src/constants.rs), the arguments are those of MarginFi's signatures.
use bot_flash_loan.Prelude.{
  ℕ, zero, suc, Bool, true, false, Option, none, some, [], ◌∷◌, ◌==◌, if◌then◌else◌,
}
use bot_flash_loan.Word.{Bytes, from_le_bytes, eq_bytes}

infixl 5 ◌>>=◌
abbrev ◌>>=◌ : {A B : Type 0} → Option A → (A → Option B) → Option B
none >>= f = none
some a >>= f = f a

-- The first `n` bytes and the rest.
abbrev pub split : ℕ → Bytes → Option (Bytes × Bytes)
split zero bs = some ([], bs)
split (suc n) [] = none
split (suc n) (b ∷ bs) = do (front, rest) ← split n bs; some (b ∷ front, rest)

abbrev pub read_uint : ℕ → Bytes → Option (ℕ × Bytes)
read_uint w bs = do (front, rest) ← split w bs; some (from_le_bytes front, rest)

abbrev pub read_bool : Bytes → Option (Bool × Bytes)
read_bool [] = none
read_bool (b ∷ bs) = if b == 0 then some (false, bs) else if b == 1 then some (true, bs) else none

abbrev pub read_option_bool : Bytes → Option (Option Bool × Bytes)
read_option_bool [] = none
read_option_bool (b ∷ bs) =
    if b == 0
    then some (none, bs)
    else if b == 1
    then (read_bool bs >>= λ p. some (some p.0, p.1))
    else none

abbrev pub end_of_input {ℓ} : {A : Type ℓ} → Bytes → A → Option A
end_of_input [] a = some a
end_of_input (_ ∷ _) a = none

-- A request as the receiver understands it.
pub data Request : Type 0 where
  start_flashloan borrow : ℕ → Request
  repay : ℕ → Option Bool → Request
  end_flashloan : Request
  swap_base_in : ℕ → ℕ → Request
  swap :
      record { amount : ℕ; threshold : ℕ; price_limit : ℕ; is_input : Bool; a_to_b : Bool }
      → Request

-- The hashes of `global:lending_account_start_flashloan`, `global:lending_account_borrow`,
-- `global:lending_account_repay`, `global:lending_account_end_flashloan` and `global:swap`.
abbrev start_flashloan_tag : Bytes
start_flashloan_tag = 0x0e ∷ 0x83 ∷ 0x21 ∷ 0xdc ∷ 0x51 ∷ 0xba ∷ 0xb4 ∷ 0x6b ∷ []

abbrev borrow_tag : Bytes
borrow_tag = 0x04 ∷ 0x7e ∷ 0x74 ∷ 0x35 ∷ 0x30 ∷ 0x05 ∷ 0xd4 ∷ 0x1f ∷ []

abbrev repay_tag : Bytes
repay_tag = 0x4f ∷ 0xd1 ∷ 0xac ∷ 0xb1 ∷ 0xde ∷ 0x33 ∷ 0xad ∷ 0x97 ∷ []

abbrev end_flashloan_tag : Bytes
end_flashloan_tag = 0x69 ∷ 0x7c ∷ 0xc9 ∷ 0x6a ∷ 0x99 ∷ 0x02 ∷ 0x08 ∷ 0x9c ∷ []

abbrev swap_tag : Bytes
swap_tag = 248 ∷ 198 ∷ 158 ∷ 145 ∷ 225 ∷ 117 ∷ 135 ∷ 200 ∷ []

abbrev pub marginfi_args : Bytes → Bytes → Option Request
marginfi_args tag args =
    if eq_bytes tag start_flashloan_tag
    then (read_uint 8 args >>= λ p. end_of_input p.1 (Request.start_flashloan p.0))
    else if eq_bytes tag borrow_tag
    then (read_uint 8 args >>= λ p. end_of_input p.1 (Request.borrow p.0))
    else if eq_bytes tag repay_tag
    then (read_uint 8 args >>= λ p.
        read_option_bool p.1 >>= λ q. end_of_input q.1 (Request.repay p.0 q.0))
    else if eq_bytes tag end_flashloan_tag
    then end_of_input args Request.end_flashloan
    else none

abbrev pub decode_marginfi : Bytes → Option Request
decode_marginfi bs = do (tag, args) ← split 8 bs; marginfi_args tag args

abbrev pub decode_raydium : Bytes → Option Request
decode_raydium [] = none
decode_raydium (tag ∷ args) =
    if tag == 9
    then (read_uint 8 args >>= λ p.
        read_uint 8 p.1 >>= λ q. end_of_input q.1 (Request.swap_base_in p.0 q.0))
    else none

abbrev pub swap_args : Bytes → Option Request
swap_args args = do
  (amount, r₁) ← read_uint 8 args
  (threshold, r₂) ← read_uint 8 r₁
  (price_limit, r₃) ← read_uint 16 r₂
  (is_input, r₄) ← read_bool r₃
  (a_to_b, r₅) ← read_bool r₄
  end_of_input r₅ (
      Request.swap (record {
        amount = amount;
        threshold = threshold;
        price_limit = price_limit;
        is_input = is_input;
        a_to_b = a_to_b;
      }))

abbrev pub decode_orca : Bytes → Option Request
decode_orca bs = do (tag, args) ← split 8 bs; if eq_bytes tag swap_tag then swap_args args else none
