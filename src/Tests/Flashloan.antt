-- ===== src/Tests/Flashloan.antt =====
-- A transaction that starts a flash loan, borrows and ends it.
use bot_flash_loan.Prelude.{◌≡◌, ◌↔◌, refl, false, List, [], ◌∷◌, Result, ok, ◌++◌, arith}
use bot_flash_loan.Prelude.Bits.{bit_and, bit_or, combine}
use bot_flash_loan.Prelude.Int.{◌+ℤ◌}
use bot_flash_loan.Word.{u64_le}
use bot_flash_loan.Solana.{AccountInfo, Instruction, Pubkey, writable_meta}
use bot_flash_loan.Marginfi.Account.{
  MarginfiAccount, Failure, empty_deactivated, get_flag, set_flag, unset_flag,
}
use bot_flash_loan.Marginfi.Account.Flags.{in_flashloan, has}
use bot_flash_loan.Marginfi.Sysvar.{validate_not_cpi_with_sysvar, validate_not_cpi_by_stack_height}
use bot_flash_loan.Marginfi.Risk.{
  BankAccountWithPrice, collateral, check_account_init_health, check_account_risk_tiers,
  count_liabilities, get_account_health_components, health_components_from, check_account_health,
}
use bot_flash_loan.Marginfi.Flashloan.{
  start_flashloan, end_flashloan, lending_account_start_flashloan, lending_account_end_flashloan,
  check_flashloan_can_start,
}
use bot_flash_loan.Marginfi.Flashloan.Checks.{IsEnd, CanStart, check_flashloan_can_start_iff}
use bot_flash_loan.Marginfi.Flashloan.Safety.{
  Runs, Settled, starts, ends, other, done, next, Runs-not-in_flashloan, start_flashloan-Settled,
}
use bot_flash_loan.Tests.Exact.{exact, tokens}

abbrev pub program : Pubkey
program = 7

abbrev pub key : Pubkey
key = 50

abbrev pub authority : Pubkey
authority = 12

abbrev pub start_ix : Instruction
start_ix = record {
  program_id = program;
  accounts = writable_meta key false ∷ [];
  payload = start_flashloan ++ u64_le 2;
}

abbrev pub other_ix : Instruction
other_ix = record { program_id = 8; accounts = []; payload = [] }

abbrev pub end_ix : Instruction
end_ix = record {
  program_id = program;
  accounts = writable_meta key false ∷ [];
  payload = end_flashloan;
}

abbrev pub transaction : List Instruction
transaction = start_ix ∷ other_ix ∷ end_ix ∷ []

abbrev pub free : MarginfiAccount
free = record {
  group = 1;
  authority = authority;
  balances = [];
  account_flags = 0;
  last_update = 0;
}

abbrev pub lent : MarginfiAccount
lent = record free { account_flags = 2 }

-- Two positions worth 5 and 3, the second a debt.
abbrev priced : List BankAccountWithPrice
priced =
    record {
      balance = record empty_deactivated { asset_shares = tokens 5 };
      risk_tier = collateral;
      weighted_value = ok (tokens 5, tokens 0);
    }
    ∷ record {
      balance = record empty_deactivated { liability_shares = tokens 3 };
      risk_tier = collateral;
      weighted_value = ok (tokens 0, tokens 3);
    }
    ∷ []

abbrev pub test_load :
    MarginfiAccount → List AccountInfo → Result Failure (List BankAccountWithPrice)
test_load a remaining = ok priced

start_ok :
    lending_account_start_flashloan program
      (record { instructions = transaction; current_index = 0; stack_height = 1 })
      authority
      key
      free
      2
    ≡ ok lent
unfolding lending_account_start_flashloan check_flashloan_can_start validate_not_cpi_with_sysvar
    validate_not_cpi_by_stack_height get_flag set_flag bit_and bit_or combine
start_ok = refl

end_ok :
    lending_account_end_flashloan exact test_load
      (record { instructions = transaction; current_index = 2; stack_height = 1 })
      authority
      lent
      []
    ≡ ok free
unfolding lending_account_end_flashloan validate_not_cpi_by_stack_height get_flag unset_flag
    check_account_init_health check_account_health get_account_health_components
    health_components_from check_account_risk_tiers count_liabilities ◌+ℤ◌ bit_and combine
end_ok = refl

other_ix-not_IsEnd : ¬ IsEnd program key other_ix
other_ix-not_IsEnd e = let p = e.program in omega (arith, p)

lent-Runs : Runs program exact test_load transaction key 1 lent free
lent-Runs =
    next refl (other other_ix-not_IsEnd refl)
      (next refl (ends authority [] end_ok) (done (omega arith)))

free-Runs : Runs program exact test_load transaction key 0 free free
free-Runs = next refl (starts authority 2 start_ok) lent-Runs

start_flashloan-Settled_example :
    (has in_flashloan free ≡ false) × Settled program exact test_load transaction key 1 lent free
start_flashloan-Settled_example =
    start_flashloan-Settled program exact test_load transaction key 0 free lent free authority 2
      start_ok lent-Runs

Runs-not-in_flashloan_example : has in_flashloan free ≡ false
unfolding get_flag bit_and combine
Runs-not-in_flashloan_example =
    Runs-not-in_flashloan program exact test_load transaction key free free free-Runs refl

check_flashloan_can_start_iff_example :
    (check_flashloan_can_start program
        (record { instructions = transaction; current_index = 0; stack_height = 1 })
        key
        free
        2
      ≡ ok tt)
    ↔ CanStart program
        (record { instructions = transaction; current_index = 0; stack_height = 1 })
        key
        free
        2
check_flashloan_can_start_iff_example =
    check_flashloan_can_start_iff program
      (record { instructions = transaction; current_index = 0; stack_height = 1 }) key free 2
