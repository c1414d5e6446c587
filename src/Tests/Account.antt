-- ===== src/Tests/Account.antt =====
-- Flags, risk tiers, error codes, instruction guards and balance slots at concrete values.
use bot_flash_loan.Prelude.{◌≤◌, ◌≡◌, ◌≢◌, ◌↔◌, ◌⊎◌, refl, true, List, [], ◌∷◌, ok, length, take}
use bot_flash_loan.Marginfi.Error.{MarginfiError, code}
use bot_flash_loan.Marginfi.Error.Codes.{from_u32, from_u32-code_iff}
use bot_flash_loan.Marginfi.Account.{empty_deactivated}
use bot_flash_loan.Marginfi.Sysvar.{contains_hash, validate_ixes_exclusive}
use bot_flash_loan.Marginfi.Sysvar.Guards.{validate_ixes_exclusive-contains_hash}
use bot_flash_loan.Marginfi.Risk.{BankAccountWithPrice, isolated, check_account_risk_tiers}
use bot_flash_loan.Marginfi.Risk.Tiers.{
  liability_count, isolated_liability_count, check_account_risk_tiers_iff,
}
use bot_flash_loan.Marginfi.Flashloan.{start_flashloan, end_flashloan}
use bot_flash_loan.Tests.Exact.{tokens}
use bot_flash_loan.Tests.Flashloan.{transaction, end_ix, program}

from_u32-code_iff_example :
    (from_u32 (code MarginfiError.math_error) ≡ MarginfiError.math_error)
    ↔ (MarginfiError.math_error ≢ MarginfiError.account_frozen)
from_u32-code_iff_example = from_u32-code_iff MarginfiError.math_error

abbrev indebted : List BankAccountWithPrice
indebted =
    record {
      balance = record empty_deactivated { liability_shares = tokens 3 };
      risk_tier = isolated;
      weighted_value = ok (tokens 0, tokens 3);
    }
    ∷ []

check_account_risk_tiers_iff_example :
    (check_account_risk_tiers indebted ≡ ok tt)
    ↔ ((isolated_liability_count indebted ≡ 0) ⊎ (liability_count indebted ≡ 1))
check_account_risk_tiers_iff_example = check_account_risk_tiers_iff indebted

validate_ixes_exclusive-contains_hash_example :
    (8 ≤ length end_ix.payload)
    × (contains_hash (start_flashloan ∷ end_flashloan ∷ []) (take 8 end_ix.payload) ≡ true)
unfolding validate_ixes_exclusive
validate_ixes_exclusive-contains_hash_example =
    validate_ixes_exclusive-contains_hash transaction program (start_flashloan ∷ end_flashloan ∷ [])
      2 end_ix refl refl refl
