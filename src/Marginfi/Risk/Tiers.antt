-- ===== src/Marginfi/Risk/Tiers.antt =====
-- The early exit of the risk tier check does not change what it accepts.
use bot_flash_loan.Prelude.{
  ℕ, ◌+◌, ◌≤◌, ◌≡◌, ◌↔◌, ◌⊎◌, inl, not, ◌&&◌, List, [], ◌∷◌, ok, arith, if◌then◌else◌,
}
use bot_flash_loan.Marginfi.Account.{liabilities, is_empty}
use bot_flash_loan.Marginfi.Risk.{
  BankAccountWithPrice, is_isolated, count_liabilities, check_account_risk_tiers,
}

-- Balances with a liability, and those of them in an isolated bank.
abbrev pub liability_count : List BankAccountWithPrice → ℕ
liability_count [] = 0
liability_count (b ∷ bs) = (if is_empty b.balance liabilities then 0 else 1) + liability_count bs

abbrev pub isolated_liability_count : List BankAccountWithPrice → ℕ
isolated_liability_count [] = 0
isolated_liability_count (b ∷ bs) =
    (if not (is_empty b.balance liabilities) && is_isolated b.risk_tier then 1 else 0)
    + isolated_liability_count bs

isolated-le-liability :
    (bs : List BankAccountWithPrice) → isolated_liability_count bs ≤ liability_count bs
isolated-le-liability [] = omega arith
isolated-le-liability (b ∷ bs) = ground (arith, isolated-le-liability bs)

-- Either the loop has counted everything, or it has stopped at two isolated liabilities.
abbrev Counted : ℕ → ℕ → List BankAccountWithPrice → ℕ × ℕ → Type 0
Counted iso total bs r =
    ((r.0 ≡ iso + isolated_liability_count bs) × (r.1 ≡ total + liability_count bs))
    ⊎ ((2 ≤ r.0) × (2 ≤ r.1) × (2 ≤ iso + isolated_liability_count bs))

count_liabilities-Counted :
    (iso total : ℕ) (bs : List BankAccountWithPrice)
    → iso ≤ 1
    → iso ≤ total
    → Counted iso total bs (count_liabilities iso total bs)
unfolding count_liabilities
count_liabilities-Counted iso total [] h k = inl (omega arith, omega arith)
count_liabilities-Counted iso total (b ∷ bs) h k = ground (
  arith,
  count_liabilities-Counted iso total bs h k,
  count_liabilities-Counted iso (total + 1) bs h,
  count_liabilities-Counted (iso + 1) (total + 1) bs,
)

-- The risk tier check, with its early exit, accepts exactly the accounts that owe nothing to an
-- isolated bank or have exactly one liability.
pub check_account_risk_tiers_iff :
    (bs : List BankAccountWithPrice)
    → (check_account_risk_tiers bs ≡ ok tt)
      ↔ ((isolated_liability_count bs ≡ 0) ⊎ (liability_count bs ≡ 1))
unfolding check_account_risk_tiers
check_account_risk_tiers_iff bs =
    let counted = count_liabilities-Counted 0 0 bs (omega arith) (omega arith) in
    (
      λ h. ground (arith, counted, isolated-le-liability bs),
      λ h. ground (arith, counted, isolated-le-liability bs),
    )
