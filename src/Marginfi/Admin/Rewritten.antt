-- ===== src/Marginfi/Admin/Rewritten.antt =====
-- What the configuration of a bank stays within, whatever instructions have written it (Admin).
use bot_flash_loan.Prelude.{
  ℕ, ◌≡◌, ap, Bool-cases, inl, inr, List, Option, none, some, Result, ok, check, ok_or, not, ◌&&◌,
  ◌==◌, if◌then◌else◌, >>=-eq-ok, ok-injective,
}
use mathlib.Core.Path.{subst}
use bot_flash_loan.Solana.{AccountInfo, Pubkey}
use bot_flash_loan.Marginfi.Error.{MarginfiError}
use bot_flash_loan.Marginfi.Fixed.{Fixed}
use bot_flash_loan.Marginfi.Account.{Failure, marginfi, default_pubkey}
use bot_flash_loan.Marginfi.Risk.{math_error}
use bot_flash_loan.Marginfi.Interest.{interest_curve_seven_point, set_if_some}
use bot_flash_loan.Marginfi.Bank.{Bank, BankConfig}
use bot_flash_loan.Marginfi.Bank.Config.{validate}
use bot_flash_loan.Marginfi.Bank.Config.Weights.{Weighted, weighted}
use bot_flash_loan.Marginfi.Policy.{asset_tag_staked}
use bot_flash_loan.Marginfi.Lending.{Outside}
use bot_flash_loan.Marginfi.Admin.{try_bank_accounts}
use bot_flash_loan.Marginfi.Admin.Emissions.{
  EmissionsAccounts, fund_emissions, add_emissions, lending_pool_update_emissions_parameters,
}
use bot_flash_loan.Marginfi.Admin.Settings.{
  StakedSettings, with_settings, constraint_raw, propagate_staked_settings, migrated_rates,
  migrate_curve,
}
use bot_flash_loan.Marginfi.Admin.Configured.{Configures, Configures-Weighted}

module _ (fx : Fixed) (valid_oracle : BankConfig → List AccountInfo → Result Failure (Unit {0}))
    {M W : Type 0} (env : Outside M W) where
  -- One instruction that writes the bank's configuration or its emissions.
  pub data Rewrites : Bank → Bank → Type 0 where
    by_configuring : {b b' : Bank} → Configures fx valid_oracle b b' → Rewrites b b'
    by_staked_settings :
        {b b' : Bank} (group_key : Pubkey) (settings : StakedSettings)
        (remaining : List AccountInfo)
        → propagate_staked_settings valid_oracle group_key settings b remaining ≡ ok b'
        → Rewrites b b'
    by_migration : {b b' : Bank} → migrate_curve fx b ≡ ok b' → Rewrites b b'
    by_emissions :
        {b' : Bank} (a : EmissionsAccounts M) (flags rate additional : Option ℕ)
        (tokens tokens' : W)
        → lending_pool_update_emissions_parameters fx env a flags rate additional tokens
          ≡ ok (b', tokens')
        → Rewrites a.of_bank.bank b'

  pub data RewritesAll : Bank → Bank → Type 0 where
    unwritten : {b : Bank} → RewritesAll b b
    then_rewritten : {b b' b'' : Bank} → RewritesAll b b' → Rewrites b' b'' → RewritesAll b b''

  propagated :
      (group_key : Pubkey) (s : StakedSettings) (b b' : Bank) (remaining : List AccountInfo)
      → propagate_staked_settings valid_oracle group_key s b remaining ≡ ok b'
      → Weighted b'.config
  unfolding propagate_staked_settings
  propagated group_key s b b' remaining h =
      let (_, _, h₁) =
        >>=-eq-ok (check (s.marginfi_group == group_key) (marginfi MarginfiError.invalid_group)) _
          h in
      let (_, _, h₂) =
        >>=-eq-ok
          (check (b.group == group_key && b.config.asset_tag == asset_tag_staked) constraint_raw) _
          h₁ in
      let (_, _, h₃) =
        >>=-eq-ok
          (if b.config.oracle_key == s.oracle
            then ok tt
            else valid_oracle (with_settings b.config s) remaining)
          _ h₂ in
      let (_, e, h₄) = >>=-eq-ok (validate (with_settings b.config s)) _ h₃ in
      subst (λ x. Weighted x.config) (ok-injective h₄) (weighted (with_settings b.config s) e)

  migrated : (b b' : Bank) → migrate_curve fx b ≡ ok b' → Weighted b'.config
  unfolding migrate_curve
  migrated b b' h =
      let (_, e, h₁) = >>=-eq-ok (validate b.config) _ h in
      elim (Bool-cases (b.config.interest_rate_config.curve_type == interest_curve_seven_point)) [
        | inl already ↦
            subst (λ x. Weighted x.config) (ok-injective (rw (already) at h₁)) (weighted b.config e)
        | inr legacy ↦
            let (rates, _, h₂) =
              >>=-eq-ok (migrated_rates fx b.config.interest_rate_config) _ (rw (legacy) at h₁) in
            let (_, e₃, h₃) =
              >>=-eq-ok (validate (record b.config { interest_rate_config = rates })) _ h₂ in
            subst (λ x. Weighted x.config) (ok-injective h₃)
              (weighted (record b.config { interest_rate_config = rates }) e₃)
      ]

  added-config :
      (a : EmissionsAccounts M) (b : Bank) (additional : Option ℕ) (tokens : W) (r : Bank × W)
      → add_emissions fx env a b additional tokens ≡ ok r
      → b.config ≡ r.0.config
  unfolding add_emissions
  added-config a b none tokens r h = ap (λ z. z.0.config) (ok-injective h)
  added-config a b (some n) tokens r h =
      let (_, _, h₁) =
        >>=-eq-ok (ok_or (fx.checked_add b.emissions_remaining (fx.from_u64 n)) math_error) _ h in
      let (_, _, h₂) = >>=-eq-ok (fund_emissions fx env a n tokens) _ h₁ in
      ap (λ z. z.0.config) (ok-injective h₂)

  updated-config :
      (a : EmissionsAccounts M) (flags rate additional : Option ℕ) (tokens : W) (r : Bank × W)
      → lending_pool_update_emissions_parameters fx env a flags rate additional tokens ≡ ok r
      → a.of_bank.bank.config ≡ r.0.config
  unfolding lending_pool_update_emissions_parameters
  updated-config a flags rate additional tokens r h =
      let (_, _, h₁) =
        >>=-eq-ok (try_bank_accounts a.of_bank.group.delegate_emissions_admin a.of_bank) _ h in
      let (_, _, h₂) =
        >>=-eq-ok
          (check (not (a.of_bank.bank.emissions_mint == default_pubkey))
            (marginfi MarginfiError.emissions_update_error))
          _ h₁ in
      let (_, _, h₃) =
        >>=-eq-ok
          (check (a.of_bank.bank.emissions_mint == a.emissions_mint)
            (marginfi MarginfiError.emissions_update_error))
          _ h₂ in
      added-config a
        (record a.of_bank.bank {
          flags = set_if_some a.of_bank.bank.flags flags;
          emissions_rate = set_if_some a.of_bank.bank.emissions_rate rate;
        })
        additional tokens r h₃

  Rewrites-Weighted : (b b' : Bank) → Rewrites b b' → Weighted b.config → Weighted b'.config
  Rewrites-Weighted b b' (by_configuring c) w = Configures-Weighted fx valid_oracle b b' c w
  Rewrites-Weighted b b' (by_staked_settings group_key s remaining h) w =
      propagated group_key s b b' remaining h
  Rewrites-Weighted b b' (by_migration h) w = migrated b b' h
  Rewrites-Weighted b b' (by_emissions a flags rate additional tokens tokens' h) w =
      subst Weighted (updated-config a flags rate additional tokens (b', tokens') h) w

  -- A bank whose configuration is valid keeps a valid one through any number of these instructions,
  -- in any order: lending_pool_configure_bank, its variants for the rates and for the limits, the
  -- setup of an oracle and of a fixed price, configuring and cloning the e-mode, completing
  -- tokenless repayments, updating the emissions, propagate_staked_settings and migrate_curve.
  -- Valid means: asset weights between 0 and 1 (2 at maintenance), liability weights at least 1, the
  -- initial requirement not laxer than the maintenance one, no weight for isolated assets, valid
  -- interest rates and an oracle age of at least 10 seconds.
  pub RewritesAll-Weighted :
      (b b' : Bank) → RewritesAll b b' → Weighted b.config → Weighted b'.config
  RewritesAll-Weighted b b' unwritten w = w
  RewritesAll-Weighted b b'' (then_rewritten {b' = b'} before last) w =
      Rewrites-Weighted b' b'' last (RewritesAll-Weighted b b' before w)
