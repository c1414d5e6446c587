-- ===== src/Marginfi/Admin/Configured.antt =====
-- What banks are configured to, after one of the instructions that configure them (Admin).
use bot_flash_loan.Prelude.{
  ℕ, ◌≡◌, sym, ap, true, not, Bool, Bool-cases, inl, inr, List, [], Option, Result, ok, ok_or,
  check, ◌==◌, >>=-eq-ok, ok-injective, arith,
}
use mathlib.Core.Path.{subst}
use bot_flash_loan.Prelude.Int.{ℤ}
use bot_flash_loan.Solana.{AccountInfo, Pubkey}
use bot_flash_loan.Marginfi.Error.{MarginfiError}
use bot_flash_loan.Marginfi.Account.{Failure, marginfi, panic, default_pubkey}
use bot_flash_loan.Marginfi.Policy.{asset_tag_staked}
use bot_flash_loan.Marginfi.Admin.Settings.{
  lending_pool_configure_bank_oracle, lending_pool_set_fixed_oracle_price, oracle_from_u8,
  is_fixed_oracle, constraint_has_one,
}
use bot_flash_loan.Marginfi.Fixed.{Fixed, I80F48, zero_fixed, leb_fixed}
use bot_flash_loan.Marginfi.Interest
use bot_flash_loan.Marginfi.Interest.{InterestRateConfig, InterestRateConfigOpt, set_if_some}
use bot_flash_loan.Marginfi.Bank.{
  Bank, BankConfig, OracleSetup, fixed_oracle, get_flag, update_flag,
}
use bot_flash_loan.Marginfi.Bank.Config.{
  BankConfigOpt, configure_fields, set_flag_if_some, validate, configure,
  configure_unfrozen_fields_only, freeze_settings_flag, permissionless_bad_debt_settlement_flag,
  tokenless_repayments_flag, tokenless_repayments_complete_flag,
}
use bot_flash_loan.Marginfi.Bank.Config.Weights.{Weighted, weighted}
use bot_flash_loan.Marginfi.Emode.{EmodeEntry}
use bot_flash_loan.Marginfi.Emode.Leverage.{validate_entries_with_liability_weights}
use bot_flash_loan.Marginfi.Admin.{
  BankAccounts, try_bank_accounts, lending_pool_configure_bank,
  lending_pool_configure_bank_interest_only, lending_pool_configure_bank_limits_only,
  lending_pool_force_tokenless_repay_complete, lending_pool_configure_bank_emode,
  lending_pool_clone_emode,
}

module _ (fx : Fixed)
    (valid_oracle : BankConfig → List AccountInfo → Result Failure (Unit {0})) where
  -- One of eight instructions that configure the bank, by any signer in any group: those that ask
  -- whether the bank is frozen, or write only what freezing leaves open.
  pub data Configures : Bank → Bank → Type 0 where
    by_admin :
        {b' : Bank} (a : BankAccounts) (o : BankConfigOpt)
        → lending_pool_configure_bank fx a o ≡ ok b'
        → Configures a.bank b'
    by_curve_admin :
        {b' : Bank} (a : BankAccounts) (o : InterestRateConfigOpt)
        → lending_pool_configure_bank_interest_only a o ≡ ok b'
        → Configures a.bank b'
    by_limit_admin :
        {b' : Bank} (a : BankAccounts) (deposit borrow init : Option ℕ)
        → lending_pool_configure_bank_limits_only a deposit borrow init ≡ ok b'
        → Configures a.bank b'
    by_risk_admin :
        {b' : Bank} (a : BankAccounts)
        → lending_pool_force_tokenless_repay_complete a ≡ ok b'
        → Configures a.bank b'
    by_emode_admin :
        {b' : Bank} (now : ℤ) (a : BankAccounts) (tag : ℕ) (entries : List EmodeEntry)
        → lending_pool_configure_bank_emode fx now a tag entries ≡ ok b'
        → Configures a.bank b'
    by_copying :
        {b' : Bank} (a : BankAccounts) (source : Bank)
        → lending_pool_clone_emode a source ≡ ok b'
        → Configures a.bank b'
    by_oracle :
        {b' : Bank} (a : BankAccounts) (setup : ℕ) (oracle : Pubkey) (remaining : List AccountInfo)
        → lending_pool_configure_bank_oracle valid_oracle a setup oracle remaining ≡ ok b'
        → Configures a.bank b'
    by_fixed_price :
        {b' : Bank} (a : BankAccounts) (price : I80F48)
        → lending_pool_set_fixed_oracle_price valid_oracle a price ≡ ok b'
        → Configures a.bank b'

  pub data ConfiguresAll : Bank → Bank → Type 0 where
    unchanged : {b : Bank} → ConfiguresAll b b
    then_configured :
        {b b' b'' : Bank} → ConfiguresAll b b' → Configures b' b'' → ConfiguresAll b b''

  -- The configuration as `configure` leaves it.
  configure-Weighted :
      (b b' : Bank) (o : BankConfigOpt) → configure b o ≡ ok b' → Weighted b'.config
  unfolding configure
  configure-Weighted b b' o h =
      let (c, _, h₁) = >>=-eq-ok (configure_fields b.config o) _ h in
      let (s, _, h₂) =
        >>=-eq-ok
          (set_flag_if_some permissionless_bad_debt_settlement_flag (record b { config = c })
            o.permissionless_bad_debt_settlement)
          _ h₁ in
      let (f, _, h₃) = >>=-eq-ok (set_flag_if_some freeze_settings_flag s o.freeze_settings) _ h₂ in
      let (w, _, h₄) =
        >>=-eq-ok (set_flag_if_some tokenless_repayments_flag f o.tokenless_repayments_allowed) _
          h₃ in
      let (_, e, h₅) = >>=-eq-ok (validate w.config) _ h₄ in
      subst (λ x. Weighted x.config) (ok-injective h₅) (weighted w.config e)

  with_limits :
      (c : BankConfig) (deposit borrow init : ℕ)
      → Weighted c
      → Weighted (record c {
        deposit_limit = deposit;
        borrow_limit = borrow;
        total_asset_value_init_limit = init;
      })
  with_limits c deposit borrow init w = record {
    assets_low = w.assets_low;
    assets_high = w.assets_high;
    assets_ordered = w.assets_ordered;
    assets_maint_high = w.assets_maint_high;
    liabilities_low = w.liabilities_low;
    liabilities_ordered = w.liabilities_ordered;
    isolated_counts_not = w.isolated_counts_not;
    rates = w.rates;
    oracle_age = w.oracle_age;
  }

  with_rates :
      (c : BankConfig) (r : InterestRateConfig)
      → Interest.validate r ≡ ok tt
      → Weighted c
      → Weighted (record c { interest_rate_config = r })
  with_rates c r h w = record {
    assets_low = w.assets_low;
    assets_high = w.assets_high;
    assets_ordered = w.assets_ordered;
    assets_maint_high = w.assets_maint_high;
    liabilities_low = w.liabilities_low;
    liabilities_ordered = w.liabilities_ordered;
    isolated_counts_not = w.isolated_counts_not;
    rates = h;
    oracle_age = w.oracle_age;
  }

  update_flag-config :
      (b b' : Bank) (value : Bool) (flag : ℕ)
      → update_flag b value flag ≡ ok b'
      → b'.config ≡ b.config
  unfolding update_flag
  update_flag-config b b' value flag h = ground (arith, h)

  complete-config :
      (a : BankAccounts) (b' : Bank)
      → lending_pool_force_tokenless_repay_complete a ≡ ok b'
      → b'.config ≡ a.bank.config
  unfolding lending_pool_force_tokenless_repay_complete
  complete-config a b' h =
      let (_, _, h₁) = >>=-eq-ok (try_bank_accounts a.group.risk_admin a) _ h in
      elim (Bool-cases (get_flag a.bank tokenless_repayments_flag)) [
        | inl allowed ↦
            update_flag-config a.bank b' true tokenless_repayments_complete_flag
              (rw (allowed) at h₁)
        | inr not_allowed ↦ ap (λ x. x.config) (sym (ok-injective (rw (not_allowed) at h₁)))
      ]

  configured :
      (a : BankAccounts) (o : BankConfigOpt) (b' : Bank)
      → lending_pool_configure_bank fx a o ≡ ok b'
      → Weighted a.bank.config
      → Weighted b'.config
  unfolding lending_pool_configure_bank configure_unfrozen_fields_only
  configured a o b' h w =
      let (_, _, h₁) = >>=-eq-ok (try_bank_accounts a.group.admin a) _ h in
      elim (Bool-cases (get_flag a.bank freeze_settings_flag)) [
        | inl frozen ↦
            subst (λ x. Weighted x.config) (ok-injective (rw (frozen) at h₁))
              (with_limits a.bank.config _ _ a.bank.config.total_asset_value_init_limit w)
        | inr thawed ↦
            let (b, e, h₂) = >>=-eq-ok (configure a.bank o) _ (rw (thawed) at h₁) in
            let (_, _, h₃) =
              >>=-eq-ok
                (validate_entries_with_liability_weights fx b.emode b.config
                  a.group.emode_max_init_leverage a.group.emode_max_maint_leverage)
                _ h₂ in
            subst (λ x. Weighted x.config) (ok-injective h₃) (configure-Weighted a.bank b o e)
      ]

  rates_configured :
      (a : BankAccounts) (o : InterestRateConfigOpt) (b' : Bank)
      → lending_pool_configure_bank_interest_only a o ≡ ok b'
      → Weighted a.bank.config
      → Weighted b'.config
  unfolding lending_pool_configure_bank_interest_only
  rates_configured a o b' h w =
      let (_, _, h₁) = >>=-eq-ok (try_bank_accounts a.group.delegate_curve_admin a) _ h in
      elim (Bool-cases (get_flag a.bank freeze_settings_flag)) [
        | inl frozen ↦ subst (λ x. Weighted x.config) (ok-injective (rw (frozen) at h₁)) w
        | inr thawed ↦
            let rates = Interest.update a.bank.config.interest_rate_config o in
            let (_, e, h₂) = >>=-eq-ok (Interest.validate rates) _ (rw (thawed) at h₁) in
            subst (λ x. Weighted x.config) (ok-injective h₂) (with_rates a.bank.config rates e w)
      ]

  limits_configured :
      (a : BankAccounts) (deposit borrow init : Option ℕ) (b' : Bank)
      → lending_pool_configure_bank_limits_only a deposit borrow init ≡ ok b'
      → Weighted a.bank.config
      → Weighted b'.config
  unfolding lending_pool_configure_bank_limits_only
  limits_configured a deposit borrow init b' h w =
      let (_, _, h₁) = >>=-eq-ok (try_bank_accounts a.group.delegate_limit_admin a) _ h in
      subst (λ x. Weighted x.config) (ok-injective h₁) (with_limits a.bank.config _ _ _ w)

  emode-config :
      (now : ℤ) (a : BankAccounts) (tag : ℕ) (entries : List EmodeEntry) (b' : Bank)
      → lending_pool_configure_bank_emode fx now a tag entries ≡ ok b'
      → b'.config ≡ a.bank.config
  unfolding lending_pool_configure_bank_emode
  emode-config now a tag entries b' h =
      let (_, _, h₁) = >>=-eq-ok (try_bank_accounts a.group.emode_admin a) _ h in
      let (_, _, h₂) =
        >>=-eq-ok (validate_entries_with_liability_weights fx _ a.bank.config _ _) _ h₁ in
      ap (λ x. x.config) (sym (ok-injective h₂))

  copied-config :
      (a : BankAccounts) (source b' : Bank)
      → lending_pool_clone_emode a source ≡ ok b'
      → b'.config ≡ a.bank.config
  unfolding lending_pool_clone_emode
  copied-config a source b' h = ground (arith, h)

  with_oracle :
      (c : BankConfig) (setup : OracleSetup) (key : Pubkey) (price : I80F48)
      → Weighted c
      → Weighted (record c { oracle_setup = setup; oracle_key = key; fixed_price = price })
  with_oracle c setup key price w = record {
    assets_low = w.assets_low;
    assets_high = w.assets_high;
    assets_ordered = w.assets_ordered;
    assets_maint_high = w.assets_maint_high;
    liabilities_low = w.liabilities_low;
    liabilities_ordered = w.liabilities_ordered;
    isolated_counts_not = w.isolated_counts_not;
    rates = w.rates;
    oracle_age = w.oracle_age;
  }

  oracle_configured :
      (a : BankAccounts) (setup : ℕ) (oracle : Pubkey) (remaining : List AccountInfo) (b' : Bank)
      → lending_pool_configure_bank_oracle valid_oracle a setup oracle remaining ≡ ok b'
      → Weighted a.bank.config
      → Weighted b'.config
  unfolding lending_pool_configure_bank_oracle
  oracle_configured a setup oracle remaining b' h w =
      let (_, _, h₁) = >>=-eq-ok (try_bank_accounts a.group.admin a) _ h in
      let (_, _, h₂) = >>=-eq-ok (check (not (get_flag a.bank freeze_settings_flag)) panic) _ h₁ in
      let (kind, _, h₃) = >>=-eq-ok (ok_or (oracle_from_u8 setup) panic) _ h₂ in
      let (_, _, h₄) = >>=-eq-ok (check (not (is_fixed_oracle kind)) panic) _ h₃ in
      let (_, _, h₅) = >>=-eq-ok (valid_oracle _ remaining) _ h₄ in
      subst (λ x. Weighted x.config) (ok-injective h₅)
        (with_oracle a.bank.config kind oracle a.bank.config.fixed_price w)

  price_configured :
      (a : BankAccounts) (price : I80F48) (b' : Bank)
      → lending_pool_set_fixed_oracle_price valid_oracle a price ≡ ok b'
      → Weighted a.bank.config
      → Weighted b'.config
  unfolding lending_pool_set_fixed_oracle_price
  price_configured a price b' h w =
      let (_, _, h₁) = >>=-eq-ok (check (a.group.admin == a.signer) constraint_has_one) _ h in
      let (_, _, h₂) = >>=-eq-ok (check (a.bank.group == a.group_key) constraint_has_one) _ h₁ in
      let (_, _, h₃) = >>=-eq-ok (check (not (get_flag a.bank freeze_settings_flag)) panic) _ h₂ in
      let (_, _, h₄) =
        >>=-eq-ok
          (check (not (a.bank.config.asset_tag == asset_tag_staked))
            (marginfi MarginfiError.unauthorized))
          _ h₃ in
      let (_, _, h₅) =
        >>=-eq-ok
          (check (leb_fixed zero_fixed price) (marginfi MarginfiError.fixed_oracle_price_negative))
          _ h₄ in
      let (_, _, h₆) = >>=-eq-ok (valid_oracle _ []) _ h₅ in
      subst (λ x. Weighted x.config) (ok-injective h₆)
        (with_oracle a.bank.config fixed_oracle default_pubkey price w)

  pub Configures-Weighted : (b b' : Bank) → Configures b b' → Weighted b.config → Weighted b'.config
  Configures-Weighted b b' (by_admin a o h) w = configured a o b' h w
  Configures-Weighted b b' (by_curve_admin a o h) w = rates_configured a o b' h w
  Configures-Weighted b b' (by_limit_admin a deposit borrow init h) w =
      limits_configured a deposit borrow init b' h w
  Configures-Weighted b b' (by_risk_admin a h) w = subst Weighted (sym (complete-config a b' h)) w
  Configures-Weighted b b' (by_emode_admin now a tag entries h) w =
      subst Weighted (sym (emode-config now a tag entries b' h)) w
  Configures-Weighted b b' (by_copying a source h) w =
      subst Weighted (sym (copied-config a source b' h)) w
  Configures-Weighted b b' (by_oracle a setup oracle remaining h) w =
      oracle_configured a setup oracle remaining b' h w
  Configures-Weighted b b' (by_fixed_price a price h) w = price_configured a price b' h w
