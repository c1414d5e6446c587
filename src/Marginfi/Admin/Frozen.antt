-- ===== src/Marginfi/Admin/Frozen.antt =====
-- What freezing a bank's settings holds fast (Admin), and what it does not.
use bot_flash_loan.Prelude.{
  ◌<◌, ◌≡◌, List, refl, sym, ap, ◌∙◌, true, false, Bool, ◌||◌, Bool-cases, inl, inr, none, some,
  Result, ok, not, ◌>>◌, check, >>=-eq-ok, ok-injective, ◌==◌, arith,
}
use mathlib.Core.Path.{subst}
use bot_flash_loan.Prelude.Bits.{bit, bit_and, bit_or, bit-bit_or, bit_and-mask, bit-lt}
use bot_flash_loan.Marginfi.Error.{MarginfiError}
use bot_flash_loan.Marginfi.Fixed.{Fixed}
use bot_flash_loan.Solana.{AccountInfo}
use bot_flash_loan.Marginfi.Account.{Failure, marginfi, panic}
use bot_flash_loan.Marginfi.Bank.{Bank, BankConfig, get_flag, update_flag, group_flags}
use bot_flash_loan.Marginfi.Bank.Config.{
  configure_unfrozen_fields_only, freeze_settings_flag, tokenless_repayments_flag,
  tokenless_repayments_complete_flag,
}
use bot_flash_loan.Marginfi.Emode.Leverage.{validate_entries_with_liability_weights}
use bot_flash_loan.Marginfi.Lending.{Outside}
use bot_flash_loan.Marginfi.Admin.{
  try_bank_accounts, lending_pool_configure_bank, lending_pool_configure_bank_interest_only,
  lending_pool_configure_bank_limits_only, lending_pool_force_tokenless_repay_complete,
  lending_pool_configure_bank_emode, lending_pool_clone_emode,
}
use bot_flash_loan.Marginfi.Admin.Configured.{
  Configures, by_admin, by_curve_admin, by_limit_admin, by_risk_admin, by_emode_admin, by_copying,
  by_oracle, by_fixed_price, ConfiguresAll, unchanged, then_configured,
}
use bot_flash_loan.Marginfi.Admin.Settings.{
  lending_pool_configure_bank_oracle, lending_pool_set_fixed_oracle_price, constraint_has_one,
}
use bot_flash_loan.Marginfi.Admin.Emissions.{
  EmissionsAccounts, lending_pool_update_emissions_parameters, add_emissions,
}

abbrev pub is_frozen : Bank → Bool
is_frozen b = get_flag b freeze_settings_flag

-- The bank is still frozen, and its configuration is what it was but for the limits on deposits and
-- borrows.
pub record StillFrozen (b b' : Bank) : Type 0 where
  pub frozen : is_frozen b' ≡ true
  pub config : b'.config ≡ record b.config {
    deposit_limit = b'.config.deposit_limit;
    borrow_limit = b'.config.borrow_limit;
  }

frozen-bit : (b : Bank) → is_frozen b ≡ (bit 3 b.flags == 1)
unfolding get_flag
frozen-bit b = ground (arith, bit_and-mask 3 b.flags (omega arith), bit-lt 3 b.flags)

stays_frozen :
    (b : Bank)
    → is_frozen b ≡ true
    → is_frozen (record b { flags = bit_or b.flags tokenless_repayments_complete_flag }) ≡ true
stays_frozen b h =
    rw (frozen-bit (record b { flags = bit_or b.flags tokenless_repayments_complete_flag })) (
      ground (
        arith,
        bit-bit_or 3 b.flags tokenless_repayments_complete_flag (omega arith),
        frozen-bit b,
        h,
        bit-lt 3 b.flags,
      ))

completed :
    (b b' : Bank)
    → update_flag b true tokenless_repayments_complete_flag ≡ ok b'
    → b' ≡ record b { flags = bit_or b.flags tokenless_repayments_complete_flag }
unfolding update_flag
completed b b' h =
    let (_, _, h₁) =
      >>=-eq-ok
        (check
          (bit_and tokenless_repayments_complete_flag group_flags
            == tokenless_repayments_complete_flag)
          panic)
        _ h in
    sym (ok-injective h₁)

-- Where the settings are frozen, a check that they are not lets nothing through.
frozen-refused :
    {A : Type 0} (frozen : Bool) (m : Result Failure A) (r : A)
    → frozen ≡ true
    → (check (not frozen) panic >> m) ≡ ok r
    → ⊥
frozen-refused frozen m r f k = ground (arith, f, k)

module _ (fx : Fixed)
    (valid_oracle : BankConfig → List AccountInfo → Result Failure (Unit {0})) where
  Configures-Frozen :
      (b b' : Bank) → Configures fx valid_oracle b b' → is_frozen b ≡ true → StillFrozen b b'
  unfolding lending_pool_configure_bank configure_unfrozen_fields_only
      lending_pool_configure_bank_interest_only lending_pool_configure_bank_limits_only
      lending_pool_force_tokenless_repay_complete lending_pool_configure_bank_emode
      lending_pool_clone_emode lending_pool_configure_bank_oracle
      lending_pool_set_fixed_oracle_price get_flag
  Configures-Frozen b b' (by_admin a o h) f =
      let (_, _, h₁) = >>=-eq-ok (try_bank_accounts a.group.admin a) _ h in
      subst (StillFrozen a.bank) (ok-injective (rw (f) at h₁))
        (record { frozen = f; config = refl })
  Configures-Frozen b b' (by_curve_admin a o h) f =
      let (_, _, h₁) = >>=-eq-ok (try_bank_accounts a.group.delegate_curve_admin a) _ h in
      subst (StillFrozen a.bank) (ok-injective (rw (f) at h₁))
        (record { frozen = f; config = refl })
  Configures-Frozen b b' (by_limit_admin a deposit borrow init h) f =
      let (_, _, h₁) = >>=-eq-ok (try_bank_accounts a.group.delegate_limit_admin a) _ h in
      subst (StillFrozen a.bank) (ok-injective (rw (f) at h₁))
        (record { frozen = f; config = refl })
  Configures-Frozen b b' (by_risk_admin a h) f =
      let (_, _, h₁) = >>=-eq-ok (try_bank_accounts a.group.risk_admin a) _ h in
      elim (Bool-cases (get_flag a.bank tokenless_repayments_flag)) [
        | inl allowed ↦
            subst (StillFrozen a.bank) (sym (completed a.bank b' (rw (allowed) at h₁)))
              (record { frozen = stays_frozen a.bank f; config = refl })
        | inr not_allowed ↦
            subst (StillFrozen a.bank) (ok-injective (rw (not_allowed) at h₁))
              (record { frozen = f; config = refl })
      ]
  Configures-Frozen b b' (by_emode_admin now a tag entries h) f =
      let (_, _, h₁) = >>=-eq-ok (try_bank_accounts a.group.emode_admin a) _ h in
      let (_, _, h₂) =
        >>=-eq-ok (validate_entries_with_liability_weights fx _ a.bank.config _ _) _ h₁ in
      subst (StillFrozen a.bank) (ok-injective h₂) (record { frozen = f; config = refl })
  Configures-Frozen b b' (by_copying a source h) f =
      let (_, _, h₁) =
        >>=-eq-ok (check (source.group == a.group_key) (marginfi MarginfiError.invalid_group)) _
          h in
      let (_, _, h₂) =
        >>=-eq-ok (check (a.bank.group == a.group_key) (marginfi MarginfiError.invalid_group)) _
          h₁ in
      let (_, _, h₃) =
        >>=-eq-ok
          (check (a.signer == a.group.admin || a.signer == a.group.emode_admin)
            (marginfi MarginfiError.unauthorized))
          _ h₂ in
      subst (StillFrozen a.bank) (ok-injective h₃) (record { frozen = f; config = refl })
  Configures-Frozen b b' (by_oracle a setup oracle remaining h) f =
      let (_, _, h₁) = >>=-eq-ok (try_bank_accounts a.group.admin a) _ h in
      absurd (frozen-refused (is_frozen a.bank) _ b' f h₁)
  Configures-Frozen b b' (by_fixed_price a price h) f =
      let (_, _, h₁) = >>=-eq-ok (check (a.group.admin == a.signer) constraint_has_one) _ h in
      let (_, _, h₂) = >>=-eq-ok (check (a.bank.group == a.group_key) constraint_has_one) _ h₁ in
      absurd (frozen-refused (is_frozen a.bank) _ b' f h₂)

  -- A frozen bank stays frozen through any number of these eight instructions, in any order, and of
  -- its field `config` nothing but the limits on deposits and borrows changes:
  -- lending_pool_configure_bank, its variants for the rates and for the limits, the setup of an
  -- oracle and of a fixed price, configuring and cloning the e-mode, and completing tokenless
  -- repayments. (The e-mode and the flag of completed repayments may change. propagate_staked_settings
  -- and migrate_curve, which rewrite the configuration of frozen banks too, and
  -- lending_pool_update_emissions_parameters are not among the eight.)
  pub ConfiguresAll-StillFrozen :
      (b b' : Bank) → ConfiguresAll fx valid_oracle b b' → is_frozen b ≡ true → StillFrozen b b'
  ConfiguresAll-StillFrozen b b' unchanged f = record { frozen = f; config = refl }
  ConfiguresAll-StillFrozen b b'' (then_configured {b' = b'} before last) f =
      let first = ConfiguresAll-StillFrozen b b' before f in
      let second = Configures-Frozen b' b'' last first.frozen in
      record {
        frozen = second.frozen;
        config =
            second.config
            ∙ ap {A = BankConfig}
                (λ c. record c {
                  deposit_limit = b''.config.deposit_limit;
                  borrow_limit = b''.config.borrow_limit;
                })
                first.config;
      }

module _ (fx : Fixed) where
  -- Of any bank with emissions, frozen or not, the emissions admin of its group can replace all
  -- flags: the call that passes 0 for the flags of the emissions succeeds, and leaves the bank
  -- without its freeze.
  pub lending_pool_update_emissions_parameters-unfrozen :
      (M W : Type 0) (env : Outside M W) (a : EmissionsAccounts M) (tokens : W)
      → a.of_bank.group.delegate_emissions_admin ≡ a.of_bank.signer
      → a.of_bank.bank.group ≡ a.of_bank.group_key
      → 0 < a.of_bank.bank.emissions_mint
      → a.of_bank.bank.emissions_mint ≡ a.emissions_mint
      → (b : Bank) × (lending_pool_update_emissions_parameters fx env a (some 0) none none tokens
          ≡ ok (b, tokens))
        × (b.config ≡ a.of_bank.bank.config)
        × (is_frozen b ≡ false)
  unfolding lending_pool_update_emissions_parameters add_emissions try_bank_accounts
  lending_pool_update_emissions_parameters-unfrozen M W env a tokens s g p m = (
    record a.of_bank.bank { flags = 0 },
    ground (arith, s, g, p, m),
    refl,
    frozen-bit (record a.of_bank.bank { flags = 0 }),
  )
