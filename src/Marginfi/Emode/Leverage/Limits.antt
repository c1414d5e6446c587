-- ===== src/Marginfi/Emode/Leverage/Limits.antt =====
-- What the validation of e-mode entries (Emode/Leverage) makes sure of.
use bot_flash_loan.Prelude.{
  ℕ, ◌≡◌, ◌⊎◌, inl, inr, true, Bool-cases, List, [], ◌∷◌, ok, check, >>=-eq-ok, check-eq-ok, Every,
  every_none, every_next,
}
use bot_flash_loan.Prelude.Int.{ltb_ℤ}
use bot_flash_loan.Marginfi.Fixed.{Fixed, I80F48, zero_fixed, leb_fixed}
use bot_flash_loan.Marginfi.Bank.{BankConfig}
use bot_flash_loan.Marginfi.Bank.Config.{get_weight}
use bot_flash_loan.Marginfi.Emode.{EmodeEntry, EmodeSettings, is_empty}
use bot_flash_loan.Marginfi.Emode.Leverage.{
  bad_emode_config, u32_to_basis, calculate_max_leverage, validate_entry, validate_entries,
  validate_entries_with_liability_weights,
}

-- Borrowing against collateral of the entry at the bank gives a bounded leverage: the entry counts
-- the collateral for less than the debt that it backs, at the initial and at the maintenance
-- requirement, and the leverages are at most those allowed.
pub record Limited (fx : Fixed) (c : BankConfig) (max_init max_maint : I80F48) (e : EmodeEntry)
    : Type 0 where
  pub not_negative : leb_fixed zero_fixed e.asset_weight_init ≡ true
  pub ordered : leb_fixed e.asset_weight_init e.asset_weight_maint ≡ true
  pub below_init : ltb_ℤ e.asset_weight_init c.liability_weight_init ≡ true
  pub below_maint : ltb_ℤ e.asset_weight_maint c.liability_weight_maint ≡ true
  pub leverage_init : I80F48
  pub leverage_maint : I80F48
  pub leverage_init_is :
      calculate_max_leverage fx e.asset_weight_init c.liability_weight_init ≡ ok leverage_init
  pub leverage_maint_is :
      calculate_max_leverage fx e.asset_weight_maint c.liability_weight_maint ≡ ok leverage_maint
  pub within_init : leb_fixed leverage_init max_init ≡ true
  pub within_maint : leb_fixed leverage_maint max_maint ≡ true

module _ (fx : Fixed) where
  below_liability : (cw lw l : I80F48) → calculate_max_leverage fx cw lw ≡ ok l → ltb_ℤ cw lw ≡ true
  unfolding calculate_max_leverage
  below_liability cw lw l h =
      let (_, _, h₁) = >>=-eq-ok (check (ltb_ℤ zero_fixed lw) bad_emode_config) _ h in
      let (_, e, _) = >>=-eq-ok (check (ltb_ℤ cw lw) bad_emode_config) _ h₁ in
      check-eq-ok (ltb_ℤ cw lw) bad_emode_config e

  validate_entry-Limited :
      (c : BankConfig) (max_init max_maint : I80F48) (e : EmodeEntry)
      → validate_entry fx c max_init max_maint e ≡ ok tt
      → Limited fx c max_init max_maint e
  unfolding validate_entry get_weight
  validate_entry-Limited c max_init max_maint e h =
      let (_, e₀, h₀) =
        >>=-eq-ok (check (leb_fixed zero_fixed e.asset_weight_init) bad_emode_config) _ h in
      let (_, e₁, h₁) =
        >>=-eq-ok (check (leb_fixed e.asset_weight_init e.asset_weight_maint) bad_emode_config) _
          h₀ in
      let (init, e₂, h₂) =
        >>=-eq-ok (calculate_max_leverage fx e.asset_weight_init c.liability_weight_init) _ h₁ in
      let (_, e₃, h₃) = >>=-eq-ok (check (leb_fixed init max_init) bad_emode_config) _ h₂ in
      let (maint, e₄, h₄) =
        >>=-eq-ok (calculate_max_leverage fx e.asset_weight_maint c.liability_weight_maint) _ h₃ in
      record {
        not_negative = check-eq-ok _ bad_emode_config e₀;
        ordered = check-eq-ok _ bad_emode_config e₁;
        below_init = below_liability e.asset_weight_init c.liability_weight_init init e₂;
        below_maint = below_liability e.asset_weight_maint c.liability_weight_maint maint e₄;
        leverage_init = init;
        leverage_maint = maint;
        leverage_init_is = e₂;
        leverage_maint_is = e₄;
        within_init = check-eq-ok _ bad_emode_config e₃;
        within_maint = check-eq-ok _ bad_emode_config h₄;
      }

  validate_entries-Limited :
      (c : BankConfig) (max_init max_maint : I80F48) (es : List EmodeEntry)
      → validate_entries fx c max_init max_maint es ≡ ok tt
      → Every (λ e. (is_empty e ≡ true) ⊎ Limited fx c max_init max_maint e) es
  unfolding validate_entries
  validate_entries-Limited c max_init max_maint [] h = every_none
  validate_entries-Limited c max_init max_maint (e ∷ es) h = elim (Bool-cases (is_empty e)) [
    | inl blank ↦
        every_next (inl blank) (validate_entries-Limited c max_init max_maint es (rw (blank) at h))
    | inr used ↦
        let (_, here, later) =
          >>=-eq-ok (validate_entry fx c max_init max_maint e) _ (rw (used) at h) in
        every_next (inr (validate_entry-Limited c max_init max_maint e here))
          (validate_entries-Limited c max_init max_maint es later)
  ]

  -- Where the validation of a bank's e-mode entries accepts them, every entry in use counts its
  -- collateral for less than the debt that it backs, at both requirements, and the leverages that
  -- borrowing over and over gives are at most the group's two limits.
  pub validate_entries_with_liability_weights-Limited :
      (s : EmodeSettings) (c : BankConfig) (init maint : ℕ)
      → validate_entries_with_liability_weights fx s c init maint ≡ ok tt
      → (max_init max_maint : I80F48) × (u32_to_basis fx init ≡ ok max_init)
        × (u32_to_basis fx maint ≡ ok max_maint)
        × Every
            (λ e. (is_empty e ≡ true) ⊎ Limited fx c max_init max_maint e)
            s.emode_config.entries
  unfolding validate_entries_with_liability_weights
  validate_entries_with_liability_weights-Limited s c init maint h =
      let (max_init, e₀, h₀) = >>=-eq-ok (u32_to_basis fx init) _ h in
      let (max_maint, e₁, h₁) = >>=-eq-ok (u32_to_basis fx maint) _ h₀ in
      let (_, e₂, _) =
        >>=-eq-ok (validate_entries fx c max_init max_maint s.emode_config.entries) _ h₁ in
      (max_init, max_maint, e₀, e₁, validate_entries-Limited c max_init max_maint _ e₂)
