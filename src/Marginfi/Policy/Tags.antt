-- ===== src/Marginfi/Policy/Tags.antt =====
-- What the asset tag check forbids.
use bot_flash_loan.Prelude.{
  ℕ, zero, suc, ◌≡◌, ◌↔◌, Bool, true, false, not, ◌&&◌, ◌||◌, List, [], ◌∷◌, some, ok, arith,
  get_elem?, >>=-eq-ok,
}
use bot_flash_loan.Marginfi.Account.{Balance, is_active}
use bot_flash_loan.Marginfi.Bank.{Bank}
use bot_flash_loan.Marginfi.Policy.{
  is_default_like, is_staked, scan_tags, validate_asset_tags, validate_bank_asset_tags,
}

-- The two tags do not go together.
abbrev pub clash : ℕ → ℕ → Bool
clash s t = is_default_like s && is_staked t || is_staked s && is_default_like t

-- What has been seen stays seen.
scan_tags_keeps :
    (d s d' s' : Bool) (bs : List Balance)
    → scan_tags d s bs ≡ ok (d', s')
    → ((not d || d') ≡ true) × ((not s || s') ≡ true)
unfolding scan_tags
scan_tags_keeps d s d' s' [] h = ground arith
scan_tags_keeps d s d' s' (b ∷ bs) h = ground (
  arith,
  scan_tags_keeps d s d' s' bs,
  scan_tags_keeps true s d' s' bs,
  scan_tags_keeps d true d' s' bs,
)

scan_tags_sees :
    (d s d' s' : Bool) (bs : List Balance) (i : ℕ) (b : Balance)
    → scan_tags d s bs ≡ ok (d', s')
    → get_elem? bs i ≡ some b
    → is_active b ≡ true
    → ((not (is_default_like b.bank_asset_tag) || d') ≡ true)
      × ((not (is_staked b.bank_asset_tag) || s') ≡ true)
unfolding scan_tags
scan_tags_sees d s d' s' [] i b h at_i active = absurd (ground arith)
scan_tags_sees d s d' s' (x ∷ bs) zero b h at_i active = ground (
  arith,
  scan_tags_keeps d s d' s' bs,
  scan_tags_keeps true s d' s' bs,
  scan_tags_keeps d true d' s' bs,
)
scan_tags_sees d s d' s' (x ∷ bs) (suc i) b h at_i active = ground (
  arith,
  scan_tags_sees d s d' s' bs i b,
  scan_tags_sees true s d' s' bs i b,
  scan_tags_sees d true d' s' bs i b,
)

-- Where the asset tag check accepts a bank, no active balance of the account has a tag that does not
-- go with the bank's: default-like with staked, either way around.
pub validate_asset_tags-clash :
    (bank : Bank) (bs : List Balance) (i : ℕ) (b : Balance)
    → validate_asset_tags bank bs ≡ ok tt
    → get_elem? bs i ≡ some b
    → is_active b ≡ true
    → clash bank.config.asset_tag b.bank_asset_tag ≡ false
unfolding validate_asset_tags
validate_asset_tags-clash bank bs i b h at_i active =
    let ((d, s), scanned, rest) = >>=-eq-ok (scan_tags false false bs) _ h in
    let (sees_default, sees_staked) = scan_tags_sees false false d s bs i b scanned at_i active in
    ground (arith, rest, sees_default, sees_staked)

-- Two banks are compatible exactly when their tags do not clash, whichever comes first.
pub validate_bank_asset_tags_iff :
    (a b : Bank)
    → (validate_bank_asset_tags a b ≡ ok tt) ↔ (
        (clash a.config.asset_tag b.config.asset_tag || clash b.config.asset_tag a.config.asset_tag)
        ≡ false)
unfolding validate_bank_asset_tags
validate_bank_asset_tags_iff a b = (λ h. ground arith, λ h. ground arith)
