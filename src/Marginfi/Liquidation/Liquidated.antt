-- ===== src/Marginfi/Liquidation/Liquidated.antt =====
-- A liquidation that succeeds (Liquidation) has improved an unhealthy account.
use mathlib.Core.Path.{subst}
use bot_flash_loan.Prelude.{
  ℕ, ◌≡◌, refl, sym, ap, ◌∙◌, Bool, true, false, not, ◌&&◌, List, Option, some, ok, check, ok_or,
  >>=-eq-ok, check-eq-ok, ok-injective, length, take, drop, checked_sub, arith,
}
use bot_flash_loan.Prelude.Int.{ℤ, ltb_ℤ}
use bot_flash_loan.Prelude.Machine.{as_u64}
use bot_flash_loan.Solana.{AccountInfo, Pubkey}
use bot_flash_loan.Marginfi.Error.{MarginfiError}
use bot_flash_loan.Marginfi.Fixed.{Fixed, I80F48, zero_fixed, leb_fixed}
use bot_flash_loan.Marginfi.Account.{
  marginfi, panic, MarginfiAccount, assets, liabilities, is_empty,
}
use bot_flash_loan.Marginfi.Risk.{BankAccountWithPrice, check_account_init_health}
use bot_flash_loan.Marginfi.Risk.Conditions.{
  account_health, check_not_in_flashloan, check_liability, find_bank,
  check_pre_liquidation_condition_and_get_account_health,
  check_post_liquidation_condition_and_get_account_health,
}
use bot_flash_loan.Marginfi.Bank.{Bank}
use bot_flash_loan.Marginfi.Bank.Accrual.{accrue_interest}
use bot_flash_loan.Marginfi.Group.{program_fees_of}
use bot_flash_loan.Marginfi.Lending.{Outside, sort_balances}
use bot_flash_loan.Marginfi.Lending.Totals.{SameTotals, SameTotals-trans, priced}
use bot_flash_loan.Marginfi.Liquidation.Moved.{
  Admitted, try_liquidate-Admitted, Moved, move_balances-Moved, Collected, collect_fee-Collected,
}
use bot_flash_loan.Marginfi.Liquidation.{
  LiquidateAccounts, Market, Amounts, Opened, Books, open_liquidation, priced_amounts,
  settle_liquidation, cache_price_of, close_liquidation, try_liquidate, check_liquidation,
  move_balances, collect_fee, lending_account_liquidate,
}

-- The health that a condition found: weighted assets less weighted liabilities.
module _ (fx : Fixed) where
  pre-unhealthy :
      (a : MarginfiAccount) (bank : Pubkey) (bs : List BankAccountWithPrice)
      (h : I80F48 × I80F48 × I80F48)
      → check_pre_liquidation_condition_and_get_account_health fx a (some bank) false bs ≡ ok h
      → (account_health fx bs ≡ ok h) × (ltb_ℤ zero_fixed h.0 ≡ false)
  unfolding check_pre_liquidation_condition_and_get_account_health
  pre-unhealthy a bank bs h e =
      let (_, _, e₁) = >>=-eq-ok (check_not_in_flashloan a) _ e in
      let (_, _, e₂) = >>=-eq-ok (check_liability (some bank) bs) _ e₁ in
      let (x, found, e₃) = >>=-eq-ok (account_health fx bs) _ e₂ in
      let (_, unhealthy, e₄) =
        >>=-eq-ok
          (check (not (ltb_ℤ zero_fixed x.0 && not false)) (marginfi MarginfiError.healthy_account))
          _ e₃ in
      subst (λ y. (account_health fx bs ≡ ok y) × (ltb_ℤ zero_fixed y.0 ≡ false)) (ok-injective e₄)
        (found, is_false (ltb_ℤ zero_fixed x.0) unhealthy)
    where
      is_false :
          (b : Bool)
          → check (not (b && not false)) (marginfi MarginfiError.healthy_account) ≡ ok tt
          → b ≡ false
      is_false b e = ground (arith, e)

  post-better :
      (a : MarginfiAccount) (bank : Pubkey) (pre post : I80F48) (bs : List BankAccountWithPrice)
      → check_post_liquidation_condition_and_get_account_health fx a bank pre bs ≡ ok post
      → (h : I80F48 × I80F48 × I80F48) × (account_health fx bs ≡ ok h)
        × (h.0 ≡ post)
        × (leb_fixed post zero_fixed ≡ true)
        × (ltb_ℤ pre post ≡ true)
  unfolding check_post_liquidation_condition_and_get_account_health
  post-better a bank pre post bs e =
      let (_, _, e₁) = >>=-eq-ok (check_not_in_flashloan a) _ e in
      let (b, _, e₂) = >>=-eq-ok (ok_or (find_bank bank bs) panic) _ e₁ in
      let (_, _, e₃) =
        >>=-eq-ok
          (check (not (is_empty b.balance liabilities))
            (marginfi MarginfiError.exhausted_liability))
          _ e₂ in
      let (_, _, e₄) =
        >>=-eq-ok (check (is_empty b.balance assets) (marginfi MarginfiError.too_severe_payoff)) _
          e₃ in
      let (x, found, e₅) = >>=-eq-ok (account_health fx bs) _ e₄ in
      let (_, still, e₆) =
        >>=-eq-ok (check (leb_fixed x.0 zero_fixed) (marginfi MarginfiError.too_severe_liquidation))
          _ e₅ in
      let (_, better, e₇) =
        >>=-eq-ok
          (check (not (leb_fixed x.0 pre)) (marginfi MarginfiError.worse_health_post_liquidation)) _
          e₆ in
      let (not_beyond, improved) = better_than x.0 post (ok-injective e₇) still better in
      (x, found, ok-injective e₇, not_beyond, improved)
    where
      is_true :
          (b : Bool)
          → check (not (not b)) (marginfi MarginfiError.worse_health_post_liquidation) ≡ ok tt
          → b ≡ true
      is_true b e = ground (arith, e)

      better_than :
          (x post : I80F48)
          → x ≡ post
          → check (leb_fixed x zero_fixed) (marginfi MarginfiError.too_severe_liquidation) ≡ ok tt
          → check (not (leb_fixed x pre)) (marginfi MarginfiError.worse_health_post_liquidation)
            ≡ ok tt
          → (leb_fixed post zero_fixed ≡ true) × (ltb_ℤ pre post ≡ true)
      better_than x post e still better =
          subst (λ y. (leb_fixed y zero_fixed ≡ true) × (ltb_ℤ pre y ≡ true)) e
            (check-eq-ok _ _ still, is_true (ltb_ℤ pre x) better)

-- The liquidatee as it was found, weighed at the maintenance requirement.
record Found {M W : Type 0} (fx : Fixed) (env : Outside M W) (market : Market) (now : ℤ)
    (a : LiquidateAccounts) (o : Opened) : Type 0 where
  admitted : Admitted market a
  mint : Option M
  remaining_is : env.maybe_take_bank_mint a.liab_bank a.remaining_accounts ≡ ok (mint, o.remaining)
  liquidatee_is :
      o.liquidatee ≡ record a.liquidatee { balances = sort_balances a.liquidatee.balances }
  asset_bank_is : accrue_interest fx now (program_fees_of a.group) a.asset_bank ≡ ok o.asset_bank
  liab_bank_is : accrue_interest fx now (program_fees_of a.group) a.liab_bank ≡ ok o.liab_bank
  before : List BankAccountWithPrice
  before_is :
      market.load o.asset_bank o.liab_bank o.liquidatee (drop o.start o.remaining) ≡ ok before
  health : I80F48 × I80F48 × I80F48
  health_is : account_health fx before ≡ ok health
  health_kept : health.0 ≡ o.pre_liquidation_health
  unhealthy : ltb_ℤ zero_fixed health.0 ≡ false

-- The two accounts as they were left, where the liquidatee had the health `pre`.
record Left {M W : Type 0} (fx : Fixed) (env : Outside M W) (market : Market) (o : Opened)
    (k : Books) (pre : I80F48) (r : MarginfiAccount × MarginfiAccount × Bank × Bank) : Type 0 where
  stored_liquidator : r.0.balances ≡ sort_balances k.liquidator
  stored_liquidatee : r.1.balances ≡ k.liquidatee
  asset_totals : SameTotals k.asset_bank r.2
  liab_totals : SameTotals k.liab_bank r.3
  after : List BankAccountWithPrice
  after_is : market.load r.2 r.3 r.1 (drop o.start o.remaining) ≡ ok after
  health : I80F48 × I80F48 × I80F48
  health_is : account_health fx after ≡ ok health
  better : ltb_ℤ pre health.0 ≡ true
  not_beyond : leb_fixed health.0 zero_fixed ≡ true
  liquidator_remaining : List AccountInfo
  liquidator_healthy : check_account_init_health fx env.load r.0 liquidator_remaining ≡ ok tt

-- A successful liquidation: the account was not healthy, is better off after it and still not
-- healthy, as weighed at the maintenance requirement, and the liquidator passes the initial check.
pub record Liquidated {M W : Type 0} (fx : Fixed) (env : Outside M W) (market : Market) (now : ℤ)
    (a : LiquidateAccounts) (asset_amount : ℕ) (tokens : W)
    (result : (MarginfiAccount × MarginfiAccount × Bank × Bank) × W) : Type 0 where
  pub opened : Opened
  pub admitted : Admitted market a
  pub mint : Option M
  pub remaining_is :
      env.maybe_take_bank_mint a.liab_bank a.remaining_accounts ≡ ok (mint, opened.remaining)
  pub liquidatee_is :
      opened.liquidatee ≡ record a.liquidatee { balances = sort_balances a.liquidatee.balances }
  pub asset_bank_is :
      accrue_interest fx now (program_fees_of a.group) a.asset_bank ≡ ok opened.asset_bank
  pub liab_bank_is :
      accrue_interest fx now (program_fees_of a.group) a.liab_bank ≡ ok opened.liab_bank
  pub before : List BankAccountWithPrice
  pub before_is :
      market.load opened.asset_bank opened.liab_bank opened.liquidatee
        (drop opened.start opened.remaining)
      ≡ ok before
  pub after : List BankAccountWithPrice
  pub after_is :
      market.load result.0.2 result.0.3 result.0.1 (drop opened.start opened.remaining) ≡ ok after
  pub health : I80F48 × I80F48 × I80F48
  pub health_is : account_health fx before ≡ ok health
  pub unhealthy : ltb_ℤ zero_fixed health.0 ≡ false
  pub new_health : I80F48 × I80F48 × I80F48
  pub new_health_is : account_health fx after ≡ ok new_health
  pub better : ltb_ℤ health.0 new_health.0 ≡ true
  pub not_beyond : leb_fixed new_health.0 zero_fixed ≡ true
  pub liquidator_remaining : List AccountInfo
  pub liquidator_healthy :
      check_account_init_health fx env.load result.0.0 liquidator_remaining ≡ ok tt
  pub amounts : Amounts
  pub amounts_are : priced_amounts fx env market a (fx.from_u64 asset_amount) opened ≡ ok amounts
  pub books : Books
  pub moved : Moved fx (as_u64 now) a (fx.from_u64 asset_amount) amounts opened books
  pub stored_liquidator : result.0.0.balances ≡ sort_balances books.liquidator
  pub stored_liquidatee : result.0.1.balances ≡ books.liquidatee
  pub asset_totals : SameTotals books.asset_bank result.0.2
  pub liab_totals : SameTotals books.liab_bank result.0.3
  pub fee : ℕ
  pub fee_is : fx.checked_to_u64 amounts.insurance_fund_fee ≡ some fee
  pub fee_sent : env.transfer a.liquidity_vault a.insurance_vault fee tokens ≡ ok result.1

module _ (fx : Fixed) {M W : Type 0} (env : Outside M W) (market : Market) where
  open_liquidation-Found :
      (now : ℤ) (a : LiquidateAccounts) (asset_amount liquidatee_accounts : ℕ) (o : Opened)
      → open_liquidation fx env market now a asset_amount liquidatee_accounts ≡ ok o
      → Found fx env market now a o
  unfolding open_liquidation
  open_liquidation-Found now a asset_amount liquidatee_accounts o h =
      let (_, e₀, h₀) = >>=-eq-ok (try_liquidate market now a) _ h in
      let (_, _, h₁) = >>=-eq-ok (check_liquidation a asset_amount) _ h₀ in
      let (taken, e₂, h₂) =
        >>=-eq-ok (env.maybe_take_bank_mint a.liab_bank a.remaining_accounts) _ h₁ in
      let (asset_bank, e₃, h₃) =
        >>=-eq-ok (accrue_interest fx now (program_fees_of a.group) a.asset_bank) _ h₂ in
      let (liab_bank, e₄, h₄) =
        >>=-eq-ok (accrue_interest fx now (program_fees_of a.group) a.liab_bank) _ h₃ in
      let (start, _, h₅) =
        >>=-eq-ok (ok_or (checked_sub (length taken.1) liquidatee_accounts) panic) _ h₄ in
      let sorted : MarginfiAccount = record a.liquidatee {
        balances = sort_balances a.liquidatee.balances;
      } in
      let (_, _, h₆) = >>=-eq-ok (check_not_in_flashloan sorted) _ h₅ in
      let (before, e₇, h₇) =
        >>=-eq-ok (market.load asset_bank liab_bank sorted (drop start taken.1)) _ h₆ in
      let (pre, e₈, h₈) =
        >>=-eq-ok
          (check_pre_liquidation_condition_and_get_account_health fx sorted (some a.liab_bank_key)
            false before)
          _ h₇ in
      let (health_is, unhealthy) = pre-unhealthy fx sorted a.liab_bank_key before pre e₈ in
      subst (Found fx env market now a) (ok-injective h₈) (record {
        admitted = try_liquidate-Admitted market now a e₀;
        mint = taken.0;
        remaining_is = e₂;
        liquidatee_is = refl;
        asset_bank_is = e₃;
        liab_bank_is = e₄;
        before = before;
        before_is = e₇;
        health = pre;
        health_is = health_is;
        health_kept = refl;
        unhealthy = unhealthy;
      })

  -- The amounts, the changes of balances and the fee that was sent.
  record Sent (now : ℤ) (a : LiquidateAccounts) (asset_amount : ℕ) (o : Opened) (tokens : W)
      (r : Books × W) : Type 0 where
    amounts : Amounts
    amounts_are : priced_amounts fx env market a (fx.from_u64 asset_amount) o ≡ ok amounts
    books : Books
    moved : Moved fx (as_u64 now) a (fx.from_u64 asset_amount) amounts o books
    collected : Collected fx env market books r.0
    fee : ℕ
    fee_is : fx.checked_to_u64 amounts.insurance_fund_fee ≡ some fee
    fee_sent : env.transfer a.liquidity_vault a.insurance_vault fee tokens ≡ ok r.1

  settle_liquidation-Sent :
      (now : ℤ) (a : LiquidateAccounts) (asset_amount : ℕ) (o : Opened) (tokens : W) (r : Books × W)
      → settle_liquidation fx env market now a asset_amount o tokens ≡ ok r
      → Sent now a asset_amount o tokens r
  unfolding settle_liquidation
  settle_liquidation-Sent now a asset_amount o tokens r h =
      let (amounts, e₁, h₁) =
        >>=-eq-ok (priced_amounts fx env market a (fx.from_u64 asset_amount) o) _ h in
      let (moved, e₂, h₂) =
        >>=-eq-ok (move_balances fx env market (as_u64 now) a (fx.from_u64 asset_amount) amounts o)
          _ h₁ in
      let (tokens', e₃, h₃) =
        >>=-eq-ok (env.transfer a.liquidity_vault a.insurance_vault moved.1 tokens) _ h₂ in
      let (settled, e₄, h₄) =
        >>=-eq-ok (collect_fee fx env market now a amounts.insurance_fund_fee moved.0) _ h₃ in
      subst (Sent now a asset_amount o tokens) (ok-injective h₄) (record {
        amounts = amounts;
        amounts_are = e₁;
        books = moved.0;
        moved =
            (move_balances-Moved fx env market (as_u64 now) a (fx.from_u64 asset_amount) amounts o
              moved e₂).1;
        collected =
            collect_fee-Collected fx env market now a amounts.insurance_fund_fee moved.0 settled e₄;
        fee = moved.1;
        fee_is =
            (move_balances-Moved fx env market (as_u64 now) a (fx.from_u64 asset_amount) amounts o
              moved e₂).0;
        fee_sent = e₃;
      })

  close_liquidation-Left :
      (now : ℤ) (a : LiquidateAccounts) (liquidator_accounts : ℕ) (o : Opened) (k : Books)
      (r : MarginfiAccount × MarginfiAccount × Bank × Bank)
      → close_liquidation fx env market now a liquidator_accounts o k ≡ ok r
      → Left fx env market o k o.pre_liquidation_health r
  unfolding close_liquidation cache_price_of
  close_liquidation-Left now a liquidator_accounts o k r h =
      let asset_bank = cache_price_of fx env market now o a.asset_bank_key k.asset_bank in
      let liab_bank = cache_price_of fx env market now o a.liab_bank_key k.liab_bank in
      let (start, _, h₁) = >>=-eq-ok (ok_or (checked_sub o.start liquidator_accounts) panic) _ h in
      let liquidatee : MarginfiAccount = record a.liquidatee {
        balances = k.liquidatee;
        last_update = as_u64 now;
      } in
      let (_, _, h₂) = >>=-eq-ok (check_not_in_flashloan liquidatee) _ h₁ in
      let (after, e₃, h₃) =
        >>=-eq-ok (market.load asset_bank liab_bank liquidatee (drop o.start o.remaining)) _ h₂ in
      let (post, e₄, h₄) =
        >>=-eq-ok
          (check_post_liquidation_condition_and_get_account_health fx liquidatee a.liab_bank_key
            o.pre_liquidation_health after)
          _ h₃ in
      let liquidator : MarginfiAccount = record a.liquidator {
        balances = sort_balances k.liquidator;
        last_update = as_u64 now;
      } in
      let infos = take liquidator_accounts (drop start o.remaining) in
      let (_, e₅, h₅) = >>=-eq-ok (check_account_init_health fx env.load liquidator infos) _ h₄ in
      let (health, health_is, post_is, not_beyond, better) =
        post-better fx liquidatee a.liab_bank_key o.pre_liquidation_health post after e₄ in
      subst (Left fx env market o k o.pre_liquidation_health) (ok-injective h₅) (record {
        stored_liquidator = refl;
        stored_liquidatee = refl;
        asset_totals =
            priced fx now
              (market.unbiased_price a.asset_bank_key o.liquidatee (drop o.start o.remaining))
              k.asset_bank;
        liab_totals =
            priced fx now
              (market.unbiased_price a.liab_bank_key o.liquidatee (drop o.start o.remaining))
              k.liab_bank;
        after = after;
        after_is = e₃;
        health = health;
        health_is = health_is;
        better = subst (λ x. ltb_ℤ o.pre_liquidation_health x ≡ true) (sym post_is) better;
        not_beyond = subst (λ x. leb_fixed x zero_fixed ≡ true) (sym post_is) not_beyond;
        liquidator_remaining = infos;
        liquidator_healthy = e₅;
      })

  -- The outcome, from what the three parts have found.
  Liquidated-by :
      (now : ℤ) (a : LiquidateAccounts) (asset_amount : ℕ) (tokens : W) (o : Opened)
      (settled : Books × W) (closed : MarginfiAccount × MarginfiAccount × Bank × Bank)
      → Found fx env market now a o
      → Sent now a asset_amount o tokens settled
      → Left fx env market o settled.0 o.pre_liquidation_health closed
      → Liquidated fx env market now a asset_amount tokens (closed, settled.1)
  Liquidated-by now a asset_amount tokens o settled closed f sent l = record {
    opened = o;
    admitted = f.admitted;
    mint = f.mint;
    remaining_is = f.remaining_is;
    liquidatee_is = f.liquidatee_is;
    asset_bank_is = f.asset_bank_is;
    liab_bank_is = f.liab_bank_is;
    before = f.before;
    before_is = f.before_is;
    after = l.after;
    after_is = l.after_is;
    health = f.health;
    health_is = f.health_is;
    unhealthy = f.unhealthy;
    new_health = l.health;
    new_health_is = l.health_is;
    better = subst (λ x. ltb_ℤ x l.health.0 ≡ true) (sym f.health_kept) l.better;
    not_beyond = l.not_beyond;
    liquidator_remaining = l.liquidator_remaining;
    liquidator_healthy = l.liquidator_healthy;
    amounts = sent.amounts;
    amounts_are = sent.amounts_are;
    books = sent.books;
    moved = sent.moved;
    stored_liquidator = l.stored_liquidator ∙ ap sort_balances sent.collected.same_liquidator;
    stored_liquidatee = l.stored_liquidatee ∙ sent.collected.same_liquidatee;
    asset_totals = SameTotals-trans sent.collected.asset_totals l.asset_totals;
    liab_totals = SameTotals-trans sent.collected.liab_totals l.liab_totals;
    fee = sent.fee;
    fee_is = sent.fee_is;
    fee_sent = sent.fee_sent;
  }

  -- A liquidation that succeeds is of an account whose weighted assets, at the maintenance
  -- requirement and with both banks' interest until now, were not above its weighted liabilities. After it their difference is strictly
  -- greater, and still not above zero. The liquidator's account passes the initial health check,
  -- which accepts any account that is in a flash loan. Who signed may act for the liquidator, whose
  -- balance at the liability bank has borrowed its amount and whose balance at the asset bank has the
  -- seized amount; the liquidatee's balances have lost that asset and repaid the final amount. These
  -- balances are stored in the two accounts, and the banks have the shares that they left. The whole
  -- tokens of the insurance fee went from the liability bank's liquidity vault to its insurance vault,
  -- as their addresses are derived.
  pub lending_account_liquidate-Liquidated :
      (now : ℤ) (a : LiquidateAccounts) (asset_amount liquidatee_accounts liquidator_accounts : ℕ)
      (tokens : W) (result : (MarginfiAccount × MarginfiAccount × Bank × Bank) × W)
      → lending_account_liquidate fx env market now a asset_amount liquidatee_accounts
          liquidator_accounts tokens
        ≡ ok result
      → Liquidated fx env market now a asset_amount tokens result
  unfolding lending_account_liquidate
  lending_account_liquidate-Liquidated now a asset_amount liquidatee_accounts liquidator_accounts
        tokens result h =
      let (o, e₀, h₀) =
        >>=-eq-ok (open_liquidation fx env market now a asset_amount liquidatee_accounts) _ h in
      let (settled, e₁, h₁) =
        >>=-eq-ok (settle_liquidation fx env market now a asset_amount o tokens) _ h₀ in
      let (closed, e₂, h₂) =
        >>=-eq-ok (close_liquidation fx env market now a liquidator_accounts o settled.0) _ h₁ in
      let f = open_liquidation-Found now a asset_amount liquidatee_accounts o e₀ in
      let sent = settle_liquidation-Sent now a asset_amount o tokens settled e₁ in
      let l = close_liquidation-Left now a liquidator_accounts o settled.0 closed e₂ in
      subst (Liquidated fx env market now a asset_amount tokens) (ok-injective h₂)
        (Liquidated-by now a asset_amount tokens o settled closed f sent l)
