-- ===== src/Bot/Profit.antt =====
-- What a whole arbitrage leaves in the bot's USDC account: borrow, Raydium, Orca, repay, run as one
-- chain. The repository's client composes them in this order.
use bot_flash_loan.Prelude.{
  ℕ, ◌+◌, ◌≤◌, ◌≡◌, Bool, List, [], ◌∷◌, ok, >>=-eq-ok, ok-injective, arith,
}
use mathlib.Core.Path.{subst}
use bot_flash_loan.Solana.{AccountInfo, Pubkey, Runtime}
use bot_flash_loan.Bot.Error.{ProgramError}
use bot_flash_loan.Bot.Accounts.{MarginfiBorrow, MarginfiRepay, ProxyRaydium, ProxyOrca}
use bot_flash_loan.Bot.Marginfi.{marginfi_borrow, marginfi_repay}
use bot_flash_loan.Bot.Calls.{
  Call, borrow, raydium, orca, repay, invoked, passed, try_accounts, handle, execute, execute_all,
}
use bot_flash_loan.Bot.Swap.{proxy_raydium_iff, proxy_orca_iff}

module _ {World : Type 0} (token_program_id : Pubkey) (rt : Runtime ProgramError World) where
  -- From `w` to `w'` the balance of an account rises by at least `up`, or falls by at most `down`.
  abbrev pub Moves : AccountInfo → ℕ → ℕ → World → World → Type 0
  Moves i up down w w' =
      (n : ℕ) → rt.amount i w ≡ ok n → (n' : ℕ) × (rt.amount i w' ≡ ok n') × (n + up ≤ n' + down)

  -- The invocation of a call, when it succeeds, moves a balance like that.
  abbrev pub CallMoves : Call → AccountInfo → ℕ → ℕ → Type 0
  CallMoves c i up down =
      (w w' : World) → rt.invoke (invoked c) (passed c) w ≡ ok w' → Moves i up down w w'

  execute-handle :
      (c : Call) (w w' : World)
      → execute token_program_id rt c w ≡ ok w'
      → handle token_program_id rt c w ≡ ok w'
  unfolding execute
  execute-handle c w w' h = (>>=-eq-ok (try_accounts token_program_id c) _ h).2

  module _ (b : MarginfiBorrow) (r : ProxyRaydium) (o : ProxyOrca) (p : MarginfiRepay)
      (loan usdc_in sol_min sol_in usdc_min due : ℕ) (repay_all : Bool)
      (borrow_pays : CallMoves (borrow b loan) o.token_owner_account_b loan 0)
      (raydium_spends : CallMoves (raydium r usdc_in sol_min) o.token_owner_account_b 0 usdc_in)
      (repay_costs : CallMoves (repay p loan repay_all) o.token_owner_account_b 0 due) where
    abbrev pub arbitrage : List Call
    arbitrage =
        borrow b loan
        ∷ raydium r usdc_in sol_min
        ∷ orca o sol_in usdc_min
        ∷ repay p loan repay_all
        ∷ []

    borrow_step :
        (w w' : World)
        → execute token_program_id rt (borrow b loan) w ≡ ok w'
        → Moves o.token_owner_account_b loan 0 w w'
    unfolding handle marginfi_borrow
    borrow_step w w' h = borrow_pays w w' (execute-handle (borrow b loan) w w' h)

    raydium_step :
        (w w' : World)
        → execute token_program_id rt (raydium r usdc_in sol_min) w ≡ ok w'
        → Moves o.token_owner_account_b 0 usdc_in w w'
    unfolding handle
    raydium_step w w' h =
        let seen =
          (proxy_raydium_iff rt r usdc_in sol_min w w').0
            (execute-handle (raydium r usdc_in sol_min) w w' h) in
        raydium_spends w w' seen.invoked

    orca_step :
        (w w' : World)
        → execute token_program_id rt (orca o sol_in usdc_min) w ≡ ok w'
        → Moves o.token_owner_account_b usdc_min 0 w w'
    unfolding handle
    orca_step w w' h n read =
        let seen =
          (proxy_orca_iff rt o sol_in usdc_min w w').0
            (execute-handle (orca o sol_in usdc_min) w w' h) in
        (seen.after, seen.read_after, grind (arith, seen.read_before, seen.enough))

    repay_step :
        (w w' : World)
        → execute token_program_id rt (repay p loan repay_all) w ≡ ok w'
        → Moves o.token_owner_account_b 0 due w w'
    unfolding handle marginfi_repay
    repay_step w w' h = repay_costs w w' (execute-handle (repay p loan repay_all) w w' h)

    -- Suppose a successful borrow raises the balance of the Orca output account by at least the
    -- loan, the Raydium invocation lowers it by at most `usdc_in`, and the repayment by at most
    -- `due`. If the chain borrow, Raydium, Orca, repay succeeds, the final balance plus `usdc_in`
    -- and `due` is at least the first balance plus the loan and the least Orca output `usdc_min`.
    pub arbitrage_profit :
        (w w' : World) (usdc : ℕ)
        → rt.amount o.token_owner_account_b w ≡ ok usdc
        → execute_all token_program_id rt arbitrage w ≡ ok w'
        → (usdc' : ℕ) × (rt.amount o.token_owner_account_b w' ≡ ok usdc')
          × (usdc + loan + usdc_min ≤ usdc' + usdc_in + due)
    unfolding execute_all
    arbitrage_profit w w' usdc read h =
        let (w₁, e₁, h₁) = >>=-eq-ok (execute token_program_id rt (borrow b loan) w) _ h in
        let (w₂, e₂, h₂) =
          >>=-eq-ok (execute token_program_id rt (raydium r usdc_in sol_min) w₁) _ h₁ in
        let (w₃, e₃, h₃) =
          >>=-eq-ok (execute token_program_id rt (orca o sol_in usdc_min) w₂) _ h₂ in
        let (w₄, e₄, h₄) =
          >>=-eq-ok (execute token_program_id rt (repay p loan repay_all) w₃) _ h₃ in
        let (n₁, r₁, m₁) = borrow_step w w₁ e₁ usdc read in
        let (n₂, r₂, m₂) = raydium_step w₁ w₂ e₂ n₁ r₁ in
        let (n₃, r₃, m₃) = orca_step w₂ w₃ e₃ n₂ r₂ in
        let (n₄, r₄, m₄) = repay_step w₃ w₄ e₄ n₃ r₃ in
        (
          n₄,
          subst (λ v. rt.amount o.token_owner_account_b v ≡ ok n₄) (ok-injective h₄) r₄,
          omega arith,
        )
