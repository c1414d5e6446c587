-- ===== src/Bot/Swap.antt =====
-- The guard that both swap proxies share: balance before, invocation, balance after, slippage.
use bot_flash_loan.Prelude.{
  ℕ, ◌+◌, ◌≤◌, ◌<◌, ◌≡◌, ◌↔◌, Result, ok, err, check, ok_or, ◌>>=◌, ◌>>◌, >>=-eq-ok, leb,
  checked_sub, arith,
}
use bot_flash_loan.Solana.{Runtime}
use bot_flash_loan.Bot.Error.{ProgramError, custom, arithmetic_overflow, slippage_exceeded}
use bot_flash_loan.Bot.Accounts.{ProxyRaydium, ProxyOrca}
use bot_flash_loan.Bot.Raydium.{proxy_raydium, proxy_raydium_ix, proxy_raydium_infos}
use bot_flash_loan.Bot.Orca.{proxy_orca, proxy_orca_ix, proxy_orca_infos}

module _ {World : Type 0} where
  -- What a guarded invocation has seen when it succeeds: the balance read before and after, and at
  -- least the minimum received in between.
  pub record Received (m : Result ProgramError ℕ) (n : Result ProgramError World)
      (r : World → Result ProgramError ℕ) (amount_out_min : ℕ) (w' : World) : Type 0 where
    pub before : ℕ
    pub after : ℕ
    pub read_before : m ≡ ok before
    pub invoked : n ≡ ok w'
    pub read_after : r w' ≡ ok after
    pub enough : before + amount_out_min ≤ after

  abbrev compare_balances : ℕ → ℕ → ℕ → World → Result ProgramError World
  compare_balances before after amount_out_min w' = do
    received ← ok_or (checked_sub after before) (custom arithmetic_overflow)
    check (leb amount_out_min received) (custom slippage_exceeded)
    ok w'

  compare_balances-eq-ok :
      (before after amount_out_min : ℕ) (w w' : World)
      → compare_balances before after amount_out_min w ≡ ok w'
      → (w ≡ w') × (before + amount_out_min ≤ after)
  compare_balances-eq-ok before after amount_out_min w w' h = ground arith

  abbrev guarded :
      Result ProgramError ℕ
      → Result ProgramError World
      → (World → Result ProgramError ℕ)
      → ℕ
      → Result ProgramError World
  guarded m n r amount_out_min = do
    before ← m
    w' ← n
    after ← r w'
    compare_balances before after amount_out_min w'

  guarded_seen :
      (m : Result ProgramError ℕ) (n : Result ProgramError World)
      (r : World → Result ProgramError ℕ) (amount_out_min : ℕ) (w' : World)
      → guarded m n r amount_out_min ≡ ok w'
      → Received m n r amount_out_min w'
  guarded_seen m n r amount_out_min w' h =
      let (before, read_before, h₁) = >>=-eq-ok m _ h in
      let (w, invoked, h₂) = >>=-eq-ok n _ h₁ in
      let (after, read_after, h₃) = >>=-eq-ok (r w) _ h₂ in
      let (same, enough) = compare_balances-eq-ok before after amount_out_min w w' h₃ in
      record {
        before = before;
        after = after;
        read_before = read_before;
        invoked = rw (← same) invoked;
        read_after = rw (← same) read_after;
        enough = enough;
      }

  guarded_passes :
      (m : Result ProgramError ℕ) (n : Result ProgramError World)
      (r : World → Result ProgramError ℕ) (amount_out_min : ℕ) (w' : World)
      → Received m n r amount_out_min w'
      → guarded m n r amount_out_min ≡ ok w'
  guarded_passes m n r amount_out_min w' s =
      rw (s.read_before, s.invoked, s.read_after) (passes s.before s.after s.enough)
    where
      passes : (b a : ℕ) → b + amount_out_min ≤ a → compare_balances b a amount_out_min w' ≡ ok w'
      passes b a e = ground arith

  guarded_short :
      (m : Result ProgramError ℕ) (n : Result ProgramError World)
      (r : World → Result ProgramError ℕ) (amount_out_min before after : ℕ) (w' : World)
      → m ≡ ok before
      → n ≡ ok w'
      → r w' ≡ ok after
      → before ≤ after
      → after < before + amount_out_min
      → guarded m n r amount_out_min ≡ err (custom slippage_exceeded)
  guarded_short m n r amount_out_min before after w' hm hn hr le short =
      rw (hm, hn, hr) (fails before after le short)
    where
      fails :
          (b a : ℕ)
          → b ≤ a
          → a < b + amount_out_min
          → compare_balances b a amount_out_min w' ≡ err (custom slippage_exceeded)
      fails b a p q = ground arith

module _ {World : Type 0} (rt : Runtime ProgramError World) where
  -- The Raydium leg succeeds with a given state exactly when the receiving account's balance can
  -- be read before, the invocation gives that state, and the balance read afterwards is larger by
  -- at least `amount_out_min`.
  pub proxy_raydium_iff :
      (a : ProxyRaydium) (amount_in amount_out_min : ℕ) (w w' : World)
      → (proxy_raydium rt a amount_in amount_out_min w ≡ ok w')
        ↔ Received
            (rt.amount a.destination_token_account w)
            (rt.invoke (proxy_raydium_ix a amount_in amount_out_min) (proxy_raydium_infos a) w)
            (rt.amount a.destination_token_account)
            amount_out_min
            w'
  unfolding proxy_raydium
  proxy_raydium_iff a amount_in amount_out_min w w' =
      (guarded_seen _ _ _ amount_out_min w', guarded_passes _ _ _ amount_out_min w')

  -- The Orca leg succeeds with a given state exactly when the receiving account's balance can be
  -- read before, the invocation gives that state, and the balance read afterwards is larger by at
  -- least `amount_out_min`.
  pub proxy_orca_iff :
      (a : ProxyOrca) (amount_in amount_out_min : ℕ) (w w' : World)
      → (proxy_orca rt a amount_in amount_out_min w ≡ ok w')
        ↔ Received
            (rt.amount a.token_owner_account_b w)
            (rt.invoke (proxy_orca_ix a amount_in amount_out_min) (proxy_orca_infos a) w)
            (rt.amount a.token_owner_account_b)
            amount_out_min
            w'
  unfolding proxy_orca
  proxy_orca_iff a amount_in amount_out_min w w' =
      (guarded_seen _ _ _ amount_out_min w', guarded_passes _ _ _ amount_out_min w')

  -- Where the reads and the invocation succeed and the receiving account's balance does not fall
  -- but rises by less than `amount_out_min`, the Raydium leg fails with `SlippageExceeded`.
  pub proxy_raydium_short :
      (a : ProxyRaydium) (amount_in amount_out_min before after : ℕ) (w w' : World)
      → rt.amount a.destination_token_account w ≡ ok before
      → rt.invoke (proxy_raydium_ix a amount_in amount_out_min) (proxy_raydium_infos a) w ≡ ok w'
      → rt.amount a.destination_token_account w' ≡ ok after
      → before ≤ after
      → after < before + amount_out_min
      → proxy_raydium rt a amount_in amount_out_min w ≡ err (custom slippage_exceeded)
  unfolding proxy_raydium
  proxy_raydium_short a amount_in amount_out_min before after w w' hm hn hr le short =
      guarded_short _ _ _ amount_out_min before after w' hm hn hr le short
