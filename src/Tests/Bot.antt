-- ===== src/Tests/Bot.antt =====
-- The bot in a world of two balances, with concrete stand-ins for the programs it invokes.
use bot_flash_loan.Prelude.{
  ℕ, ◌+◌, ◌-◌, ◌*◌, ◌≡◌, ◌≢◌, ◌↔◌, refl, Bool, true, false, Option, none, some, List, [], ◌∷◌,
  Result, ok, err, ◌==◌, leb, if◌then◌else◌, ◌≤◌, arith,
}
use bot_flash_loan.Solana.{AccountInfo, Instruction, Pubkey, Runtime}
use bot_flash_loan.Solana.Privileges.{Granted}
use bot_flash_loan.Bot.Error.{ProgramError, foreign, custom, negative_profit}
use bot_flash_loan.Bot.Accounts.{
  MarginfiBorrow, MarginfiRepay, ProxyRaydium, ProxyOrca, try_marginfi_borrow, try_marginfi_repay,
  try_proxy_raydium, try_proxy_orca,
}
use bot_flash_loan.Bot.Marginfi.{marginfi_borrow, marginfi_repay}
use bot_flash_loan.Bot.Orca.{proxy_orca, proxy_orca_ix, proxy_orca_infos}
use bot_flash_loan.Bot.Raydium.{proxy_raydium, proxy_raydium_ix, proxy_raydium_infos}
use bot_flash_loan.Bot.Calls.{
  borrow, raydium, orca, repay, invoked, passed, execute, execute_all, handle,
}
use bot_flash_loan.Bot.Wire.{Request, decode_marginfi, decode_raydium, decode_orca}
use bot_flash_loan.Bot.RoundTrip.{understood, meant, understood-eq-meant}
use bot_flash_loan.Bot.Privileges.{invoked-Granted}
use bot_flash_loan.Bot.Swap.{Received, proxy_raydium_iff, proxy_orca_iff}
use bot_flash_loan.Bot.Profit.{CallMoves, arbitrage_profit}
use bot_flash_loan.Bot.Unused.{execute_all-ne-negative_profit}

record World : Type 0 where
  usdc : ℕ
  sol : ℕ

abbrev marginfi_id : Pubkey
marginfi_id = 1

abbrev raydium_id : Pubkey
raydium_id = 2

abbrev orca_id : Pubkey
orca_id = 3

abbrev token_id : Pubkey
token_id = 4

abbrev usdc_key : Pubkey
usdc_key = 101

abbrev take_usdc : ℕ → World → Result ProgramError World
take_usdc n w = if leb n w.usdc then ok (record w { usdc = w.usdc - n }) else err (foreign 1)

abbrev run : Option Request → World → Result ProgramError World
run none w = err (foreign 0)
run (some (Request.start_flashloan n)) w = ok w
run (some Request.end_flashloan) w = ok w
run (some (Request.borrow n)) w = ok (record w { usdc = w.usdc + n })
run (some (Request.repay n all)) w = take_usdc n w
run (some (Request.swap_base_in m n)) w =
    if leb m w.usdc then ok (record { usdc = w.usdc - m; sol = w.sol + m * 2 }) else err (foreign 1)
run (some (Request.swap s)) w =
    if leb s.amount w.sol
    then ok (record { usdc = w.usdc + s.amount; sol = w.sol - s.amount })
    else err (foreign 1)

abbrev test_invoke : Instruction → List AccountInfo → World → Result ProgramError World
test_invoke ix infos w =
    if ix.program_id == marginfi_id
    then run (decode_marginfi ix.payload) w
    else if ix.program_id == raydium_id
    then run (decode_raydium ix.payload) w
    else run (decode_orca ix.payload) w

abbrev test_amount : AccountInfo → World → Result ProgramError ℕ
test_amount i w = if i.key == usdc_key then ok w.usdc else ok w.sol

abbrev test_runtime : Runtime ProgramError World
test_runtime = record { invoke = test_invoke; amount = test_amount }

abbrev info : Pubkey → AccountInfo
info k = record { key = k; is_signer = true; is_writable = true; executable = true }

abbrev borrow_accounts : MarginfiBorrow
borrow_accounts = record {
  marginfi_group = info 10;
  marginfi_account = info 11;
  signer = info 12;
  bank = info 13;
  destination_token_account = info usdc_key;
  bank_liquidity_vault_authority = info 14;
  bank_liquidity_vault = info 15;
  token_program = info token_id;
  marginfi_program = info marginfi_id;
}

abbrev repay_accounts : MarginfiRepay
repay_accounts = record {
  marginfi_group = info 10;
  marginfi_account = info 11;
  signer = info 12;
  bank = info 13;
  signer_token_account = info usdc_key;
  bank_liquidity_vault = info 15;
  token_program = info token_id;
  marginfi_program = info marginfi_id;
}

abbrev raydium_accounts : ProxyRaydium
raydium_accounts = record {
  user = info 12;
  user_token_account = info usdc_key;
  destination_token_account = info 102;
  token_program = info token_id;
  raydium_program = info raydium_id;
  amm_id = info 20;
  amm_authority = info 21;
  amm_open_orders = info 22;
  amm_target_orders = info 23;
  amm_coin_vault = info 24;
  amm_pc_vault = info 25;
  serum_program = info 26;
  serum_market = info 27;
  serum_bids = info 28;
  serum_asks = info 29;
  serum_event_queue = info 30;
  serum_coin_vault = info 31;
  serum_pc_vault = info 32;
  serum_vault_signer = info 33;
}

abbrev orca_accounts : ProxyOrca
orca_accounts = record {
  token_program = info token_id;
  token_authority = info 12;
  whirlpool_program = info orca_id;
  whirlpool = info 40;
  token_owner_account_a = info 102;
  token_vault_a = info 41;
  token_owner_account_b = info usdc_key;
  token_vault_b = info 42;
  tick_array_0 = info 43;
  tick_array_1 = info 44;
  tick_array_2 = info 45;
  oracle = info 46;
}

abbrev poor : World
poor = record { usdc = 5; sol = 0 }

understood-eq-meant_example :
    understood (repay repay_accounts 100 true) ≡ some (meant (repay repay_accounts 100 true))
understood-eq-meant_example = understood-eq-meant (repay repay_accounts 100 true) (omega arith)

invoked-Granted_example :
    Granted (passed (orca orca_accounts 7 3)) (invoked (orca orca_accounts 7 3)).accounts
unfolding try_proxy_orca
invoked-Granted_example = invoked-Granted token_id (orca orca_accounts 7 3) refl

-- A world with SOL to sell.
abbrev stocked : World
stocked = record { usdc = 5; sol = 20 }

abbrev sold : World
sold = record { usdc = 12; sol = 13 }

abbrev bought : World
bought = record { usdc = 2; sol = 26 }

proxy_orca_iff_example :
    (proxy_orca test_runtime orca_accounts 7 3 stocked ≡ ok sold)
    ↔ Received
        (test_amount orca_accounts.token_owner_account_b stocked)
        (test_invoke (proxy_orca_ix orca_accounts 7 3) (proxy_orca_infos orca_accounts) stocked)
        (test_amount orca_accounts.token_owner_account_b)
        3
        sold
proxy_orca_iff_example = proxy_orca_iff test_runtime orca_accounts 7 3 stocked sold

proxy_raydium_iff_example :
    (proxy_raydium test_runtime raydium_accounts 3 6 stocked ≡ ok bought)
    ↔ Received
        (test_amount raydium_accounts.destination_token_account stocked)
        (test_invoke
          (proxy_raydium_ix raydium_accounts 3 6)
          (proxy_raydium_infos raydium_accounts)
          stocked)
        (test_amount raydium_accounts.destination_token_account)
        6
        bought
proxy_raydium_iff_example = proxy_raydium_iff test_runtime raydium_accounts 3 6 stocked bought

borrow_pays : CallMoves token_id test_runtime (borrow borrow_accounts 100) (info usdc_key) 100 0
borrow_pays w w' h n read = (w'.usdc, ground arith, ground arith)

raydium_spends :
    CallMoves token_id test_runtime (raydium raydium_accounts 100 150) (info usdc_key) 0 100
raydium_spends w w' h n read = (w'.usdc, ground arith, ground arith)

repay_costs : CallMoves token_id test_runtime (repay repay_accounts 100 false) (info usdc_key) 0 100
repay_costs w w' h n read = (w'.usdc, ground arith, ground arith)

abbrev rich : World
rich = record { usdc = 55; sol = 50 }

arbitrage_profit_example :
    (usdc' : ℕ) × (test_amount (info usdc_key) rich ≡ ok usdc')
    × (5 + 100 + 120 ≤ usdc' + 100 + 100)
unfolding execute_all execute try_marginfi_borrow handle marginfi_borrow try_proxy_raydium
    proxy_raydium try_proxy_orca proxy_orca try_marginfi_repay marginfi_repay
arbitrage_profit_example =
    arbitrage_profit token_id test_runtime borrow_accounts raydium_accounts orca_accounts
      repay_accounts 100 100 150 150 120 100 false borrow_pays raydium_spends repay_costs poor rich
      5 refl refl

run-ne-negative_profit : (m : Option Request) (w : World) → run m w ≢ err (custom negative_profit)
run-ne-negative_profit none w h = cc
run-ne-negative_profit (some (Request.start_flashloan n)) w h = cc
run-ne-negative_profit (some Request.end_flashloan) w h = cc
run-ne-negative_profit (some (Request.borrow n)) w h = cc
run-ne-negative_profit (some (Request.repay n all)) w h = ground arith
run-ne-negative_profit (some (Request.swap_base_in m n)) w h = ground arith
run-ne-negative_profit (some (Request.swap s)) w h = ground arith

pick-ne :
    (b c : Bool) {p q r : Result ProgramError World} {e : Result ProgramError World}
    → p ≢ e
    → q ≢ e
    → r ≢ e
    → (if b then p else if c then q else r) ≢ e
pick-ne true c hp hq hr = hp
pick-ne false true hp hq hr = hq
pick-ne false false hp hq hr = hr

invoke_avoids :
    (ix : Instruction) (is : List AccountInfo) (w : World)
    → test_invoke ix is w ≢ err (custom negative_profit)
invoke_avoids ix is w =
    pick-ne (ix.program_id == marginfi_id) (ix.program_id == raydium_id)
      (run-ne-negative_profit (decode_marginfi ix.payload) w)
      (run-ne-negative_profit (decode_raydium ix.payload) w)
      (run-ne-negative_profit (decode_orca ix.payload) w)

amount_avoids : (i : AccountInfo) (w : World) → test_amount i w ≢ err (custom negative_profit)
amount_avoids i w h = ground arith

execute_all-ne-negative_profit_example :
    execute_all token_id test_runtime (orca orca_accounts 7 8 ∷ []) stocked
    ≢ err (custom negative_profit)
execute_all-ne-negative_profit_example =
    execute_all-ne-negative_profit token_id test_runtime invoke_avoids amount_avoids
      (orca orca_accounts 7 8 ∷ []) stocked
