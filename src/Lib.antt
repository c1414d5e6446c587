-- ===== src/Lib.antt =====
-- The flash loan bot: an on-chain program that borrows from MarginFi, swaps on Raydium and Orca and
-- repays, and the part of the MarginFi V2 program, which the repository embeds, that decides what the
-- bot's calls of it do.
--
-- The program and its models.
--
-- programs/flash_loan_bot/src/lib.rs is the bot. It keeps no state: each of its six instructions checks
-- its accounts, builds the bytes and account list of one instruction of another program, and invokes
-- that program; the two swaps compare the balance of the receiving account before and after.
--   Bot/Error       FlashLoanError, and the errors of Anchor and of invoked programs
--   Bot/Accounts    the five account structs and what derive(Accounts) checks for each
--   Bot/Marginfi    marginfi_start_flashloan, marginfi_borrow, marginfi_repay, marginfi_end_flashloan
--   Bot/Raydium     proxy_raydium
--   Bot/Orca        proxy_orca
--   Bot/Calls       the six instructions as one type, and chains of them
--   Bot/Wire        the receivers' instruction formats, with tags of its own: a decoder
-- The runtime's invoke and the SPL token accessor are not code of the repository: they are the
-- parameter Runtime of Solana.antt, over any state of all accounts. An instruction that fails has no
-- state after it, as the runtime undoes it. The account checks of Anchor follow its documented order:
-- the types of the fields in the order of the struct, then the mut constraints. An address is a
-- number, since addresses are only compared; a byte is a number below 256, and the little-endian
-- encoding of a number drops what exceeds its width (Word.antt).
--
-- marginfi-v2/programs/marginfi/src is MarginFi. The bot does not link it, and its invocations stay
-- parameters of the bot's model; CrossProgram.antt sets the two against each other.
--   Marginfi/Error         errors.rs: MarginfiError, its numbers; Error/Codes has From<u32>
--   Marginfi/Fixed         the fixed-point numbers, an integer of 128 bits that counts 2 ^ -48
--   Marginfi/Account       type-crate/src/types/user_account.rs, and the flags, authority guards and
--                          can_be_closed of state/marginfi_account.rs
--   Marginfi/Sysvar        ix_utils.rs: the guards on the instructions of a transaction
--   Marginfi/Risk          the initial health check of RiskEngine in state/marginfi_account.rs;
--                          Risk/Conditions has its checks around liquidation and bankruptcy
--   Marginfi/Flashloan     instructions/marginfi_account/flashloan.rs
--   Marginfi/Interest      state/interest_rate.rs and type-crate/src/types/interest_rate.rs: the
--                          configuration; Interest/Curve has the curves, Interest/Rates the rates, the
--                          fees and what accrual changes (ComputedInterestRates is of bank_cache.rs)
--   Marginfi/Bank          state/bank.rs: shares, limits, utilization, losses, flags of a bank
--     Bank/Accrual         accrue_interest, update_bank_cache, update_cache_price
--     Bank/Config          state/bank_config.rs: weights, validate, and configure of state/bank.rs
--   Marginfi/Emode         type-crate/src/types/emode.rs and state/emode.rs: entries, reconciliation;
--                          Emode/Leverage has the limits on leverage
--   Marginfi/Wrapper       state/marginfi_account.rs: BankAccountWrapper and the emissions
--     Wrapper/Amounts      increase_balance_internal, decrease_balance_internal and the primitives
--     Wrapper/All          withdraw_all, repay_all, close_balance
--     Wrapper/Ledger       a bank with all balances in it, as a sequence of such changes
--     Wrapper/Slots        find, find_or_create, get_first_empty_balance
--   Marginfi/Policy        utils/general.rs: asset tags and the operational state of a bank
--   Marginfi/Panic         state/panic_state.rs and type-crate/src/types/panic_state_cache.rs: the
--                          emergency pause; Panic/Limits has the states that it can reach
--   Marginfi/TransferFee   utils/general.rs: what to send of a token with a transfer fee
--   Marginfi/Lending       instructions/marginfi_account: what the handlers share, with
--                          sort_balances of state/marginfi_account.rs
--     Lending/Borrow       lending_account_borrow (borrow.rs)
--     Lending/Repay        lending_account_repay (repay.rs)
--     Lending/Deposit      lending_account_deposit (deposit.rs)
--   Marginfi/Group         state/marginfi_group.rs and type-crate/src/types/group.rs: the group
--   Marginfi/Admin         instructions/marginfi_group: configure.rs, configure_bank.rs,
--                          configure_bank_lite.rs, config_bank_emode.rs, emode_clone.rs,
--                          config_group_fee.rs, configure_withdrawal_limit.rs; Admin/Emissions has the
--                          two instructions on emissions of configure_bank.rs, Admin/Settings those of
--                          config_bank_oracle.rs, set_fixed_oracle_price.rs,
--                          propagate_staked_settings.rs and migrate_curve.rs
--   Marginfi/Liquidation   instructions/marginfi_account/liquidate.rs
--   Marginfi/Bankruptcy    instructions/marginfi_group/handle_bankruptcy.rs
-- The arithmetic of the fixed crate is the parameter Fixed; FixedLaws says that sums, differences and
-- negation are exact where they return, FixedRounding that the operations on non-negative numbers
-- return where the result fits, and that products and quotients are rounded down. A Rust panic is the
-- failure `panic`. Loading the banks of an account and weighing its balances with oracle prices is the
-- parameter `load`; what the health check does with them is modelled. A handler is given the account it loads, and returns the changed one.
-- All recursion is structural, over lists and over the digits of a number, so no fuel is chosen.
--
-- A transaction against one MarginFi account is a sequence of steps (Marginfi/Flashloan/Safety): the
-- two flash loan handlers at the top level, and any other instruction, which does not touch the flash
-- loan flag. That the flag is touched by no other handler is read off the source.
--
-- A user's instruction (Marginfi/Lending) is given its accounts by value and returns the changed
-- account and bank and the changed token accounts. The mint (maybe_take_bank_mint and
-- calculate_pre_fee_spl_deposit_amount, which parse accounts of the token program), the transfers of
-- the token program and the prices of the risk engine are the parameter Outside. A liquidation and a
-- bankruptcy take in the same way what they need of oracles and of derived addresses, as the
-- parameters Market and Insurance; validate_oracle_setup is the parameter valid_oracle. The accounts
-- of MarginFi's instructions are given as Anchor has deserialized them: that the authority has signed
-- (Signer), that each account is of its type, and that the authorities of the vaults are derived from
-- their seeds (in borrow, repay, deposit and the flash loan handlers) is taken as given, and only the
-- other constraints can fail; an authority is the key of a signer. A BTreeMap is an association list
-- in the order of its keys. Signed timestamps are 64-bit: the operators panic out of range, the
-- saturating operations stop at its ends. The theorems on the pause are about times before 2 ^ 62
-- seconds, where nothing saturates.
--
-- Not modelled: the withdraw handler, liquidation in receivership, adding and closing pools, collecting
-- fees, the accounts of oracles and their prices, bank metadata, the Kamino, Drift and Solend
-- integrations, events and the health cache, and the clients, mocks, fuzz targets and scripts of the
-- repository.
pub mod Prelude
pub mod Word
pub mod Solana
pub mod Bot
pub mod Marginfi
pub mod CrossProgram
pub mod Tests
