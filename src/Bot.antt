-- ===== src/Bot.antt =====
-- The Anchor program `flash_loan_bot`.
pub mod Error
pub mod Accounts
pub mod Marginfi
pub mod Raydium
pub mod Orca
pub mod Calls
pub mod Privileges
pub mod Swap
pub mod Wire
pub mod RoundTrip
pub mod Unused
pub mod Profit
