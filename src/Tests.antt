-- ===== src/Tests.antt =====
-- Concrete runs of the theorems: a small world for the bot, transactions and banks for MarginFi.
mod Exact
mod Bot
mod Flashloan
mod Account
mod Panic
mod TransferFee
mod Accrual
mod Lending
mod Interest
mod CrossProgram
mod Amounts
mod Emode
mod Admin
mod Liquidation
