-- ===== src/Marginfi.antt =====
-- The MarginFi V2 program that the repository embeds.
pub mod Error
pub mod Fixed
pub mod Account
pub mod Sysvar
pub mod Risk
pub mod Emode
pub mod Group
pub mod Admin
pub mod Bank
pub mod Wrapper
pub mod Policy
pub mod Panic
pub mod Interest
pub mod Flashloan
pub mod TransferFee
pub mod Lending
pub mod Liquidation
pub mod Bankruptcy
