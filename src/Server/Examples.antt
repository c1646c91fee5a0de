-- ===== src/Server/Examples.antt =====
-- The theorems at a concrete database.
pub mod Tables
mod Messages
mod Accounts
mod Logins
