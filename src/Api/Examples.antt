-- ===== src/Api/Examples.antt =====
-- Requests to a server with two accounts.
pub mod Setting
mod Requests
mod Blobs
