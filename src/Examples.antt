-- ===== src/Examples.antt =====
-- Runs and examples on concrete data.
mod Samples
mod Codec
mod Library
mod Chains
mod Peers
mod Logins
mod Calls
mod Sso
mod Rest
mod Forms
mod Refreshing
mod Devices
mod Accounts
mod Starting
mod Metrics
