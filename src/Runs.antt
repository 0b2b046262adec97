-- ===== src/Runs.antt =====
-- Runs of the definitions on concrete data.
mod Data
mod Consensus
mod Encoding
mod Fetching
mod Payment
mod Payouts
mod Ledger
mod Store
mod Restoring
mod Picking
mod Chains
mod Locating
mod Settings
