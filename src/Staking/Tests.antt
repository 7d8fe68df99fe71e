-- ===== src/Staking/Tests.antt =====
-- Runs of the model on concrete inputs, and instances of the theorems at them.
mod Runs
mod Tokens
mod Rewards
mod Registry
mod Fees
mod Settings
