-- ===== src/Staking.antt =====
-- contracts/multi_staking: bonding of LP tokens for rewards. State holds what is stored; each other
-- child models one group of handlers, and its own children prove their properties.
pub mod State
pub mod Fees
mod Tests
pub mod Locks
pub mod Rewards
pub mod Bond
pub mod Unbond
pub mod Unlock
pub mod Admin
pub mod Schedules
pub mod Execute
pub mod Query
pub mod Migrate
pub mod Custody
pub mod Invariant
