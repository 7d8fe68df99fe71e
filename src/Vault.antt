-- ===== src/Vault.antt =====
-- contracts/vault: the contract that holds the assets of all pools, and mints and burns their LP
-- tokens as the pool contracts' answers say. State holds what is stored; Admin, Create, Join, Exit,
-- Swap and Query the operations, and Execute the entry points.
pub mod State
pub mod Admin
pub mod Create
pub mod Join
pub mod Exit
pub mod Swap
pub mod Query
pub mod Execute
pub mod Books
pub mod Shape
pub mod Solvency
pub mod Fees
pub mod Authority
pub mod Limits
pub mod Paused
mod Tests
