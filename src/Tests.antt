-- ===== src/Tests.antt =====
-- Runs of the models, and the theorems at concrete inputs, on the stand-ins of Fixtures.
mod Chain
mod Payments
mod Block
mod Deployments
mod Node
mod Running
mod Threads
mod Ledgers
mod Keys
mod Stores
mod Network
mod Commands
