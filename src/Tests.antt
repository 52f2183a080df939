-- ===== src/Tests.antt =====
-- Runs of the model on small inputs, and the theorems at inputs that meet their hypotheses.
pub mod Samples
mod Statuses
mod Tasks
mod Buses
mod Executors
mod Commands
mod Runs
mod Outer
pub mod Graphs
mod Validations
mod Stores
mod Databases
mod Sessions
mod Turns
