-- ===== src/Examples.antt =====
-- Runs of the model on small inputs, and the theorems applied to them.
pub mod Inputs
pub mod Requeues
pub mod Runs
pub mod Parts
pub mod Pruning
pub mod Leases
pub mod Values
pub mod Terms
pub mod Evals
pub mod Callbacks
