-- ===== src/Tests.antt =====
-- Runs of the definitions at small inputs, and the theorems at inputs where their hypotheses hold.
pub mod Values
pub mod Reception
pub mod Sending
pub mod Window
pub mod Nodes
pub mod Routing
pub mod Convergence
pub mod Cheapest
pub mod Detection
pub mod Exchange
pub mod Threads
pub mod Forward
