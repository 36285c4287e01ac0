-- ===== src/Nodes.antt =====
-- Nodes/: the abstract node, routers and hosts.
pub mod Queue
pub mod Node
pub mod Router
pub mod Host
pub mod Interface
pub mod Table
pub mod Broadcast
pub mod Counting
pub mod Quiet
pub mod Limits
pub mod Contract
