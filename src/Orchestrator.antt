-- ===== src/Orchestrator.antt =====
-- internal/orchestrator: the coordination of the trading agents.
pub mod HotSwap
pub mod Consensus
pub mod Hierarchy
pub mod Core
pub mod Examples
