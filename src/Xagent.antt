-- ===== src/Xagent.antt =====
-- framework/pkg/xagent: the gate's side of the client connections.
pub mod Agents
pub mod Route
pub mod Agent
pub mod Parser
