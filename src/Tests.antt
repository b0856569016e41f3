-- ===== src/Tests.antt =====
-- Tests, and each theorem at an input that meets its hypotheses.
mod Samples
mod PacketTests
mod StreamTests
mod WorkerTests
mod ClusterTests
mod ApplicationTests
mod XagentTests
mod AgentTests
mod DiscoveryTests
mod RefinementTests
mod RoundTripTests
mod NodeTests
mod ConnectorTests
mod ClientTests
mod GateTests
mod TimingTests
