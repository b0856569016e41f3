-- ===== src/Tests/ClientTests.antt =====
-- A client that sends a login, which the gate relays, and a message that no node serves.
use xgame.Cluster.{Cluster}
use xgame.Tests.Samples.{kind_eq}
