-- ===== src/Lib.antt =====
-- xgame: models of the game server framework of this repository, and what is proved of them.
--
-- The program. A node (framework/application.go) is a list of components with a common lifecycle: a worker,
-- the cluster, the discovery, and on a gate also the parser of client connections and the agents. A client
-- connection is an agent; its frames (framework/pkg/packet) are read, routed by the checksum of the message's
-- name to a node type, and sent over NATS (framework/pkg/cluster) to a random member of that type
-- (framework/pkg/discovery). A node posts the handler of each message that it receives to its worker
-- (framework/pkg/worker). Answers travel back with the session or the request id of what they answer.
--
-- Which file models what.
-- - Common, Go: lists, texts, finite maps and Boolean tests; values, errors and panics of Go, its fmt verbs
--   and hash/crc32. Go.Errors is framework/error/error.go. Util is framework/util/util.go.
-- - Pb: the message types of pb/ that the framework reads itself, and protobuf as the interface Proto. What
--   is assumed of it, where a theorem needs it, is IsLossless: unmarshalling undoes marshalling.
-- - Packet.Registry: framework/pkg/packet/hash.go. The package variables are a record that the calls pass
--   on; the lock makes each call one step.
-- - Packet.Codec: framework/pkg/packet/packet.go. An io.Reader is the bytes that it will give and the error
--   after them. Packet.Codec.Loop is the loop of readChan (framework/pkg/xagent/agent.go), on fuel: one more
--   than the number of bytes is enough, since a message that is read takes the four bytes of its header.
-- - Worker: framework/pkg/worker/worker.go as a step relation. Each step is one access to what goroutines
--   share, so every interleaving is a sequence of steps. Worker.Termination bounds the runs of its goroutines by
--   the work that is left, so no fuel is needed there.
-- - Xagent.Agents, Xagent.Route: framework/pkg/xagent/agentManager.go and route.go. Agents are pointers into
--   a store of sessions, since BindUID writes the user through the pointer.
-- - Xagent.Agent: framework/pkg/xagent/agent.go, the queues and the two goroutines of a connection, as a
--   step relation. Xagent.Agent.Reading is readChan with processPacket, on fuel: one round for each
--   message and one for the end of the connection are enough. Xagent.Agent.Gateway follows a client's message
--   through the gate and its answer back.
--   Xagent.Agent.Client is what a client reads of what its agent was given.
--   Xagent.Agent.Heartbeat is the time of the heartbeat, with the ticks as steps.
--   Xagent.Agent.Closing is what closeProcess does to the maps. Xagent.Agents.Connections is the agents under
--   any calls for clients that come, log in once and leave.
--   Xagent.Parser: framework/pkg/xagent/net_parser.go.
-- - Discovery: framework/pkg/discovery/discovery.go and load_balance.go; rand.Intn is a parameter.
--   Discovery.Refinement compares any sequence of its calls with a function from ids to members. Discovery.Etcd
--   is discovery_etcd.go: the watch, and in Discovery.Etcd.Load what Load and OnStop ask of the client; etcd and
--   encoding/json are parameters, and Discovery.Etcd.Live compares the watch with the keys that etcd holds.
-- - Cluster: framework/pkg/cluster, with Sender.Resp of framework/facade/cluster.go. Whether NATS takes a
--   message is a parameter, and so is what a callback does. Cluster.Rpc follows a request to the other node and
--   its answer back to the callback; Cluster.InOrder is the receive loop over many messages. Cluster.Handlers.Typing
--   is the registration of handlers against the types of what they are called with, where IsTypeSafe is what is
--   assumed of protobuf. Cluster.Membership is SendBytes over the calls of the discovery. Cluster.Waiting is the wait of
--   requestWait (requester.go) and the goroutines of the worker that run its callbacks, as a step relation.
-- - Connector: the options of framework/pkg/connector. Connector.Tcp is TCPConnector, with the loop that accepts
--   connections and the goroutine that hands them over as a step relation. Connector.Websocket is WSConn of
--   ws_connector.go; what it assumes of gorilla/websocket is IsWebsocket.
-- - Gate: gate/gate.go and gate/listen_message.go. The generated messages that a gate reads and writes are Climsg.
--   Gate.Login is what Run sets up, Gate.Answer a login from the client to its agent, and Gate.Lost a login between
--   two gates. Auth is auth/auth.go in the same way, Cmd the mains under cmd, Demo the two loops
--   of demo/client/main.go.
-- - Profile: framework/profile/profile.go, over os.ReadFile and encoding/json. Logger: the cores of
--   framework/logger, over zap and lumberjack.
-- - Application: framework/application.go. The hooks of components are parameters that change a world.
--   Application.Die is the die channel between Shutdown, Startup and the goroutine that keeps the lease of etcd,
--   as a step relation.
-- - Tests: runs at concrete inputs, with a small wire format.
--
-- Not modelled: the functions of the logger that only call zap, the sockets themselves, and generated code.
-- How the two goroutines of cmd/all-in-one take turns is a parameter. Counters of machine width are written
-- with their wrap-around where they can wrap (the request ids, the two lengths of a frame); the worker's
-- int32 length counts functions in memory and is a natural number.
pub mod Application
pub mod Auth
pub mod Cluster
pub mod Cmd
pub mod Common
pub mod Connector
pub mod Demo
pub mod Discovery
pub mod Gate
pub mod Go
pub mod Logger
pub mod Packet
pub mod Pb
pub mod Profile
pub mod Tests
pub mod Util
pub mod Worker
pub mod Xagent
