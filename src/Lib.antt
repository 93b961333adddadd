-- ===== src/Lib.antt =====
-- V2bX-Turbo: a node server that follows a panel. For each node of the configuration a controller
-- (node/) fetches the node and its users from the panel (api/panel/), places the node at a proxy
-- core through the selector (core/), keeps a limiter (limiter/) that every connection of the core
-- asks, and reports the traffic that the counters (common/counter/) counted. Periodic tasks
-- (common/task/) drive it; the configuration is read through the JSON5 reader (common/json5/).
--
-- Base: tests, signed numbers with the wrap of `int64`, association lists for maps, lists, text.
-- Format: common/format/user.go. Conf.Types: the records of conf/, with the options of the cores in
--   Conf.Sing and Conf.Xray; Conf.Nodes: `UnmarshalJSON` of `NodeConfig` and of `Options`.
-- Panel.Types, Panel.Config, Panel.Client: the records of api/panel/, `GetNodeInfo` behind its
--   request (`get_node_info`, `complete`, `parse_params`, `all_routes`), `checkResponse`, and `New`
--   (`new_client`). Panel.Protocols: the pointers of a `NodeInfo`. Panel.Users: `GetUserList`,
--   `GetUserAlive` and the answers to the reports.
-- Limiter: `CheckLimit` and `GetOnlineDevice` in Check, `AddLimiter`'s users, `UpdateUser` and the
--   dynamic limits in Users, the rules in Rules, the map of limiters in Registry.
-- Counter: `TrafficCounter`; Counter.Conn: the connections that count.
-- Core.Interface: the interface of a core, as a record of functions over its state, which the
--   controllers and the selector take; Core.Selector: `NewCore`, `NewSelector` and `Selector`.
-- Core.Traffic: the `GetUserTrafficSlice` that the cores have in common. Core.Sing: core/sing/ over a
--   box of sing-box, with `HookServer` in Hook, and `getInboundOptions` of node.go in Inbound, over the
--   options of Transport and Tls; Adding composes `AddNode` with it. Core.Hy2: core/hy2/ with its
--   authenticator and `LogTraffic`, and the checks of `serverLogger` in Logger; ServerConfig:
--   serverConfig.go; Quic, Outbounds, Masquerade and Configure: config.go, up to `getHyConfig` and
--   `AddNode` with it. Core.Xray: core/xray/ over an
--   instance of xray-core, with the methods for nodes in Nodes, the users that it builds in
--   Core.Accounts, inbound.go and outbound.go in Inbound, the settings of a stream in Stream, and
--   dns.go in Dns; Adding composes `AddNode` with these. Core.Call: calls that return an error or
--   panic. Core.Dispatcher: core/xray/app/dispatcher/, the link managers, with `getLink` and
--   `DispatchLink` in Dispatch and `routedDispatch` in Routing; Reachable has the steps of goroutines.
-- Node.Users: `compareUserList`; Node.Report: `reportUserTrafficTask`; Node.Controller with Start, Monitor
--   and Speed: `Start`, `Close`, `startTasks`, `nodeInfoMonitor`, `SpeedChecker`; Node.Controllers:
--   node/node.go; Node.Controller.Starting, Sync and Changing, with Node.Users.Known: the limiter
--   against the list of users.
-- Node.Certificates: node/cert.go, node/lego.go and common/file/file.go, over a record of the calls of
--   the operating system, of x509 and of lego (System): `User` in Account, `Lego` in Lego, `requestCert`,
--   `generateSelfSslCertificate` and `renewCertTask` in Request. The monad of these methods carries the
--   world, an error, and a panic.
-- Json5: `prep` and `consumeComment` over the list of bytes, and `TrimNodeReader` in Reader;
--   Loops.Rules has its loops as relations without fuel. Task: `Start`, `Close` and the goroutine as
--   steps between the operations on the lock and the channels.
-- Tests: the theorems at concrete inputs.
--
-- State is passed: an operation takes the state and returns it with its answer, an `error` is an
-- `Option String` or a `Result`, and a panic is `none` or `panicked`. A Go map is an association list;
-- where Go leaves the order of a range open, it is the order of the list or a parameter. Pointers that
-- are shared are addresses into a heap: `Counters`, `Limiters` and `Dispatcher`. An `int` is an
-- unbounded integer, but `int64` sums and products wrap.
--
-- The loops of Json5 run on fuel, each on the length of the text: every round moves the index on, and
-- Json5.Loops shows that each ends by its own test. Every other loop is recursion on its
-- list.
--
-- Not modelled: what xray-core, sing-box and hysteria make of their configurations, the reading of
-- their files (`New` of core/sing, `getCore` of core/xray, viper in core/hy2), xray-core's sniffing, of
-- which core/xray/app/dispatcher/ holds a copy, the downloads of core/hy2/geoloader.go, the requests
-- over the network, the decoding of JSON (a parameter), the authority of the certificates, what is
-- written to the logs, the command line, two checks of one limiter that interleave, and a `CloseAll`
-- of a link manager that interleaves with other calls on it.
pub mod Base
pub mod Format
pub mod Json5
pub mod Task
pub mod Conf
pub mod Panel
pub mod Limiter
pub mod Counter
pub mod Core
pub mod Node
pub mod Tests
