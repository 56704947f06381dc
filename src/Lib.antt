-- ===== src/Lib.antt =====
-- flux-panel-plus: the control panel of a fleet of proxy nodes.
--
-- The panel (go-backend) keeps users, tunnels between nodes, and port forwards in a database, sends
-- commands over web sockets to the node programs, bills the traffic that these report, and pauses
-- what is over its limits. This library models the panel's own logic over explicit states.
--
-- State. Model.antt passes on a record for each row of go-backend/model that is used, with the fields in
-- order, and Model/Database.antt has the tables, as lists of rows in primary-key order; Prelude/Table.antt has the
-- queries. A handler's state is a World (Gost/Commands.antt): the database and the list of commands
-- sent. Response.antt is go-backend/dto/response.go, an error text as a constructor; Actions.antt is
-- the monad of the handlers, which return at the first error.
--
-- Numbers. An identifier, a port or a time of the rate limiter is a natural number. Counters,
-- limits, times and flags are integers with a sign; where the code adds and multiplies them in an
-- int64, the model wraps around at 2 ^ 64 (Prelude/Int.antt), while the sum that the database itself
-- computes fails out of range. Texts are lists of bytes (Prelude/Text.antt).
--
-- Parts, with their files:
--   * Gost: go-backend/pkg/gost.go and SendMsg of go-backend/pkg/ws.go. Names.antt has
--     splitListenIPs, buildMultiIPServiceNames, formatListenAddr, buildServiceName; Services.antt the
--     builders of services, forwarders and chains, and RouteServices.antt those for routes;
--     Commands.antt the exported commands, and RouteCommands.antt those for routes.
--   * Ports: go-backend/service/forward.go, allocatePorts and what it calls (Defs.antt), and
--     allocateRouteForwardPorts (Routes.antt). Claims.antt says independently which listeners the rows
--     put on a port.
--   * Pause: pauseForwardServices of go-backend/service/flow.go.
--   * Flow: processFlowData, checkUserLimits and checkUserTunnelLimits of go-backend/service/flow.go.
--   * Xray: ProcessXrayFlowUpload, behind its decoding, and checkUserXrayLimits of the same file.
--   * Permissions: checkUserPermissions, checkForwardQuota and checkUserFlowLimits of
--     go-backend/service/forward.go.
--   * Forwards: PauseForward, ResumeForward and DeleteForward of go-backend/service/forward.go, with
--     their branches for forwards on a route (Routes.antt); Steps.antt has what they share, and
--     Names.antt compares what their commands name with what the creation has sent.
--   * Address: isPrivateIP, validateRemoteAddr, formatRemoteAddr, extractIpFromAddress and
--     extractPortFromAddress of the same file (Defs.antt), with ParseIP of the standard library
--     (Ip.antt).
--   * Create: CreateForward of the same file: for a forward on a tunnel Handler.antt, from its test of
--     the tunnel on, and Services.antt (createGostServices), with UserHasGostNodeAccess of
--     go-backend/service/user.go; for one on a route Route.antt (createRouteForward) and
--     RouteServices.antt (createRouteGostServices). The ids of the new rows are arguments.
--   * Update: UpdateForward: Handler.antt on a tunnel, Route.antt on a route (updateRouteForward),
--     Services.antt (syncGostServices, deleteOldGostServices), Entry.antt the whole, with the entry of
--     CreateForward, ForceDeleteForward and UpdateForwardA.
--   * Topology: go-backend/service/tunnel.go, route.go, node.go and speed_limit.go, the operations that
--     change rows.
--   * Users: go-backend/service/user.go and user_tunnel.go, the operations that change rows, and the
--     check of a password of go-backend/pkg/password.go.
--   * Reconcile: go-backend/service/reconcile.go, the phases of ReconcileNode that send limiters and
--     forwards (Defs.antt), with gentleSyncGostServices, gentleSyncRouteGostServicesOnNode and
--     setRouteForwardServicesPausedOnNode (Gentle.antt). A run starts where no other holds the
--     node's lock.
--   * Sound: references of forwards, tunnels and hops that the handlers keep, and the panel as a machine whose steps are the
--     handlers of Topology, Create, Update and Forwards, the deletions of Users, and Reconcile.
--   * ResetFlow: go-backend/task/reset_flow.go.
--   * RateLimit: go-backend/middleware/rate_limit.go.
--   * Failover: go-backend/service/failover.go, with memberIP of go-backend/service/group.go and
--     providerFor and applyDdnsRecord of go-backend/service/ddns.go.
--   * Tests: one small panel, and the theorems at work on it.
--
-- The parts meet in the database: a forward that the handlers create on allocated ports is named by
-- Gost, reported under that name to Flow, and paused by Flow, ResetFlow or its owner.
--
-- Parameters stand for what is outside the repository: the nodes' answers, which nodes are online and
-- the clock (Env); how gorm and the database compare a text with a key (Keys, with what is known of
-- decimal prints); floating-point arithmetic (Floats); the DNS providers and the encryption of their
-- credentials (Dns); the resolution of host names (Resolver); the hash
-- functions of passwords (Hashes); the collation under which the database
-- compares two texts, and two names (same_name). No node is assumed to
-- answer, or to answer alike twice.
--
-- Loops. Every loop is a recursion on a list, but for the search of a port, which counts down the
-- number of ports left in the node's range (Ports/Defs.antt, rounds), enough to try each of them.
--
-- Not modelled: sockets, JSON, encryption and the HTTP layer; the locks of the accounting and any
-- interleaving of handlers, which run one after another here; failing database statements other than
-- a missing row or a counter out of range; log entries; lists for display and diagnosis; the
-- login; the Xray phases of the reconciliation and its deletion of orphan services; the
-- administration of groups and Xray, statistics, monitoring, audit and Telegram; and the
-- node program (go-node), most of which is a copy of another project's library.
pub mod Actions
pub mod Address
pub mod Create
pub mod Failover
pub mod Flow
pub mod Forwards
pub mod Gost
pub mod Model
pub mod Pause
pub mod Permissions
pub mod Ports
pub mod Prelude
pub mod RateLimit
pub mod Reconcile
pub mod ResetFlow
pub mod Response
pub mod Sound
pub mod Tests
pub mod Topology
pub mod Update
pub mod Users
pub mod Xray
