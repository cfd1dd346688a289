-- ===== src/Lib.antt =====
-- The control plane of v2ray-platform, which manages nodes that run a proxy and the members who may
-- use them. A node registers with a bootstrap token; members get access by direct grants or by groups
-- of nodes; changes of access rebuild the configurations of nodes, which the agents of the nodes fetch
-- and load. Agents report heartbeats, sync results and usage, from which the policy monitor suspends
-- members over their quota. A CloudFront distribution can stand before the nodes; subscriptions are
-- rendered with it while its last sync is good. Admins sign in with tokens over stored sessions.
--
-- The files, by the Go code that they model (paths from the root of the repository):
--   Base.antt, Base/: numbers, texts, lists, sorting, results and JSON that the Go code uses
--   Maps.antt: Go's maps
--   Domain.antt, Domain/: internal/domain/types.go, one record for a struct
--   Render.antt: internal/render/v2ray.go, `RenderNodeConfig`
--   Store/State.antt: `MemoryStore` of internal/store/memory.go and the inputs of its methods
--   Store/Rebuild.antt: `rebuildNodeConfigLocked` and the loops over the nodes to rebuild
--   Store/Members.antt, Groups.antt, Grants.antt, Bootstrap.antt, Nodes.antt, Sessions.antt,
--     Usage.antt, Pending.antt, Paging.antt, Tiers.antt, CloudFront.antt: the methods of the store,
--     each by its Go name in snake case
--   Store/Calls.antt: the writing methods of the interface `Store` of internal/store/store.go as data,
--     and histories of calls
--   Store/Access.antt: the invariant of grants, credentials and members
--   Api.antt, Api/Requests.antt, Api/Distribution.antt: of internal/api/controlplane.go,
--     `cloudFrontRenderConfig`, `parsePage`, the filters of lists and the distribution that is planned
--     against; Api/Clash.antt: `buildMemberClashYAML`; Api/Subscription.antt: the handlers of public
--     subscriptions; Api/Agents.antt: the handlers of agents; Api/Admin.antt: `withAdmin`
--   CloudFront.antt: the types of internal/cloudfront/client.go, and the client that the services call
--   CloudFront/Plan.antt, Bind.antt, Scan.antt, Sync.antt: `Plan`, `BindNodes`, `ScanDistribution` and
--     `ExecutePlan`, each of the file of that name in internal/cloudfront
--   Aws.antt: the distribution configuration of internal/cloudfront/aws_client.go; Aws/Edit.antt and
--     Aws/Apply.antt: its changes, and the loop of `ApplyDistributionRoutes` over the actions;
--     Aws/Normalize.antt, Managed.antt, Domains.antt: `normalize`, `newManagedDistributionConfig`,
--     `distributionStateFromResponse`
--   Monitor.antt, Monitor/Sweep.antt, Monitor/Build.antt: `evaluateAlerts`, `SweepMemberPolicies` and
--     `buildAlerts` of internal/ops/monitor.go
--   Auth.antt: internal/auth/session.go, tokens over any session store, which the in-memory store is
--   Config.antt: internal/config/config.go
--   Agent.antt, Agent/Sync.antt, Counters.antt, Usage.antt, Update.antt, Round.antt: the agent of
--     cmd/node-agent/main.go: its calls of the control plane, the counters of the runtime, their
--     upload, the update of the program, and the start and the rounds of the main loop
--   Examples.antt, Examples/: the theorems applied to a small store, and tests
-- A module below one of these states and proves what its name says of it.
--
-- How the code is modelled. A method of the store runs under its lock, so it is one step: a function
-- from its input and the store to its result and the next store. A method that fails has kept what it
-- wrote before. The values that methods return are copies, so nothing is shared with the store (the
-- two tier methods return the stored pointer; that sharing is not modelled). Clock readings, UUIDs,
-- random tokens and SHA-256 are drawn from the record `Env`, by their order in the method. A Go map is
-- a list of entries in the order in which a `range` visits them, and the theorems hold for every such
-- order; the sets of nodes that a method rebuilds are visited in the order in which they are filled.
-- `int64` and `int` are 64-bit patterns that wrap around. An instant is the nanoseconds since the zero
-- time, where earlier ones are cut to it. Lower case is that of ASCII letters. `sort.Slice` is a
-- stable sort here. Every loop is a recursion over a list, so there is no fuel.
--
-- The network, the files and the commands of a node are a `Machine` over any state of the world, the
-- CloudFront service a `Client`; `encoding/json`, HMAC, base64, regular expressions, number parsing and
-- the calendar are parameters of what uses them, and a theorem names what it relies on of them. An
-- agent's round is one step, since the agent has one thread.
--
-- Not modelled: the SQL store, whose statements a database runs; HTTP routing, the
-- pages, and most handlers of admins; of the AWS client the signed requests and their retries, XML, and
-- the attachment of the rewrite function, whose slices share memory; the timers of the policy monitor
-- and the delivery of webhooks (the webhook is the list of alerts that it is called with); logging;
-- encryption, migrations and the start of the control plane.
pub mod Base
pub mod Maps
pub mod Domain
pub mod Render
pub mod Auth
pub mod Agent
pub mod Config
pub mod Store
pub mod Api
pub mod CloudFront
pub mod Aws
pub mod Monitor
pub mod Examples
