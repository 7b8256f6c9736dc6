-- ===== src/Lib.antt =====
-- mysql-keeper: failover of a MySQL service between two Percona XtraDB clusters, a DC and a DR one.
--
-- A controller runs beside each cluster. Every cycle it takes a health snapshot of both clusters
-- (internal/health), counts failures in the status of its policy and decides whether to flip
-- (internal/controller), and a flip is run by the switchover engine (internal/switchover): checks,
-- a fence of the old source, the promotion of the new one, routing, verification, with a rollback.
-- A lease in the peer's database (internal/pxc/leader_lease.go) keeps two controllers from flipping
-- at once. Skips of failing replicated transactions are counted, and too many of them quarantine the
-- replica (internal/controller/replication_errors.go, replication_skip.go).
--
-- Prelude      names passed on from the libraries; tests, list functions and signed integers over
--              the native numbers; int32 and int64 with their wrap-around
-- Go           time.Time and time.Duration in nanoseconds; errors as the chain that errors.Is walks;
--              a formatted text as the pieces that fmt prints
-- Api          api/v1alpha1/clusterswitchpolicy_types.go: the policy, its spec and its status
-- Health       internal/health: PXCChecker, ProxySQLChecker and Checker as functions of the answers
-- Mano         internal/mano: the client of the MANO API, with a module for the loop that polls an
--              operation, and the manager that opens and closes a cluster through it
-- Lease        internal/pxc/leader_lease.go and internal/switchover/lease.go: the row of
--              keeper.leader as state, AcquireOrRenewLease, CheckPeerLease, AcquireLeaseOnSource
-- Pxc          internal/pxc. Gtid and Replication are its records, GtidSet is CountGTIDTransactions,
--              Db a connection and the answers of a server, Inspector the queries of gtid.go with
--              IsWritable and EnsureKeeperSchema, Channel the operations of replication.go on a
--              channel, and Skip the statements of SkipNextTransaction over a trace, with the
--              validation and the quoting of their text. Manager is manager.go: a cluster opened
--              and closed by its resource or by SQL; Crd is the deep copies of types.go over a store
-- Switchover   internal/switchover: Effects is the interfaces that the engine calls, Writers the
--              clusters that take writes by a trace of calls, PreFlight preflight.go with a module
--              for the result, one for the GTID rows, one for the other checks and one for Run, and
--              Engine engine.go with a module for the phases; Servers puts the managers of Pxc in
--              the place of the interfaces
-- ProxySql     internal/proxysql/manager.go: Table is mysql_servers and the statements on it, Manager
--              the operations over all instances
-- Controller   internal/controller. Reconcile is one cycle, put together from these: Finalizer
--              (finalizer.go), HealthStatus (updateHealthStatus), Cycle (the split-brain condition,
--              ensureKeeperSchema, heartbeatLeaderLease, observeGTIDLag), Recovery
--              (handleStuckSwitchover, handleDegradedRecovery), Components (buildComponents, with a
--              module for the secrets and one for the ProxySQL endpoints), Decision (decision.go),
--              LeaseTtl (leaseTTL), Attempt (decideSwitchover, the engine's configuration,
--              writeSwitchoverResult), and ReplicationErrors (replication_errors.go,
--              replication_skip.go) with a module for the history, the skips, the quarantine, the
--              gauges with their keys, the cycle with its events, and the status. Client is what a
--              cycle does to the world, and Progress the reporter of progress.go
-- Cli          cmd/switchover-cli and cmd/preflight-cli: the programs by their flags, and the endpoint
--
-- Code that is not of this repository (the SQL server, Kubernetes, ProxySQL, MANO, the clock) is an
-- argument. The switchover calls it through Env, which answers a call by the whole trace of calls
-- before it, so it stands for any behaviour of it, and the reconciler patches a policy through Kube
-- in the same way; the lease, the health checks and the MANO client take the outcome of each
-- statement or request. A method call on a nil interface panics: that is an end of its own (`none`).
-- Only the loop of pollLcmOpOcc needs fuel, since it runs until the clock says so; each other loop of
-- the source runs over a list.
--
-- Not modelled: logs; the metrics and events, except the gauge of the active replication errors and
-- the events of observeReplicationErrors; deadlines, beyond the error that they end a call with;
-- the SQL text of internal/pxc; what the command line tools print; cmd/main.go, which only starts
-- the controller; and the generated code.
pub mod Prelude
pub mod Go
pub mod Api
pub mod Health
pub mod Lease
pub mod Mano
pub mod Pxc
pub mod ProxySql
pub mod Switchover
pub mod Controller
pub mod Cli
