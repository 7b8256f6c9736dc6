-- ===== src/Switchover/Servers.antt =====
-- The switchover with a *pxc.Manager on both sides, as cmd/switchover-cli/main.go and the controller
-- hand it in: each call of an inspector is made on the server of its side, as it is by then.
pub mod Answers
pub mod CaughtUp
pub mod NothingLost
mod Tests
use mysql_keeper.Prelude.{String, Bool}
use mysql_keeper.Prelude.Int.{ℤ}
use mysql_keeper.Go.Time.{Duration}
use mysql_keeper.Go.Error.{Outcome, Result}
use mysql_keeper.Pxc.Gtid.{GtidSnapshot}
use mysql_keeper.Pxc.Replication.{ReplicationStatus}
use mysql_keeper.Pxc.Db.{Db}
use mysql_keeper.Pxc.Inspector
use mysql_keeper.Pxc.Channel
use mysql_keeper.Switchover.Effects.{
  Side, Call, Trace, Env, is_writable, get_gtid_snapshot, missing_gtids, wait_for_gtid,
  get_replication_status, probe_reachable, stop_replica, reset_replica_all,
}

-- A manager, and what its server answers by what went before; `within` is the server under a
-- deadline.
pub record Cluster : Type 0 where
  pub dsn : String
  pub db : Trace → Db
  pub within : Trace → Duration → Db

module _ (seconds_of : Duration → ℤ) (cluster : Side → Cluster) (calls : Env) where
  abbrev server : Side → Trace → Db
  server s t = Cluster.db (cluster s) t

  abbrev dsn_of : Side → String
  dsn_of s = Cluster.dsn (cluster s)

  unfoldable pub pxc_outcome : Trace → Call → Outcome
  pxc_outcome t (wait_for_gtid s gtid budget) =
      Inspector.wait_for_gtid (server s t) (dsn_of s) seconds_of gtid budget
  pxc_outcome t (stop_replica s channel) =
      Channel.stop_replica_channel (server s t) (dsn_of s) channel
  pxc_outcome t (reset_replica_all s channel) =
      Channel.reset_replica_channel (server s t) (dsn_of s) channel
  pxc_outcome t c = calls.outcome t c

  unfoldable pub pxc_bool : Trace → Call → Result Bool
  pxc_bool t (is_writable s) = Inspector.is_writable (server s t) (dsn_of s)
  pxc_bool t (probe_reachable s budget) =
      Channel.probe_reachable (Cluster.within (cluster s) t) budget
  pxc_bool t c = calls.answer_bool t c

  unfoldable pub pxc_text : Trace → Call → Result String
  pxc_text t (missing_gtids s other) = Inspector.missing_gtids (server s t) (dsn_of s) other
  pxc_text t c = calls.answer_text t c

  unfoldable pub pxc_snapshot : Trace → Call → Result GtidSnapshot
  pxc_snapshot t (get_gtid_snapshot s) = Inspector.get_gtid_snapshot (server s t) (dsn_of s)
  pxc_snapshot t c = calls.answer_snapshot t c

  unfoldable pub pxc_status : Trace → Call → Result ReplicationStatus
  pxc_status t (get_replication_status s channel) =
      Channel.get_replication_status (server s t) (dsn_of s) channel
  pxc_status t c = calls.answer_status t c

  abbrev pub pxc_env : Env
  pxc_env = record calls {
    outcome = pxc_outcome;
    answer_bool = pxc_bool;
    answer_text = pxc_text;
    answer_snapshot = pxc_snapshot;
    answer_status = pxc_status;
  }
