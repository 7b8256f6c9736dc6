-- ===== src/Switchover/PreFlight/Run.antt =====
-- PreFlight.Run: every check, in order, whatever the ones before it found.
use mysql_keeper.Prelude.{[], ◌∷◌}
use mysql_keeper.Switchover.Effects.{Env, M, pure, ◌>>=◌}
use mysql_keeper.Switchover.PreFlight.Result.{PreFlightResult, PreFlight}
use mysql_keeper.Switchover.PreFlight.Gtid.{gtid_checks}
use mysql_keeper.Switchover.PreFlight.Checks.{
  check_remote_reachable_read_only, check_remote_replication_running, check_log_replica_updates,
  check_gtid_mode, check_binlog_format, check_binlog_retention, check_replica_not_quarantined,
}

module _ (env : Env) (p : PreFlight) where
  unfoldable pub run : M PreFlightResult
  run = do
    reachable ← check_remote_reachable_read_only env p
    replication ← check_remote_replication_running env p
    gtid ← gtid_checks env p
    updates ← check_log_replica_updates env p
    mode ← check_gtid_mode env p
    format ← check_binlog_format env p
    retention ← check_binlog_retention env p
    pure (record {
      checks =
          reachable
          ∷ replication
          ∷ gtid.subset
          ∷ gtid.wait
          ∷ gtid.purge
          ∷ updates
          ∷ mode
          ∷ format
          ∷ retention
          ∷ check_replica_not_quarantined env p
          ∷ [];
      local_snapshot = gtid.local_snapshot;
      remote_snapshot = gtid.remote_snapshot;
    })
