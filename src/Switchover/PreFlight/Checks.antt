-- ===== src/Switchover/PreFlight/Checks.antt =====
-- The other checks of preflight.go, one function each.
use mysql_keeper.Prelude.{
  String, [], ◌∷◌, ◌++◌, Bool, true, false, ◌||◌, not, if◌then◌else◌, str_eq,
}
use mysql_keeper.Prelude.Int.{ℤ, pos, leb_ℤ, ltb_ℤ}
use mysql_keeper.Go.Error.{text, quoted, number, printed, Result, ok, err}
use mysql_keeper.Pxc.Gtid.{GtidSnapshot}
use mysql_keeper.Pxc.Replication.{ReplicationStatus, running, human_message}
use mysql_keeper.Switchover.Effects.{
  Env, M, pure, ◌>>=◌, ask_bool, ask_snapshot, ask_status, remote, is_writable, get_gtid_snapshot,
  get_replication_status,
}
use mysql_keeper.Switchover.PreFlight.Result.{CheckResult, PreFlight, hard, soft, pass, fail}

abbrev pub c1 : String
c1 = "C1_RemoteReachableReadOnly"

abbrev pub c3 : String
c3 = "C3_RemoteReplicationRunning"

abbrev pub c7 : String
c7 = "C7_RemoteLogReplicaUpdates"

abbrev pub c8 : String
c8 = "C8_BinlogFormatRow"

abbrev pub c9 : String
c9 = "C9_GTIDModeOn"

abbrev pub c11 : String
c11 = "C11_RemoteBinlogRetention"

abbrev pub c12 : String
c12 = "C12_ReplicaNotQuarantined"

abbrev read_only_of : Result Bool → CheckResult
read_only_of (err e) = fail c1 hard (text "cannot reach remote: " ∷ printed e)
read_only_of (ok true) =
    fail c1 hard (text "split-brain guard: remote already writable (read_only=OFF)" ∷ [])
read_only_of (ok false) = pass c1 hard (text "remote reachable and read_only=ON" ∷ [])

abbrev replication_of : Bool → Result ReplicationStatus → CheckResult
replication_of allow (err e) = fail c3 hard (text "read replication status: " ∷ printed e)
replication_of allow (ok status) =
    if not status.config_exists
    then pass c3 hard (text "replication channel not present on remote" ∷ [])
    else if not (running status)
    then if allow
      then pass c3 soft (
          text "replication not running but AllowDataLossFailover=true — source likely down ("
          ∷ (human_message status ++ (text ")" ∷ [])))
      else fail c3 hard (human_message status)
    else pass c3 hard (human_message status)

-- The shape that the four checks on a snapshot share: skipped without an inspector, failed without a snapshot.
abbrev snapshot_of :
    CheckResult → CheckResult → (GtidSnapshot → CheckResult) → Result GtidSnapshot → CheckResult
snapshot_of skipped unread judge (ok snap) = judge snap
snapshot_of skipped unread judge (err e) = record unread {
  message = text "read remote snapshot: " ∷ printed e;
}

abbrev updates_of : GtidSnapshot → CheckResult
updates_of snap =
    if not snap.log_replica_updates_on
    then fail c7 hard (
        text
          "log_replica_updates / log_slave_updates is OFF — GTIDs received as replica will not be written to binlog after the flip (Error 1236 after next flip)"
        ∷ [])
    else pass c7 hard (text "log_replica_updates=ON" ∷ [])

abbrev mode_of : GtidSnapshot → CheckResult
mode_of snap =
    if not (str_eq snap.gtid_mode "ON")
    then fail c9 hard (text "gtid_mode=" ∷ quoted snap.gtid_mode ∷ text " (expected ON)" ∷ [])
    else pass c9 hard (text "gtid_mode=ON" ∷ [])

abbrev format_of : Env → GtidSnapshot → CheckResult
format_of env snap =
    if not (env.equal_fold snap.binlog_format "ROW")
    then fail c8 hard
        (text "binlog_format=" ∷ quoted snap.binlog_format ∷ text " (expected ROW)" ∷ [])
    else pass c8 hard (text "binlog_format=ROW" ∷ [])

-- Seven days, unless a minimum is configured.
abbrev minimum_of : ℤ → ℤ
minimum_of n = if leb_ℤ n (pos 0) then pos 604800 else n

abbrev retention_of : ℤ → GtidSnapshot → CheckResult
retention_of minimum snap =
    if ltb_ℤ snap.binlog_expire_logs_seconds minimum
    then fail c11 soft (
        text "binlog_expire_logs_seconds="
        ∷ number snap.binlog_expire_logs_seconds
        ∷ text " < recommended "
        ∷ number minimum
        ∷ text " — DC may be unable to catch up after a long outage"
        ∷ [])
    else pass c11 soft (
        text "binlog_expire_logs_seconds="
        ∷ number snap.binlog_expire_logs_seconds
        ∷ text " (≥ "
        ∷ number minimum
        ∷ text ")"
        ∷ [])

module _ (env : Env) (p : PreFlight) where
  unfoldable pub check_remote_reachable_read_only : M CheckResult
  check_remote_reachable_read_only =
      if not p.remote_pxc
      then pure (fail c1 hard (text "no RemotePXC configured" ∷ []))
      else do writable ← ask_bool env (is_writable remote); pure (read_only_of writable)

  unfoldable pub check_remote_replication_running : M CheckResult
  check_remote_replication_running =
      if not p.remote_inspector || str_eq p.channel ""
      then pure (pass c3 hard (text "skipped: no remote inspector / channel name" ∷ []))
      else do
        status ← ask_status env (get_replication_status remote p.channel)
        pure (replication_of p.allow_data_loss_failover status)

  -- One check on a fresh snapshot of the remote cluster.
  abbrev on_snapshot : CheckResult → CheckResult → (GtidSnapshot → CheckResult) → M CheckResult
  on_snapshot skipped unread judge = if not p.remote_inspector then pure skipped else do
    snap ← ask_snapshot env (get_gtid_snapshot remote)
    pure (snapshot_of skipped unread judge snap)

  unfoldable pub check_log_replica_updates : M CheckResult
  check_log_replica_updates =
      on_snapshot (pass c7 hard (text "skipped: no remote inspector" ∷ [])) (fail c7 hard [])
        updates_of

  unfoldable pub check_gtid_mode : M CheckResult
  check_gtid_mode = on_snapshot (pass c9 hard (text "skipped" ∷ [])) (fail c9 hard []) mode_of

  unfoldable pub check_binlog_format : M CheckResult
  check_binlog_format =
      on_snapshot (pass c8 hard (text "skipped" ∷ [])) (fail c8 hard []) (format_of env)

  unfoldable pub check_binlog_retention : M CheckResult
  check_binlog_retention =
      on_snapshot (pass c11 soft (text "skipped" ∷ [])) (fail c11 soft [])
        (retention_of (minimum_of p.min_binlog_retention_second))

-- The quarantine is read from the status alone.
unfoldable pub check_replica_not_quarantined : Env → PreFlight → CheckResult
check_replica_not_quarantined env p =
    if not p.local_replica_quarantined
    then pass c12 hard (text "replica not quarantined" ∷ [])
    else fail c12 hard (
        text "local replica is quarantined ("
        ∷ (env.trim_space p.local_quarantine_reason
            ++ (text ") — clear via annotation mysql.keeper.io/clear-quarantine before promote"
                ∷ [])))
