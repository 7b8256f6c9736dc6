-- ===== src/Switchover/PreFlight/Tests.antt =====
-- The checks on concrete answers.
use mysql_keeper.Prelude.{◌≡◌, refl, [], true, false}
use mysql_keeper.Go.Error.{ok}
use mysql_keeper.Pxc.Replication.{running}
use mysql_keeper.Switchover.Effects.{remote, is_writable}
use mysql_keeper.Switchover.PreFlight.Result.{is_ok}
use mysql_keeper.Switchover.PreFlight.Gtid.{gtid_checks}
use mysql_keeper.Switchover.PreFlight.Gtid.CaughtUp.{CaughtUp}
use mysql_keeper.Switchover.PreFlight.Checks.{
  check_remote_reachable_read_only, check_remote_replication_running, check_log_replica_updates,
  check_gtid_mode, check_binlog_format, check_binlog_retention, check_replica_not_quarantined,
}
use mysql_keeper.Switchover.PreFlight.Run.{run}
use mysql_keeper.Switchover.PreFlight.Verdict.{run-is_ok}
use mysql_keeper.Switchover.Samples.{sample_preflight, calm}

calm-is_ok : is_ok (run calm sample_preflight []).0 ≡ true
unfolding run is_ok check_remote_reachable_read_only check_remote_replication_running running
    gtid_checks check_log_replica_updates check_gtid_mode check_binlog_format check_binlog_retention
    check_replica_not_quarantined
calm-is_ok = refl

run-is_ok_example :
    (let t1 = (check_remote_reachable_read_only calm sample_preflight []).1 in
      let t2 = (check_remote_replication_running calm sample_preflight t1).1 in
      (false ≡ false)
      × (calm.answer_bool [] (is_writable remote) ≡ ok false)
      × CaughtUp calm sample_preflight (gtid_checks calm sample_preflight t2) t2)
run-is_ok_example = run-is_ok calm sample_preflight [] refl calm-is_ok
