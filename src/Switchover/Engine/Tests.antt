-- ===== src/Switchover/Engine/Tests.antt =====
-- Switchovers in concrete environments.
use mysql_keeper.Prelude.{◌≡◌, refl, [], ◌∷◌, false}
use mysql_keeper.Switchover.Effects.{
  local, remote, set_read_only, set_read_write, apply_failover_routing, stop_replica,
  reset_replica_all, on_phase_start, pre_flight, act,
}
use mysql_keeper.Switchover.PreFlight.Result.{is_ok}
use mysql_keeper.Switchover.PreFlight.Run.{run}
use mysql_keeper.Switchover.Writers.{replay, changed}
use mysql_keeper.Switchover.Engine.{execute}
use mysql_keeper.Switchover.Engine.Phases.{
  phase_pre_flight, phase_fence, phase_promote, phase_routing, phase_reverse_replica, phase_verify,
}
use mysql_keeper.Pxc.Replication.{running}
use mysql_keeper.Switchover.PreFlight.Gtid.{gtid_checks}
use mysql_keeper.Switchover.PreFlight.Checks.{
  check_remote_reachable_read_only, check_remote_replication_running, check_log_replica_updates,
  check_gtid_mode, check_binlog_format, check_binlog_retention, check_replica_not_quarantined,
}
use mysql_keeper.Switchover.Engine.Safety.{execute-single_writer}
use mysql_keeper.Switchover.Engine.Safety.Unwaited.{late_queries, execute-asks_before}
use mysql_keeper.Switchover.Engine.Safety.Endings.{Ending, execute-Ending, execute-refused}
use mysql_keeper.Switchover.Samples.{
  sample_config, sample_preflight, calm, routing_fails, two_writers,
}

-- A whole switchover, the newest change first.
calm-changes :
    changed (execute calm sample_config []).1
    ≡ apply_failover_routing sample_config.routing
      ∷ reset_replica_all remote "dc-to-dr"
      ∷ stop_replica remote "dc-to-dr"
      ∷ set_read_write remote
      ∷ set_read_only local
      ∷ []
unfolding execute changed phase_pre_flight is_ok run check_remote_reachable_read_only
    check_remote_replication_running running gtid_checks check_log_replica_updates check_gtid_mode
    check_binlog_format check_binlog_retention check_replica_not_quarantined phase_fence
    phase_promote phase_routing phase_reverse_replica phase_verify
calm-changes = refl

-- A rollback demotes the new source before the former one is opened.
routing_fails-changes :
    changed (execute routing_fails sample_config []).1
    ≡ set_read_write local
      ∷ set_read_only remote
      ∷ apply_failover_routing sample_config.routing
      ∷ reset_replica_all remote "dc-to-dr"
      ∷ stop_replica remote "dc-to-dr"
      ∷ set_read_write remote
      ∷ set_read_only local
      ∷ []
unfolding execute changed phase_pre_flight is_ok run check_remote_reachable_read_only
    check_remote_replication_running running gtid_checks check_log_replica_updates check_gtid_mode
    check_binlog_format check_binlog_retention check_replica_not_quarantined phase_fence
    phase_promote phase_routing phase_reverse_replica phase_verify
routing_fails-changes = refl

execute-single_writer_example :
    (replay (execute routing_fails sample_config []).1).ever_both ≡ false
execute-single_writer_example = execute-single_writer routing_fails sample_config (λ t. refl)

execute-Ending_example :
    Ending routing_fails
      (execute routing_fails sample_config []).0
      (replay (execute routing_fails sample_config []).1)
execute-Ending_example = execute-Ending routing_fails sample_config

two_writers-refused :
    is_ok (run two_writers sample_preflight (act two_writers (on_phase_start pre_flight) []).1).0
    ≡ false
unfolding run is_ok check_remote_reachable_read_only
two_writers-refused = refl

execute-refused_example : changed (execute two_writers sample_config []).1 ≡ []
execute-refused_example = (execute-refused two_writers sample_config two_writers-refused).0

execute-asks_before_example : late_queries (execute calm sample_config []).1 ≡ []
execute-asks_before_example = execute-asks_before calm sample_config
