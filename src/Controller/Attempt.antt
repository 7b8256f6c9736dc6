-- ===== src/Controller/Attempt.antt =====
-- clusterswitchpolicy_controller.go: one attempt of a switchover. Whether there is to be one
-- (decideSwitchover), the engine's configuration of it (executeSwitchover), and what its result does
-- to the policy (writeSwitchoverResult, with translatePreFlight of progress.go).
pub mod Allowed
use Prim.Native.String.{len, slice, ◌++◌ as ◌+++◌}
use mysql_keeper.Prelude.{
  ℕ, ◌-◌, String, List, [], ◌∷◌, Bool, true, false, not, Option, none, some, if◌then◌else◌, str_eq,
  is_some, map, leb,
}
use mysql_keeper.Prelude.Int.{pos}
use mysql_keeper.Go.Time.{Time}
use mysql_keeper.Go.Error.{Message, text, number, Error, printed, Result, ok, err}
use mysql_keeper.Api.{ClusterSwitchPolicy}
use mysql_keeper.Api.Spec.{ClusterRole, dc, dr}
use mysql_keeper.Api.Status.{
  monitoring, degraded, SwitchoverProgress, PreFlightCheck, PreFlightStatus,
  ClusterSwitchPolicyStatus, ReplicationErrorStatus,
}
use mysql_keeper.Health.{ClusterHealth}
use mysql_keeper.Lease.{LeaderLease, check_peer_lease}
use mysql_keeper.Pxc.Gtid.{GtidSnapshot}
use mysql_keeper.Switchover.Effects.{
  Phase, pre_flight, fence, promote, routing, reverse_replica, verify, finished,
}
use mysql_keeper.Switchover.PreFlight.Result.{CheckResult, PreFlightResult, severity_text}
use mysql_keeper.Switchover.Engine.{ExecResult}
use mysql_keeper.Switchover.Engine.Phases.{Config}
use mysql_keeper.Controller.Client.{Kube, R, pure, ◌>>=◌, send, status, Requeue, requeue_after}
use mysql_keeper.Controller.Decision.{evaluate_switchover}
use mysql_keeper.Controller.LeaseTtl.{lease_ttl}
use mysql_keeper.Controller.Recovery.{with_status}
use mysql_keeper.Controller.ReplicationErrors.Skip.{is_currently_quarantined}

-- `Phase.String()`
abbrev pub phase_text : Phase → String
phase_text pre_flight = "PreFlight"
phase_text fence = "Fence"
phase_text promote = "Promote"
phase_text routing = "Routing"
phase_text reverse_replica = "ReverseReplica"
phase_text verify = "Verify"
phase_text finished = "Done"

abbrev role_text : ClusterRole → String
role_text dc = "dc"
role_text dr = "dr"

unfoldable pub controller_owner_id : ClusterSwitchPolicy → String
controller_owner_id policy =
    role_text policy.spec.cluster_role
    +++ ":"
    +++ policy.metadata.namespace
    +++ "/"
    +++ policy.metadata.name

-- The reason, where the controller is to flip: the decision, then the gate on the peer's lease.
-- `peer` is what GetLeaderLease answers on the remote cluster, `none` where there is no handle on it.
unfoldable pub decide_switchover :
    Time
    → Time
    → Option (Result LeaderLease)
    → ClusterHealth
    → ClusterHealth
    → ClusterSwitchPolicy
    → Option Message
decide_switchover clock now peer local_h remote_h policy =
    let d = evaluate_switchover policy local_h remote_h clock in
    if not d.should
    then none
    else if is_some (check_peer_lease peer now (lease_ttl policy) (controller_owner_id policy))
    then none
    else some d.reason

abbrev pub replica_quarantine_reason : Option ReplicationErrorStatus → Message
replica_quarantine_reason none = []
replica_quarantine_reason (some s) = s.quarantine_reason

-- The literal switchover.Config{…}: every component is there (buildComponents), and there is no
-- source for a reversed channel.
unfoldable pub config_of : ClusterSwitchPolicy → Config
config_of policy =
    let sw = policy.spec.switchover in
    let local_channel = policy.spec.replication_channel_name in
    let peer_channel = policy.spec.peer_replication_channel_name in
    record {
      remote_pxc = true;
      local_inspector = true;
      remote_inspector = true;
      remote_replication = true;
      local_replication = true;
      local_proxysql = true;
      routing = record {
        old_writer_host = sw.local_writer_host;
        old_writer_port = pos 3306;
        new_writer_host = sw.remote_writer_host;
        new_writer_port = sw.remote_writer_port;
        read_write_hostgroup = sw.read_write_hostgroup;
        read_only_hostgroup = sw.read_only_hostgroup;
      };
      blackhole_fence = record {
        target_host = sw.local_writer_host;
        target_port = pos 3306;
        blackhole_hostgroup = sw.blackhole_hostgroup;
      };
      local_replication_channel = local_channel;
      remote_replication_channel = if str_eq peer_channel "" then local_channel else peer_channel;
      reverse_replication_source = none;
      min_binlog_retention_seconds = policy.spec.preflight.min_binlog_retention_seconds;
      catchup_timeout = policy.spec.preflight.catchup_timeout;
      drain_timeout = sw.drain_timeout;
      allow_data_loss_failover = policy.spec.allow_data_loss_failover;
      local_replica_quarantined = is_currently_quarantined policy;
      local_quarantine_reason = replica_quarantine_reason policy.status.replication_errors;
    }

abbrev pub flipped : Option ClusterRole → ClusterRole
flipped (some dc) = dr
flipped _ = dc

abbrev pub finished_progress : SwitchoverProgress → SwitchoverProgress
finished_progress prog = record prog {
  current_phase = phase_text finished;
  failed_phase = "";
  error = [];
}

abbrev error_or : Message → Option Error → Message
error_or m none = m
error_or m (some e) = printed e

abbrev pub failed_progress : ExecResult → SwitchoverProgress → SwitchoverProgress
failed_progress result prog = record prog {
  failed_phase = phase_text result.failed_phase;
  error = error_or prog.error result.error;
}

abbrev pub mapped :
    (SwitchoverProgress → SwitchoverProgress)
    → Option SwitchoverProgress
    → Option SwitchoverProgress
mapped f none = none
mapped f (some p) = some (f p)

-- What fmt prints of a message.
module _ (render : Message → String) where
  unfoldable pub truncate_gtid : String → String
  truncate_gtid s =
      if leb (len s) 2048
      then s
      else slice s 0 2048
        +++ render (text "…(" ∷ number (pos (len s - 2048)) ∷ text " more chars)" ∷ [])

  -- A message that is short enough keeps its pieces.
  unfoldable pub truncate_message : Message → ℕ → Message
  truncate_message m max =
      if leb (len (render m)) max then m else text (slice (render m) 0 max +++ "…") ∷ []

  executed_of : Option GtidSnapshot → String
  unfolding truncate_gtid
  executed_of none = ""
  executed_of (some g) = truncate_gtid g.executed

  check_of : CheckResult → PreFlightCheck
  unfolding truncate_message
  check_of c = record {
    name = c.name;
    severity = severity_text c.severity;
    passed = c.passed;
    message = truncate_message c.message 400;
  }

  -- The engine's result always has a preflight.
  unfoldable pub translate_preflight : Time → PreFlightResult → PreFlightStatus
  unfolding executed_of check_of
  translate_preflight now r = record {
    passed_at = now;
    checks = map check_of r.checks;
    local_gtid_executed = executed_of r.local_snapshot;
    remote_gtid_executed = executed_of r.remote_snapshot;
  }

  -- The status after a result; the clock is read for the preflight, and then for the switchover.
  unfoldable pub result_status :
      Time → Time → ExecResult → Message → ClusterSwitchPolicyStatus → ClusterSwitchPolicyStatus
  unfolding translate_preflight
  result_status clock now result reason s =
      let t = record s { last_preflight = some (translate_preflight clock result.preflight) } in
      if result.success
      then record t {
        last_switchover_time = some now;
        last_switchover_reason = reason;
        phase = monitoring;
        consecutive_local_failures = pos 0;
        consecutive_local_unreachable = pos 0;
        consecutive_remote_unreachable = pos 0;
        active_cluster = some (flipped s.active_cluster);
        switchover_progress = mapped finished_progress s.switchover_progress;
      }
      else record t {
        phase = degraded;
        switchover_progress = mapped (failed_progress result) s.switchover_progress;
      }

  interval_reply : Result ClusterSwitchPolicy → Result Requeue
  interval_reply (err e) = err e
  interval_reply (ok p) = ok (requeue_after p.spec.health_check.interval)

  unfoldable pub write_switchover_result :
      Kube → Time → Time → ExecResult → Message → ClusterSwitchPolicy → R (Result Requeue)
  unfolding result_status interval_reply
  write_switchover_result kube clock now result reason policy = do
    answer ←
        send kube status policy
          (with_status (result_status clock now result reason policy.status) policy)
    pure (interval_reply answer)
