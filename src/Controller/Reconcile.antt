-- ===== src/Controller/Reconcile.antt =====
-- Reconcile of clusterswitchpolicy_controller.go: one cycle of a policy, from the object that was
-- read to the reply. Each early return of the source is a branch of a step.
pub mod Starts
pub mod Once
mod Tests
use mysql_keeper.Prelude.{
  String, [], ◌∷◌, Bool, true, false, not, ◌&&◌, Option, none, some, if◌then◌else◌, is_some, str_eq,
}
use mysql_keeper.Prelude.Int.{ℤ, pos}
use mysql_keeper.Go.Time.{Time}
use mysql_keeper.Go.Error.{Message, text, Result, ok, err, wrapped}
use mysql_keeper.Api.{ClusterSwitchPolicy}
use mysql_keeper.Api.Spec.{unset}
use mysql_keeper.Api.Status.{
  Phase, unset as unset_phase, initializing, monitoring, switching_over, GtidLagStatus,
  SwitchoverProgress, ClusterSwitchPolicyStatus,
}
use mysql_keeper.Health.{ClusterHealth}
use mysql_keeper.Lease.{LeaderLease}
use mysql_keeper.Switchover.Effects.{Env, pre_flight}
use mysql_keeper.Switchover.Engine.{ExecResult, execute}
use mysql_keeper.Controller.Client.{
  Kube, R, pure, ◌>>=◌, ◌>>◌, send, act, object, status, execute_switchover, Requeue, no_requeue,
  requeue, requeue_after,
}
use mysql_keeper.Controller.Decision.{is_manual}
use mysql_keeper.Controller.Finalizer.{ensure_finalizer, handle_deletion, is_switching_over}
use mysql_keeper.Controller.HealthStatus.{update_health_status}
use mysql_keeper.Controller.Cycle.{
  update_split_brain_condition, ensure_schemas, heartbeat_leader_lease,
}
use mysql_keeper.Controller.Recovery.{
  handle_stuck_switchover, handle_degraded_recovery, is_degraded, with_status,
}
use mysql_keeper.Controller.Attempt.{
  decide_switchover, config_of, write_switchover_result, phase_text,
}
use mysql_keeper.Controller.ReplicationErrors.Skip.{is_currently_quarantined}
use mysql_keeper.Controller.ReplicationErrors.Cycle.{Inspector, observe_replication_errors}
use mysql_keeper.Controller.ReplicationErrors.Status.{update_replication_error_status}

-- What the components answer in this cycle: the snapshots, the inspector of the local cluster, the
-- lag if observeGTIDLag measured it, and the lease of the peer.
pub record Observed : Type 0 where
  pub local_h : ClusterHealth
  pub remote_h : ClusterHealth
  pub inspector : Inspector
  pub gtid_lag : Option GtidLagStatus
  pub peer_lease : Option (Result LeaderLease)

-- The clock, at each place that reads it.
pub record Clock : Type 0 where
  pub at_deletion : Time
  pub at_health : Time
  pub at_split_brain : Time
  pub at_detection : Time
  pub at_skips : Time
  pub at_errors : Time
  pub at_stuck : Time
  pub at_interval : Time
  pub at_recovery : Time
  pub at_decision : Time
  pub at_gate : Time
  pub at_start : Time
  pub at_preflight : Time
  pub at_end : Time

-- What a cycle is given: buildComponents and the answers by the policy, the clusters that a
-- switchover calls, the new attempt's name, and the printing of a message.
pub record Setting : Type 0 where
  pub kube : Kube
  pub clock : Clock
  pub build : ClusterSwitchPolicy → Result Observed
  pub clusters : Env
  pub attempt_id : String
  pub render : Message → String

abbrev pub missing_of : Option GtidLagStatus → ℤ
missing_of none = pos 0
missing_of (some l) = l.missing_transactions

abbrev is_unset : Phase → Bool
is_unset unset_phase = true
is_unset _ = false

abbrev pub with_phase : Phase → ClusterSwitchPolicy → ClusterSwitchPolicy
with_phase p policy = with_status (record policy.status { phase = p }) policy

-- `Spec.ManualSwitchoverTarget = ""`
abbrev pub cleared : ClusterSwitchPolicy → ClusterSwitchPolicy
cleared policy = record policy { spec = record policy.spec { manual_switchover_target = unset } }

-- The progress of a new attempt.
abbrev pub started_progress : String → Time → Message → SwitchoverProgress
started_progress attempt_id now reason = record {
  attempt_id = attempt_id;
  started_at = now;
  current_phase = phase_text pre_flight;
  completed_phases = [];
  failed_phase = "";
  reason = reason;
  error = [];
}

module _ (s : Setting) where
  abbrev pub started : Message → ClusterSwitchPolicy → ClusterSwitchPolicy
  started reason policy =
      with_status
        (record policy.status {
          phase = switching_over;
          switchover_progress = some (started_progress s.attempt_id s.clock.at_start reason);
        })
        policy

  -- The status that a cycle writes before it decides anything.
  pub observed_policy : Observed → ClusterSwitchPolicy → ClusterSwitchPolicy
  observed_policy o policy =
      let out =
        observe_replication_errors policy o.inspector o.local_h (missing_of o.gtid_lag)
          (is_some o.gtid_lag) s.clock.at_detection s.clock.at_skips in
      let p = update_health_status s.clock.at_health o.local_h o.remote_h policy in
      let q = update_split_brain_condition s.kube s.clock.at_split_brain o.local_h o.remote_h p in
      let t =
        with_status
          (record q.status {
            gtid_lag = if is_some o.gtid_lag then o.gtid_lag else q.status.gtid_lag;
          })
          q in
      update_replication_error_status s.kube.set_status_condition t out s.clock.at_errors

  -- A run that panics has no reply.
  after_run : Message → ClusterSwitchPolicy → Option ExecResult → R (Option (Result Requeue))
  after_run reason policy none = pure none
  after_run reason policy (some result) = do
    reply ←
        write_switchover_result s.render s.kube s.clock.at_preflight s.clock.at_end result reason
          policy
    pure (some reply)

  run_attempt : Message → Result ClusterSwitchPolicy → R (Option (Result Requeue))
  unfolding after_run
  run_attempt reason (err e) = pure (some (err e))
  run_attempt reason (ok policy) = do
    act s.kube (execute_switchover (config_of policy))
    after_run reason policy (execute s.clusters (config_of policy) []).0

  begin_attempt : Message → Result ClusterSwitchPolicy → R (Option (Result Requeue))
  unfolding run_attempt
  begin_attempt reason (err e) = pure (some (err e))
  begin_attempt reason (ok policy) = do
    answer ← send s.kube status policy (started reason policy)
    run_attempt reason answer

  -- The manual trigger stands for one attempt: it is cleared first.
  clear_trigger : ClusterSwitchPolicy → R (Result ClusterSwitchPolicy)
  clear_trigger policy =
      if is_manual policy.spec.manual_switchover_target
      then send s.kube object policy (cleared policy)
      else pure (ok policy)

  pub start_attempt : Message → ClusterSwitchPolicy → R (Option (Result Requeue))
  unfolding begin_attempt clear_trigger
  start_attempt reason policy =
      if is_manual policy.spec.manual_switchover_target && is_currently_quarantined policy
      then pure (some (ok (requeue_after (pos 30000000000))))
      else clear_trigger policy >>= begin_attempt reason

  monitored : Result ClusterSwitchPolicy → R (Option (Result Requeue))
  monitored (err e) = pure (some (err e))
  monitored (ok p) = pure (some (ok (requeue_after p.spec.health_check.interval)))

  rest : ClusterSwitchPolicy → R (Option (Result Requeue))
  unfolding monitored
  rest policy =
      if is_switching_over policy.status.phase
      then monitored (ok policy)
      else send s.kube status policy (with_phase monitoring policy) >>= monitored

  decided : ClusterSwitchPolicy → Option Message → R (Option (Result Requeue))
  unfolding start_attempt rest
  decided policy none = rest policy
  decided policy (some reason) = start_attempt reason policy

  recover : Observed → ClusterSwitchPolicy → R (Option (Result Requeue))
  recover o policy = do
    reply ←
        handle_degraded_recovery s.kube s.clock.at_interval s.clock.at_recovery o.local_h o.remote_h
          policy
    pure (some reply)

  unstuck : Observed → ClusterSwitchPolicy → Option Requeue → R (Option (Result Requeue))
  unfolding decided recover
  unstuck o policy (some reply) = pure (some (ok reply))
  unstuck o policy none =
      if is_degraded policy.status.phase
      then recover o policy
      else decided policy (
          decide_switchover s.clock.at_decision s.clock.at_gate o.peer_lease o.local_h o.remote_h
            policy)

  serve : Observed → Result ClusterSwitchPolicy → R (Option (Result Requeue))
  unfolding unstuck
  serve o (err e) = pure (some (err (wrapped (text "patch health status" ∷ []) e)))
  serve o (ok policy) = do
    ensure_schemas s.kube o.local_h o.remote_h policy
    heartbeat_leader_lease s.kube o.local_h policy
    stuck ← handle_stuck_switchover s.kube s.clock.at_stuck policy
    unstuck o policy stuck

  built : ClusterSwitchPolicy → Result Observed → R (Option (Result Requeue))
  unfolding serve observed_policy
  built policy (err e) = pure (some (err e))
  built policy (ok o) = do
    answer ← send s.kube status policy (observed_policy o policy)
    serve o answer

  initialized : Result ClusterSwitchPolicy → R (Option (Result Requeue))
  unfolding built
  initialized (err e) = pure (some (err e))
  initialized (ok policy) = built policy (s.build policy)

  initialize : ClusterSwitchPolicy → R (Result ClusterSwitchPolicy)
  initialize policy =
      if is_unset policy.status.phase
      then send s.kube status policy (with_phase initializing policy)
      else pure (ok policy)

  finalized : Result (Bool × ClusterSwitchPolicy) → R (Option (Result Requeue))
  unfolding initialized initialize
  finalized (err e) = pure (some (err e))
  finalized (ok (true, policy)) = pure (some (ok requeue))
  finalized (ok (false, policy)) = initialize policy >>= initialized

  delete_policy : ClusterSwitchPolicy → R (Option (Result Requeue))
  delete_policy policy = do
    reply ← handle_deletion s.kube s.clock.at_deletion policy
    pure (some reply)

  -- What r.Get answers, `none` where the policy is not found. A reply of `none` is a panic.
  unfoldable pub reconcile : Result (Option ClusterSwitchPolicy) → R (Option (Result Requeue))
  unfolding finalized delete_policy
  reconcile (err e) = pure (some (err e))
  reconcile (ok none) = pure (some (ok no_requeue))
  reconcile (ok (some policy)) =
      if is_some policy.metadata.deletion_timestamp
      then delete_policy policy
      else ensure_finalizer s.kube policy >>= finalized
