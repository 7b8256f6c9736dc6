-- ===== src/Controller/Recovery.antt =====
-- clusterswitchpolicy_controller.go: how a policy becomes Degraded because a switchover took too
-- long (handleStuckSwitchover), and the way out of Degraded (handleDegradedRecovery).
pub mod Exit
pub mod Stuck
mod Tests
use mysql_keeper.Prelude.{
  String, [], ◌∷◌, Bool, true, false, not, ◌&&◌, ◌||◌, Option, none, some, if◌then◌else◌, str_eq,
  is_empty,
}
use mysql_keeper.Prelude.Int.{pos, leb_ℤ, ltb_ℤ}
use mysql_keeper.Go.Time.{Time, Duration, sub}
use mysql_keeper.Go.Error.{Message, text, span, Result, ok, err, wrapped}
use mysql_keeper.Api.{ClusterSwitchPolicy}
use mysql_keeper.Api.Status.{
  Phase, monitoring, degraded, SwitchoverProgress, ClusterSwitchPolicyStatus,
}
use mysql_keeper.Health.{ClusterHealth, writable_eq, writable_yes}
use mysql_keeper.Controller.Client.{
  Kube, R, pure, ◌>>=◌, send, in_hand, status, Requeue, requeue_after,
}
use mysql_keeper.Controller.Finalizer.{stuck_limit}

abbrev pub with_status : ClusterSwitchPolicyStatus → ClusterSwitchPolicy → ClusterSwitchPolicy
with_status s policy = record policy { status = s }

-- `Status.Phase == PhaseDegraded`
abbrev pub is_degraded : Phase → Bool
is_degraded degraded = true
is_degraded _ = false

-- The attempt is given up at the phase that it is in.
abbrev pub abandoned_progress : Duration → SwitchoverProgress → SwitchoverProgress
abandoned_progress stuck_for prog = record prog {
  failed_phase = prog.current_phase;
  error =
      if is_empty prog.error
      then text "abandoned after " ∷ span stuck_for ∷ text " — manual intervention required" ∷ []
      else prog.error;
}

abbrev pub abandoned : Duration → SwitchoverProgress → ClusterSwitchPolicy → ClusterSwitchPolicy
abandoned stuck_for prog policy =
    with_status
      (record policy.status {
        phase = degraded;
        switchover_progress = some (abandoned_progress stuck_for prog);
      })
      policy

module _ (kube : Kube) (now : Time) (policy : ClusterSwitchPolicy) where
  abandon : Duration → SwitchoverProgress → R (Option Requeue)
  abandon stuck_for prog = do
    answer ← send kube status policy (abandoned stuck_for prog policy)
    pure (
        some (
          requeue_after
            (in_hand (abandoned stuck_for prog policy) answer).spec.health_check.interval))

  stuck_step : Option SwitchoverProgress → R (Option Requeue)
  unfolding abandon
  stuck_step none = pure none
  stuck_step (some prog) =
      if not (str_eq prog.failed_phase "")
      then pure none
      else if ltb_ℤ (sub now prog.started_at) (stuck_limit policy)
      then pure none
      else abandon (sub now prog.started_at) prog

  -- `none` where the reconcile goes on; the policy is then as it was.
  unfoldable pub handle_stuck_switchover : R (Option Requeue)
  unfolding stuck_step
  handle_stuck_switchover = stuck_step policy.status.switchover_progress

unfoldable pub annotation_changed : ClusterSwitchPolicy → Bool
annotation_changed policy =
    not (str_eq policy.metadata.recover_degraded "")
    && not (str_eq policy.metadata.recover_degraded policy.status.last_recovery_annotation)

-- The interval has passed since the last attempt, or there was none.
abbrev pub elapsed : Time → Duration → Option Time → Bool
elapsed now interval none = true
elapsed now interval (some last) = leb_ℤ interval (sub now last)

unfoldable pub auto_ready : Time → ClusterSwitchPolicy → Bool
auto_ready now policy =
    let interval = policy.spec.recovery.auto_recovery_interval in
    ltb_ℤ (pos 0) interval && elapsed now interval policy.status.last_degraded_recovery_attempt

-- `a != b` on Booleans
abbrev pub differ : Bool → Bool → Bool
differ true b = not b
differ false b = b

unfoldable pub is_restored : ClusterHealth → ClusterHealth → Bool
is_restored local_h remote_h =
    (local_h.healthy && remote_h.healthy)
    && differ (writable_eq local_h.writable writable_yes)
        (writable_eq remote_h.writable writable_yes)

-- The interval of the health checks, or the interval of the recovery where it is shorter.
unfoldable pub recovery_delay : ClusterSwitchPolicy → Duration
recovery_delay policy =
    let interval = policy.spec.recovery.auto_recovery_interval in
    let delay = policy.spec.health_check.interval in
    if ltb_ℤ (pos 0) interval && ltb_ℤ interval delay then interval else delay

-- The status that an attempt writes.
unfoldable pub attempted :
    Time → ClusterHealth → ClusterHealth → ClusterSwitchPolicy → ClusterSwitchPolicyStatus
attempted now local_h remote_h policy =
    let s = record policy.status {
      last_degraded_recovery_attempt = some now;
      last_recovery_annotation =
          if annotation_changed policy
          then policy.metadata.recover_degraded
          else policy.status.last_recovery_annotation;
    } in
    if is_restored local_h remote_h
    then record s { phase = monitoring; switchover_progress = none }
    else s

recovery_reply : Result ClusterSwitchPolicy → Result Requeue
recovery_reply (err e) = err (wrapped (text "patch status during degraded recovery" ∷ []) e)
recovery_reply (ok p) = ok (
    requeue_after
      (if is_degraded p.status.phase then recovery_delay p else p.spec.health_check.interval))

-- `clock` is read for the test of the interval, `now` for the time of the attempt.
unfoldable pub handle_degraded_recovery :
    Kube → Time → Time → ClusterHealth → ClusterHealth → ClusterSwitchPolicy → R (Result Requeue)
unfolding recovery_reply
handle_degraded_recovery kube clock now local_h remote_h policy =
    if not (annotation_changed policy) && not (auto_ready clock policy)
    then pure (ok (requeue_after (recovery_delay policy)))
    else do
      answer ← send kube status policy (with_status (attempted now local_h remote_h policy) policy)
      pure (recovery_reply answer)
