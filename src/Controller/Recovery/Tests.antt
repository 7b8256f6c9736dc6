-- ===== src/Controller/Recovery/Tests.antt =====
-- An operator asks for a recovery.
use mysql_keeper.Prelude.{◌≡◌, [], some, true}
use mysql_keeper.Prelude.Int.{pos}
use mysql_keeper.Go.Error.{Outcome}
use mysql_keeper.Api.{ClusterSwitchPolicy}
use mysql_keeper.Api.Status.{degraded, monitoring}
use mysql_keeper.Health.{ClusterHealth, writable_yes}
use mysql_keeper.Controller.Client.{patch, status, note}
use mysql_keeper.Controller.Samples.{
  sample_policy, sample_status, sample_kube, fresh_world, replica,
}
use mysql_keeper.Controller.Recovery.{handle_degraded_recovery, handle_stuck_switchover}
use mysql_keeper.Controller.Recovery.Stuck.{StuckCases, handle_stuck-StuckCases}
use mysql_keeper.Controller.Recovery.Exit.{IsAsked, IsAttempt, recovery_exit}

abbrev asking : ClusterSwitchPolicy
asking = record sample_policy {
  metadata = record sample_policy.metadata { recover_degraded = "2026-01-01" };
  status = record sample_status { phase = degraded };
}

abbrev source : ClusterHealth
source = record replica { writable = writable_yes; is_writable = true }

recovery_exit_example :
    (¬ (IsAsked (pos 1) asking)
      → (handle_degraded_recovery sample_kube (pos 1) (pos 2) source replica asking fresh_world).1
        ≡ fresh_world)
    × (IsAsked (pos 1) asking
        → (sent : ClusterSwitchPolicy) × (answer : Outcome) × ((handle_degraded_recovery sample_kube
              (pos 1)
              (pos 2)
              source
              replica
              asking
              fresh_world).1
            ≡ note (patch status asking sent) answer fresh_world)
          × IsAttempt (pos 2) source replica asking sent)
recovery_exit_example = recovery_exit sample_kube (pos 1) (pos 2) source replica fresh_world asking

-- An attempt that reached Done, eleven minutes after its start.
abbrev waiting : ClusterSwitchPolicy
waiting = record sample_policy {
  status = record sample_status {
    phase = monitoring;
    switchover_progress = some (record {
      attempt_id = "a1";
      started_at = pos 0;
      current_phase = "Done";
      completed_phases = [];
      failed_phase = "";
      reason = [];
      error = [];
    });
  };
}

handle_stuck-StuckCases_example :
    StuckCases sample_kube
      (pos 660000000000)
      fresh_world
      waiting
      waiting.status.switchover_progress
      (handle_stuck_switchover sample_kube (pos 660000000000) waiting fresh_world)
handle_stuck-StuckCases_example =
    handle_stuck-StuckCases sample_kube (pos 660000000000) fresh_world waiting
