-- ===== src/Controller/Progress/Tests.antt =====
-- The checkpoints of a run: the fence's are lost, that of the promotion is written.
use mysql_keeper.Prelude.{refl, [], ◌∷◌, some, str_neq}
use mysql_keeper.Prelude.Int.{pos}
use mysql_keeper.Go.Error.{done, err, foreign, text}
use mysql_keeper.Api.{ClusterSwitchPolicy}
use mysql_keeper.Switchover.Effects.{on_phase_start, on_phase_complete, fence, promote}
use mysql_keeper.Controller.Samples.{sample_policy, sample_status}
use mysql_keeper.Controller.Progress.{ProgressReporter, Write, report_all}
use mysql_keeper.Controller.Progress.Checkpoints.{IsFailed, failure_stays}

abbrev reporter : ProgressReporter
reporter = record { attempt_id = "a1"; reason = text "manual" ∷ []; completed = [] }

abbrev lost : Write
lost = record {
  call = on_phase_complete fence;
  get = err (foreign "timeout");
  patch = done;
  now = pos 5;
}

abbrev written : Write
written = record { call = on_phase_start promote; get = done; patch = done; now = pos 6 }

-- ReverseReplica failed, and is best-effort.
abbrev failed_policy : ClusterSwitchPolicy
failed_policy = record sample_policy {
  status = record sample_status {
    switchover_progress = some (record {
      attempt_id = "a1";
      started_at = pos 0;
      current_phase = "ReverseReplica";
      completed_phases = [];
      failed_phase = "ReverseReplica";
      reason = [];
      error = [];
    });
  };
}

failure_stays_example :
    IsFailed "a1" (report_all (written ∷ []) (reporter, failed_policy)).1.status.switchover_progress
failure_stays_example =
    failure_stays (written ∷ []) reporter failed_policy (refl, str_neq "ReverseReplica" "" refl)
