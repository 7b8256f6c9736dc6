-- ===== src/Controller/ReplicationErrors/Cycle.antt =====
-- What one cycle finds: observeReplicationErrors.
pub mod Events
pub mod Announced
use mysql_keeper.Prelude.{
  ℕ, String, List, [], ◌∷◌, ◌++◌, Bool, true, false, not, ◌&&◌, Option, none, some, if◌then◌else◌,
  map, is_some, is_empty, str_eq,
}
use mysql_keeper.Prelude.Int.{ℤ, pos, ltb_ℤ}
use mysql_keeper.Go.Time.{Time}
use mysql_keeper.Go.Error.{Message, text, quoted, number, Result, ok, err}
use mysql_keeper.Api.{ClusterSwitchPolicy}
use mysql_keeper.Api.Spec.{AutoSkipConfig, ReplicationErrorHandlingConfig}
use mysql_keeper.Api.Status.{
  SkippedTransaction, ReplicationErrorEntry, ReplicationErrorStatus, Condition,
  ClusterSwitchPolicyStatus,
}
use mysql_keeper.Health.{ClusterHealth, writable_eq, writable_unknown}
use mysql_keeper.Pxc.Replication.{WorkerError}
use mysql_keeper.Controller.ReplicationErrors.History.{
  effective_replication_error_handling, prune_skips_by_retention, append_skips_capped,
}
use mysql_keeper.Controller.ReplicationErrors.Skip.{Skipper, Skips, no_skips, apply_auto_skip}
use mysql_keeper.Controller.ReplicationErrors.Quarantine.{
  Quarantine, no_quarantine, evaluate_quarantine,
}

-- What the cycle asks of the local cluster: whether there is an inspector, the answer of
-- DetectWorkerErrors if it can detect, and SkipNextTransaction if it can skip.
pub record Inspector : Type 0 where
  pub present : Bool
  pub detected : Option (Result (List WorkerError))
  pub skipper : Option Skipper

pub record ReplicationErrorOutcome : Type 0 where
  pub active_error : Option ReplicationErrorEntry
  pub all_errors : List ReplicationErrorEntry
  pub gtid_gap_triggered : Bool
  pub gtid_missing : ℤ
  pub skips : Skips
  pub quarantine : Quarantine

abbrev pub nothing_found : ℤ → ReplicationErrorOutcome
nothing_found missing = record {
  active_error = none;
  all_errors = [];
  gtid_gap_triggered = false;
  gtid_missing = missing;
  skips = no_skips;
  quarantine = no_quarantine;
}

abbrev entry_of : Time → WorkerError → ReplicationErrorEntry
entry_of now w = record {
  channel = w.channel;
  worker_id = w.worker_id;
  gtid = w.failed_gtid;
  errno = w.errno;
  message = w.message;
  observed_at = elim w.timestamp [ none ↦ now | some t ↦ t ];
}

abbrev first : List ReplicationErrorEntry → Option ReplicationErrorEntry
first [] = none
first (e ∷ es) = some e

-- After a detection that worked: skip, and evaluate the quarantine.
after_detection :
    ClusterSwitchPolicy
    → Option Skipper
    → AutoSkipConfig
    → Bool
    → ℤ
    → List ReplicationErrorEntry
    → Time
    → ReplicationErrorOutcome
after_detection policy skipper cfg gap missing errors now =
    let skips = apply_auto_skip policy skipper cfg errors now in
    record {
      active_error = first errors;
      all_errors = errors;
      gtid_gap_triggered = gap;
      gtid_missing = missing;
      skips = skips;
      quarantine = evaluate_quarantine policy cfg (first errors) skips.skipped now;
    }

detection_step :
    ClusterSwitchPolicy
    → Option Skipper
    → AutoSkipConfig
    → Bool
    → ℤ
    → Option (Result (List WorkerError))
    → Time
    → Time
    → ReplicationErrorOutcome
unfolding after_detection
detection_step policy skipper cfg gap missing none now later = record (nothing_found missing) {
  gtid_gap_triggered = gap;
}
detection_step policy skipper cfg gap missing (some (err e)) now later =
    record (nothing_found missing) { gtid_gap_triggered = gap }
detection_step policy skipper cfg gap missing (some (ok workers)) now later =
    after_detection policy skipper cfg gap missing (map (entry_of now) workers) later

-- `now` is the time of the detection, `later` that of the skips.
unfoldable pub observe_replication_errors :
    ClusterSwitchPolicy
    → Inspector
    → ClusterHealth
    → ℤ
    → Bool
    → Time
    → Time
    → ReplicationErrorOutcome
unfolding detection_step
observe_replication_errors policy comps local_health gtid_missing gtid_measured now later =
    let cfg = effective_replication_error_handling policy in
    let gap =
      gtid_measured
      && ltb_ℤ (pos 0) cfg.gtid_gap_alert_threshold
      && ltb_ℤ cfg.gtid_gap_alert_threshold gtid_missing in
    if not comps.present
    then nothing_found gtid_missing
    else if str_eq policy.spec.replication_channel_name ""
    then nothing_found gtid_missing
    else if writable_eq local_health.writable writable_unknown
    then nothing_found gtid_missing
    else detection_step policy comps.skipper cfg.auto_skip gap gtid_missing comps.detected now later
