-- ===== src/Controller/ReplicationErrors/Status.antt =====
-- updateReplicationErrorStatus: what a cycle found goes into the status.
pub mod Sticky
use mysql_keeper.Prelude.{
  ℕ, String, List, [], ◌∷◌, ◌++◌, Bool, true, false, not, ◌&&◌, Option, none, some, if◌then◌else◌,
  map, is_some, is_empty, str_eq,
}
use mysql_keeper.Prelude.Int.{ℤ, pos, ltb_ℤ}
use mysql_keeper.Go.Time.{Time}
use mysql_keeper.Go.Error.{Message, text, quoted, number, Result, ok, err}
use mysql_keeper.Api.{ClusterSwitchPolicy}
use mysql_keeper.Api.Spec.{AutoSkipConfig, ReplicationErrorHandlingConfig}
use mysql_keeper.Api.Status.{
  SkippedTransaction, ReplicationErrorEntry, ReplicationErrorStatus, Condition,
  ClusterSwitchPolicyStatus,
}
use mysql_keeper.Health.{ClusterHealth, writable_eq, writable_unknown}
use mysql_keeper.Pxc.Replication.{WorkerError}
use mysql_keeper.Controller.ReplicationErrors.History.{
  effective_replication_error_handling, prune_skips_by_retention, append_skips_capped,
}
use mysql_keeper.Controller.ReplicationErrors.Skip.{Skipper, Skips, no_skips, apply_auto_skip}
use mysql_keeper.Controller.ReplicationErrors.Quarantine.{
  Quarantine, no_quarantine, evaluate_quarantine,
}
use mysql_keeper.Controller.ReplicationErrors.Cycle.{ReplicationErrorOutcome}

-- `&ReplicationErrorStatus{}` where there is none.
abbrev current_of : Option ReplicationErrorStatus → ReplicationErrorStatus
current_of none = record {
  last_error = none;
  skipped_transactions = [];
  quarantined_since = none;
  quarantine_reason = [];
  last_clear_annotation_value = "";
}
current_of (some s) = s

history_step :
    AutoSkipConfig
    → List SkippedTransaction
    → Time
    → List SkippedTransaction
    → List SkippedTransaction
history_step cfg skipped now history =
    let pruned = prune_skips_by_retention history cfg.history_retention now in
    if is_empty skipped then pruned else append_skips_capped pruned skipped 50

quarantine_step : String → Quarantine → Time → ReplicationErrorStatus → ReplicationErrorStatus
quarantine_step annotation q now cur =
    let kept =
      (if q.active
        then record cur {
          quarantined_since = elim cur.quarantined_since [ none ↦ some now | some t ↦ some t ];
          quarantine_reason = q.reason;
        }
        else if is_some cur.quarantined_since
        then record cur {
          quarantined_since = none;
          quarantine_reason = [];
          last_clear_annotation_value =
              if str_eq annotation "" then cur.last_clear_annotation_value else annotation;
        }
        else cur) in
    if str_eq q.refused_clear_annotation ""
    then kept
    else record kept { last_clear_annotation_value = q.refused_clear_annotation }

unfoldable pub next_status :
    ClusterSwitchPolicy → ReplicationErrorOutcome → Time → ReplicationErrorStatus
unfolding history_step quarantine_step
next_status policy out now =
    let cur = current_of policy.status.replication_errors in
    let cfg = (effective_replication_error_handling policy).auto_skip in
    quarantine_step policy.metadata.clear_quarantine out.quarantine now (record cur {
      last_error = out.active_error;
      skipped_transactions = history_step cfg out.skips.skipped now cur.skipped_transactions;
    })

abbrev healthy_condition : ReplicationErrorOutcome → Time → Condition
healthy_condition out now = elim out.active_error [
  | some e ↦ record {
    kind = "ReplicationHealthy";
    status = false;
    reason = "SQLApplierError";
    message =
        text "errno="
        ∷ number e.errno
        ∷ text " on channel "
        ∷ quoted e.channel
        ∷ text ": "
        ∷ text e.message
        ∷ [];
    last_transition_time = now;
  }
  | none ↦
      if out.gtid_gap_triggered
      then record {
        kind = "ReplicationHealthy";
        status = false;
        reason = "GTIDGapExceeded";
        message =
            text "missing GTID transactions exceeded threshold (current="
            ∷ number out.gtid_missing
            ∷ text ")"
            ∷ [];
        last_transition_time = now;
      }
      else record {
        kind = "ReplicationHealthy";
        status = true;
        reason = "OK";
        message = text "no SQL apply error and GTID gap within threshold" ∷ [];
        last_transition_time = now;
      }
]

abbrev quarantine_condition : ReplicationErrorOutcome → Time → Condition
quarantine_condition out now =
    if out.quarantine.active
    then record {
      kind = "ReplicaQuarantined";
      status = true;
      reason = "SkipThresholdExceeded";
      message = out.quarantine.reason;
      last_transition_time = now;
    }
    else record {
      kind = "ReplicaQuarantined";
      status = false;
      reason = "Clear";
      message = text "skip count below quarantine threshold" ∷ [];
      last_transition_time = now;
    }

-- `set` is meta.SetStatusCondition.
unfoldable pub update_replication_error_status :
    (List Condition → Condition → List Condition)
    → ClusterSwitchPolicy
    → ReplicationErrorOutcome
    → Time
    → ClusterSwitchPolicy
update_replication_error_status set policy out now = record policy {
  status = record policy.status {
    replication_errors = some (next_status policy out now);
    conditions =
        set (set policy.status.conditions (healthy_condition out now))
          (quarantine_condition out now);
  };
}
