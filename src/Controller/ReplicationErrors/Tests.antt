-- ===== src/Controller/ReplicationErrors/Tests.antt =====
-- Skips, and a quarantine, of a concrete policy.
use mysql_keeper.Prelude.{
  ◌≡◌, ◌≤◌, ◌&&◌, not, Bool, refl, List, [], ◌∷◌, Option, none, some, true, false, arith, length,
}
use mysql_keeper.Prelude.Int.{pos}
use mysql_keeper.Go.Error.{ok, done}
use mysql_keeper.Api.{ClusterSwitchPolicy}
use mysql_keeper.Api.Spec.{AutoSkipConfig}
use mysql_keeper.Api.Status.{Condition, SkippedTransaction, ReplicationErrorEntry}
use mysql_keeper.Controller.Samples.{sample_policy, sample_status, silent, replica}
use mysql_keeper.Controller.ReplicationErrors.History.{count_skips_in_window}
use mysql_keeper.Controller.ReplicationErrors.Skip.{
  Skipper, apply_auto_skip, historical_skips, is_currently_quarantined, skip_all, whitelisted,
}
use mysql_keeper.Controller.ReplicationErrors.Skip.Limits.{
  AreCallsAllowed, apply_auto_skip-AreCallsAllowed,
}
use mysql_keeper.Controller.ReplicationErrors.Cycle.{Inspector, observe_replication_errors}
use mysql_keeper.Controller.ReplicationErrors.Status.{update_replication_error_status}
use mysql_keeper.Controller.ReplicationErrors.Cycle.Events.{cycle_events, tells_entered}
use mysql_keeper.Controller.ReplicationErrors.Cycle.Announced.{cycle_events_tell}

abbrev auto_skip : AutoSkipConfig
auto_skip = record {
  enabled = true;
  dry_run = false;
  error_code_whitelist = pos 1062 ∷ pos 1032 ∷ [];
  max_skips_per_window = pos 1;
  window = pos 600000000000;
  max_skip_before_quarantine = pos 5;
  quarantine_window = pos 3600000000000;
  history_retention = pos 604800000000000;
}

abbrev duplicate_key : ReplicationErrorEntry
duplicate_key = record {
  channel = "dr-to-dc";
  worker_id = pos 1;
  gtid = "a:10";
  errno = pos 1062;
  message = "Duplicate entry";
  observed_at = pos 0;
}

-- The table is missing: not an error to skip.
abbrev no_table : ReplicationErrorEntry
no_table = record duplicate_key { errno = pos 1146 }

abbrev skip : Skipper
skip = λ calls c. done

abbrev errors : List ReplicationErrorEntry
errors = no_table ∷ duplicate_key ∷ []

-- The duplicate key is skipped, the missing table is not.
errors-calls :
    (apply_auto_skip sample_policy (some skip) auto_skip errors (pos 9)).calls
    ≡ record { channel = "dr-to-dc"; gtid = "a:10" } ∷ []
unfolding apply_auto_skip is_currently_quarantined skip_all historical_skips whitelisted
    count_skips_in_window
errors-calls = refl

apply_auto_skip-AreCallsAllowed_example :
    AreCallsAllowed sample_policy auto_skip errors
      (apply_auto_skip sample_policy (some skip) auto_skip errors (pos 9)).calls
apply_auto_skip-AreCallsAllowed_example =
    apply_auto_skip-AreCallsAllowed sample_policy (some skip) auto_skip errors (pos 9)

abbrev no_error : Option ReplicationErrorEntry
no_error = none

-- The same policy in the quarantine.
abbrev held_policy : ClusterSwitchPolicy
held_policy = record sample_policy {
  status = record sample_status {
    replication_errors = some (record {
      last_error = none;
      skipped_transactions = [];
      quarantined_since = some (pos 1);
      quarantine_reason = [];
      last_clear_annotation_value = "";
    });
  };
}

held-quarantined : is_currently_quarantined held_policy ≡ true
unfolding is_currently_quarantined
held-quarantined = refl

sample-free : is_currently_quarantined sample_policy ≡ false
unfolding is_currently_quarantined
sample-free = refl

-- Conditions as the newest first.
abbrev set_condition : List Condition → Condition → List Condition
set_condition cs c = c ∷ cs

abbrev inspector : Inspector
inspector = record { present = true; detected = some (ok []); skipper = some skip }

abbrev known : ReplicationErrorEntry → Bool
known e = false

-- The local cluster is down for one cycle, and the quarantine is gone, without an event.
silent_cycle :
    cycle_events held_policy inspector silent known
      (observe_replication_errors held_policy inspector silent (pos 0) false (pos 9) (pos 9))
      (pos 9)
    ≡ []
unfolding cycle_events
silent_cycle = refl

cycle_events_tell_example :
    tells_entered (
      cycle_events sample_policy inspector replica known
        (observe_replication_errors sample_policy inspector replica (pos 0) false (pos 9) (pos 9))
        (pos 9))
    ≡ (not (is_currently_quarantined sample_policy)
        && is_currently_quarantined (
            update_replication_error_status set_condition sample_policy
              (observe_replication_errors sample_policy inspector replica
                (pos 0)
                false
                (pos 9)
                (pos 9))
              (pos 9)))
cycle_events_tell_example =
    (cycle_events_tell set_condition sample_policy inspector replica known (pos 0) false (pos 9)
      (pos 9) (pos 9)).0

abbrev old_skip : SkippedTransaction
old_skip = record {
  gtid = "a:1";
  errno = pos 1062;
  message = "";
  skipped_at = pos 1;
  dry_run = false;
}

held-short : length (historical_skips held_policy) ≤ 50
unfolding historical_skips
held-short = omega arith
