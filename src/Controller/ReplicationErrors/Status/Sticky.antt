-- ===== src/Controller/ReplicationErrors/Status/Sticky.antt =====
-- What a whole cycle does to the quarantine in the status, and to the history of skips.
use mysql_keeper.Prelude.{
  String, ℕ, ◌-◌, ◌≤◌, ◌≡◌, refl, List, [], ◌∷◌, ◌++◌, Bool, Option, none, some, arith, length,
  keep, length-drop, is_some, take, take-append-drop,
}
use mysql_keeper.Go.Time.{Time}
use mysql_keeper.Api.{ClusterSwitchPolicy}
use mysql_keeper.Api.Spec.{AutoSkipConfig}
use mysql_keeper.Api.Status.{SkippedTransaction, Condition, ReplicationErrorStatus}
use mysql_keeper.Controller.ReplicationErrors.History.{
  effective_replication_error_handling, prune_skips_by_retention, append_skips_capped, in_window,
}
use mysql_keeper.Controller.ReplicationErrors.Skip.{
  is_currently_quarantined, historical_skips, skipped_of,
}
use mysql_keeper.Controller.ReplicationErrors.Quarantine.{Quarantine}
use mysql_keeper.Controller.ReplicationErrors.Cycle.{ReplicationErrorOutcome}
use mysql_keeper.Controller.ReplicationErrors.Status.{
  current_of, quarantine_step, history_step, next_status, update_replication_error_status,
}

-- The status with the cycle's error and history, before the quarantine.
abbrev observed : ClusterSwitchPolicy → ReplicationErrorOutcome → Time → ReplicationErrorStatus
observed policy out now =
    let cur = current_of policy.status.replication_errors in
    record cur {
      last_error = out.active_error;
      skipped_transactions =
          history_step (effective_replication_error_handling policy).auto_skip out.skips.skipped now
            cur.skipped_transactions;
    }

module _ (set : List Condition → Condition → List Condition) where
  quarantine_step-active :
      (annotation : String) (q : Quarantine) (now : Time) (cur : ReplicationErrorStatus)
      → is_some (quarantine_step annotation q now cur).quarantined_since ≡ q.active
  unfolding quarantine_step
  quarantine_step-active annotation q now cur = ground arith

  -- After the status is updated the policy counts as quarantined exactly if the outcome of the
  -- cycle says so, whatever it was before.
  pub status_follows_outcome :
      (policy : ClusterSwitchPolicy) (out : ReplicationErrorOutcome) (now : Time)
      → is_currently_quarantined (update_replication_error_status set policy out now)
        ≡ out.quarantine.active
  unfolding update_replication_error_status next_status is_currently_quarantined
  status_follows_outcome policy out now =
      quarantine_step-active policy.metadata.clear_quarantine out.quarantine now
        (observed policy out now)

keep-length :
    (p : SkippedTransaction → Bool) (xs : List SkippedTransaction) → length (keep p xs) ≤ length xs
keep-length p [] = ground arith
keep-length p (x ∷ xs) = ground (arith, keep-length p xs)

-- Appending to the history keeps at most as many entries as the cap, and they are the newest: the
-- entries that it drops, followed by those that it keeps, are the old history followed by the new
-- entries.
pub append_skips_capped-newest :
    (history entries : List SkippedTransaction) (cap_n : ℕ)
    → (length (append_skips_capped history entries cap_n) ≤ cap_n)
      × (take (length (history ++ entries) - cap_n) (history ++ entries)
            ++ append_skips_capped history entries cap_n
          ≡ history ++ entries)
unfolding append_skips_capped
append_skips_capped-newest history entries cap_n = ground (
  arith,
  length-drop (length (history ++ entries) - cap_n) (history ++ entries),
  take-append-drop (length (history ++ entries) - cap_n) (history ++ entries),
)

history_step-length :
    (cfg : AutoSkipConfig) (skipped : List SkippedTransaction) (now : Time)
    (history : List SkippedTransaction)
    → length history ≤ 50
    → length (history_step cfg skipped now history) ≤ 50
unfolding history_step prune_skips_by_retention
history_step-length cfg skipped now history h = ground (
  arith,
  keep-length (in_window cfg.history_retention now) history,
  append_skips_capped-newest (prune_skips_by_retention history cfg.history_retention now) skipped
      50,
)

quarantine_step-skipped :
    (annotation : String) (q : Quarantine) (now : Time) (cur : ReplicationErrorStatus)
    → (quarantine_step annotation q now cur).skipped_transactions ≡ cur.skipped_transactions
unfolding quarantine_step
quarantine_step-skipped annotation q now cur = ground arith

historical-current :
    (s : Option ReplicationErrorStatus) → skipped_of s ≡ (current_of s).skipped_transactions
historical-current none = refl
historical-current (some s) = refl

-- A history of at most 50 skips in the status is one of at most 50 after a cycle, whatever the
-- cycle skipped.
pub status-history_bounded :
    (set : List Condition → Condition → List Condition) (policy : ClusterSwitchPolicy)
    (out : ReplicationErrorOutcome) (now : Time)
    → length (historical_skips policy) ≤ 50
    → length (historical_skips (update_replication_error_status set policy out now)) ≤ 50
unfolding update_replication_error_status next_status historical_skips
status-history_bounded set policy out now h =
    let cur = current_of policy.status.replication_errors in
    rw
      (quarantine_step-skipped policy.metadata.clear_quarantine out.quarantine now
        (observed policy out now))
      (history_step-length (effective_replication_error_handling policy).auto_skip out.skips.skipped
        now cur.skipped_transactions
        (rw (historical-current policy.status.replication_errors) at h))
