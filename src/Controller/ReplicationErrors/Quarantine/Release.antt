-- ===== src/Controller/ReplicationErrors/Quarantine/Release.antt =====
-- When evaluateQuarantine lets a replica into the quarantine, and out of it.
use mysql_keeper.Prelude.{◌≡◌, ◌↔◌, List, Bool, true, false, Option, none, arith}
use mysql_keeper.Prelude.Int.{◌≤ℤ◌, ◌<ℤ◌}
use mysql_keeper.Go.Time.{Time}
use mysql_keeper.Api.{ClusterSwitchPolicy}
use mysql_keeper.Api.Spec.{AutoSkipConfig}
use mysql_keeper.Api.Status.{SkippedTransaction, ReplicationErrorEntry}
use mysql_keeper.Controller.ReplicationErrors.Skip.{is_currently_quarantined}
use mysql_keeper.Controller.ReplicationErrors.Quarantine.{
  evaluate_quarantine, still_quarantined, operator_requested_clear, quarantine_count,
  safe_to_clear_quarantine,
}

module _ (policy : ClusterSwitchPolicy) (cfg : AutoSkipConfig)
    (active_error : Option ReplicationErrorEntry) (skipped : List SkippedTransaction)
    (now : Time) where
  still_quarantined-active :
      (b : Bool)
      → ((still_quarantined policy cfg active_error skipped now b).active ≡ false) ↔ (
          (b ≡ true)
          × (active_error ≡ none)
          × (quarantine_count policy cfg skipped now ≤ℤ cfg.max_skip_before_quarantine))
  unfolding still_quarantined safe_to_clear_quarantine
  still_quarantined-active true = ground arith
  still_quarantined-active false = ground arith

  -- A quarantined replica that the evaluation reaches is released exactly when the operator newly
  -- asks for it, the cycle found no active error, and the skips in the quarantine window, counted
  -- as an int32, do not exceed the threshold.
  pub evaluate-released_iff :
      is_currently_quarantined policy ≡ true
      → ((evaluate_quarantine policy cfg active_error skipped now).active ≡ false) ↔ (
          (operator_requested_clear policy ≡ true)
          × (active_error ≡ none)
          × (quarantine_count policy cfg skipped now ≤ℤ cfg.max_skip_before_quarantine))
  unfolding evaluate_quarantine
  evaluate-released_iff held =
      simp (held) (still_quarantined-active (operator_requested_clear policy))

  -- A replica that is not quarantined enters the quarantine exactly when the skips in the
  -- quarantine window, counted as an int32, exceed the threshold.
  pub evaluate-entered_iff :
      is_currently_quarantined policy ≡ false
      → ((evaluate_quarantine policy cfg active_error skipped now).active ≡ true)
        ↔ (cfg.max_skip_before_quarantine <ℤ quarantine_count policy cfg skipped now)
  unfolding evaluate_quarantine
  evaluate-entered_iff free = ground arith
