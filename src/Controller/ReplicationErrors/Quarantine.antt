-- ===== src/Controller/ReplicationErrors/Quarantine.antt =====
-- evaluateQuarantine and the tests that it makes.
pub mod Release
use mysql_keeper.Prelude.{
  ℕ, String, List, [], ◌∷◌, ◌++◌, Bool, true, false, not, ◌&&◌, Option, none, some, if◌then◌else◌,
  is_some, is_empty, str_eq,
}
use mysql_keeper.Prelude.Int.{ℤ, pos, leb_ℤ, ltb_ℤ, wrap32}
use mysql_keeper.Go.Time.{Time}
use mysql_keeper.Go.Error.{Message, text, quoted, number, span}
use mysql_keeper.Api.{ClusterSwitchPolicy}
use mysql_keeper.Api.Spec.{AutoSkipConfig}
use mysql_keeper.Api.Status.{SkippedTransaction, ReplicationErrorEntry, ReplicationErrorStatus}
use mysql_keeper.Controller.ReplicationErrors.History.{count_skips_in_window}
use mysql_keeper.Controller.ReplicationErrors.Skip.{historical_skips, is_currently_quarantined}

-- The fields of the outcome that evaluateQuarantine sets; "" is an annotation that was not refused.
pub record Quarantine : Type 0 where
  pub active : Bool
  pub reason : Message
  pub refused_clear_annotation : String
  pub refused_clear_reason : Message

abbrev pub no_quarantine : Quarantine
no_quarantine = record {
  active = false;
  reason = [];
  refused_clear_annotation = "";
  refused_clear_reason = [];
}

abbrev pub last_clear : Option ReplicationErrorStatus → String
last_clear none = ""
last_clear (some s) = s.last_clear_annotation_value

unfoldable pub operator_requested_clear : ClusterSwitchPolicy → Bool
operator_requested_clear policy =
    let val = policy.metadata.clear_quarantine in
    if str_eq val "" then false else not (str_eq val (last_clear policy.status.replication_errors))

-- `int32(count)` for the window of the quarantine.
abbrev pub quarantine_count :
    ClusterSwitchPolicy → AutoSkipConfig → List SkippedTransaction → Time → ℤ
quarantine_count policy cfg skipped now =
    wrap32 (pos (count_skips_in_window (historical_skips policy) skipped cfg.quarantine_window now))

unfoldable pub safe_to_clear_quarantine :
    ClusterSwitchPolicy
    → AutoSkipConfig
    → Option ReplicationErrorEntry
    → List SkippedTransaction
    → Time
    → Bool
safe_to_clear_quarantine policy cfg active_error skipped now =
    if is_some active_error
    then false
    else leb_ℤ (quarantine_count policy cfg skipped now) cfg.max_skip_before_quarantine

why_clear_refused :
    ClusterSwitchPolicy
    → AutoSkipConfig
    → Option ReplicationErrorEntry
    → List SkippedTransaction
    → Time
    → Message
why_clear_refused policy cfg (some e) skipped now =
    text "active SQL applier error errno="
    ∷ number e.errno
    ∷ text " present at start of this reconcile cycle on channel "
    ∷ quoted e.channel
    ∷ text " — retry after next reconcile if skip resolved it"
    ∷ []
why_clear_refused policy cfg none skipped now =
    text "skip count "
    ∷ number
        (pos (count_skips_in_window (historical_skips policy) skipped cfg.quarantine_window now))
    ∷ text " still > threshold "
    ∷ number cfg.max_skip_before_quarantine
    ∷ text " in window "
    ∷ span cfg.quarantine_window
    ∷ text " — wait for the burst to age out"
    ∷ []

-- The reason of a quarantine that goes on.
abbrev prior_reason : Option ReplicationErrorStatus → Message
prior_reason none = text "previously quarantined; awaiting operator clear" ∷ []
prior_reason (some s) =
    if is_empty s.quarantine_reason
    then text "previously quarantined; awaiting operator clear" ∷ []
    else s.quarantine_reason

module _ (policy : ClusterSwitchPolicy) (cfg : AutoSkipConfig)
    (active_error : Option ReplicationErrorEntry) (skipped : List SkippedTransaction)
    (now : Time) where
  -- A quarantine that was there: with a new request to clear it, or without.
  still_quarantined : Bool → Quarantine
  unfolding why_clear_refused
  still_quarantined false = record no_quarantine {
    active = true;
    reason = prior_reason policy.status.replication_errors;
  }
  still_quarantined true =
      if safe_to_clear_quarantine policy cfg active_error skipped now
      then no_quarantine
      else record {
        active = true;
        reason = prior_reason policy.status.replication_errors;
        refused_clear_annotation = policy.metadata.clear_quarantine;
        refused_clear_reason = why_clear_refused policy cfg active_error skipped now;
      }

  unfoldable pub evaluate_quarantine : Quarantine
  unfolding still_quarantined
  evaluate_quarantine =
      if is_currently_quarantined policy
      then still_quarantined (operator_requested_clear policy)
      else if ltb_ℤ cfg.max_skip_before_quarantine (quarantine_count policy cfg skipped now)
      then record no_quarantine {
        active = true;
        reason =
            text "skip count "
            ∷ number (
                pos (
                  count_skips_in_window (historical_skips policy) skipped cfg.quarantine_window
                    now))
            ∷ text " exceeded threshold "
            ∷ number cfg.max_skip_before_quarantine
            ∷ text " in window "
            ∷ span cfg.quarantine_window
            ∷ [];
      }
      else no_quarantine
