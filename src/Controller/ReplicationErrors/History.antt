-- ===== src/Controller/ReplicationErrors/History.antt =====
-- The settings with their defaults, and the history of skips: counting, pruning and capping it.
use mysql_keeper.Prelude.{
  ℕ, ◌+◌, ◌-◌, List, [], ◌∷◌, ◌++◌, Bool, false, not, ◌&&◌, Option, none, some, if◌then◌else◌, leb,
  length, drop, keep, is_empty,
}
use mysql_keeper.Prelude.Int.{ℤ, pos, leb_ℤ}
use mysql_keeper.Go.Time.{Time, Duration, add, negate, before}
use mysql_keeper.Api.{ClusterSwitchPolicy}
use mysql_keeper.Api.Spec.{AutoSkipConfig, ReplicationErrorHandlingConfig}
use mysql_keeper.Api.Status.{SkippedTransaction}

-- `ReplicationErrorHandlingConfig{}`
abbrev pub no_handling : ReplicationErrorHandlingConfig
no_handling = record {
  gtid_gap_alert_threshold = pos 0;
  auto_skip = record {
    enabled = false;
    dry_run = false;
    error_code_whitelist = [];
    max_skips_per_window = pos 0;
    window = pos 0;
    max_skip_before_quarantine = pos 0;
    quarantine_window = pos 0;
    history_retention = pos 0;
  };
}

-- A value that is not positive gives way to its default.
abbrev pub or_default : ℤ → ℤ → ℤ
or_default n d = if leb_ℤ n (pos 0) then d else n

abbrev pub with_defaults : AutoSkipConfig → AutoSkipConfig
with_defaults a = record {
  enabled = a.enabled;
  dry_run = a.dry_run;
  error_code_whitelist =
      if a.enabled && is_empty a.error_code_whitelist
      then pos 1062 ∷ pos 1032 ∷ []
      else a.error_code_whitelist;
  max_skips_per_window = or_default a.max_skips_per_window (pos 3);
  window = or_default a.window (pos 600000000000);
  max_skip_before_quarantine = or_default a.max_skip_before_quarantine (pos 5);
  quarantine_window = or_default a.quarantine_window (pos 3600000000000);
  history_retention = or_default a.history_retention (pos 604800000000000);
}

handling_of : Option ReplicationErrorHandlingConfig → ReplicationErrorHandlingConfig
handling_of none = no_handling
handling_of (some c) = c

unfoldable pub effective_replication_error_handling :
    ClusterSwitchPolicy → ReplicationErrorHandlingConfig
unfolding handling_of
effective_replication_error_handling policy =
    let out = handling_of policy.spec.replication_error_handling in
    record out { auto_skip = with_defaults out.auto_skip }

-- Not before the cutoff of a window that ends now.
abbrev pub in_window : Duration → Time → SkippedTransaction → Bool
in_window window now e = not (before e.skipped_at (add now (negate window)))

unfoldable pub count_skips_in_window :
    List SkippedTransaction → List SkippedTransaction → Duration → Time → ℕ
count_skips_in_window history pending window now =
    if leb_ℤ window (pos 0)
    then 0
    else length (keep (in_window window now) history) + length (keep (in_window window now) pending)

unfoldable pub prune_skips_by_retention :
    List SkippedTransaction → Duration → Time → List SkippedTransaction
prune_skips_by_retention history retention now =
    if leb_ℤ retention (pos 0) then history else keep (in_window retention now) history

unfoldable pub append_skips_capped :
    List SkippedTransaction → List SkippedTransaction → ℕ → List SkippedTransaction
append_skips_capped history entries cap_n =
    let combined = history ++ entries in
    if leb (length combined) cap_n then combined else drop (length combined - cap_n) combined
