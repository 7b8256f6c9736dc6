-- ===== src/Controller/ReplicationErrors/Skip.antt =====
-- applyAutoSkipWith, without the evaluation of the quarantine at its end.
--
-- The skipper answers a call by all the calls before it. Of the map SkipBlocked the model keeps the
-- reasons one by one: an entry of the map is how often its reason occurs.
pub mod Window
pub mod Limits
use mysql_keeper.Prelude.{
  ℕ, String, List, [], ◌∷◌, ◌++◌, Bool, true, false, not, Option, none, some, if◌then◌else◌, map,
  is_empty, str_eq,
}
use mysql_keeper.Prelude.Int.{ℤ, pos, leb_ℤ, eqb_ℤ}
use mysql_keeper.Go.Time.{Time}
use mysql_keeper.Go.Error.{Outcome, ok, err}
use mysql_keeper.Api.{ClusterSwitchPolicy}
use mysql_keeper.Api.Spec.{AutoSkipConfig}
use mysql_keeper.Api.Status.{SkippedTransaction, ReplicationErrorEntry, ReplicationErrorStatus}
use mysql_keeper.Controller.ReplicationErrors.History.{count_skips_in_window}

pub data Blocked : Type 0 where
  disabled unsupported_inspector quarantined not_whitelisted missing_gtid : Blocked
  rate_limited dry_run : Blocked

-- A call of SkipNextTransaction: the channel and the GTID.
pub record SkipCall : Type 0 where
  pub channel : String
  pub gtid : String

abbrev pub Skipper : Type 0
Skipper = List SkipCall → SkipCall → Outcome

-- What the loop changes: the fields Skipped and SkipBlocked, and the calls made, the newest first.
pub record Skips : Type 0 where
  pub skipped : List SkippedTransaction
  pub blocked : List Blocked
  pub calls : List SkipCall

abbrev pub no_skips : Skips
no_skips = record { skipped = []; blocked = []; calls = [] }

abbrev pub skipped_of : Option ReplicationErrorStatus → List SkippedTransaction
skipped_of none = []
skipped_of (some s) = s.skipped_transactions

unfoldable pub historical_skips : ClusterSwitchPolicy → List SkippedTransaction
historical_skips policy = skipped_of policy.status.replication_errors

quarantined_by : Option ReplicationErrorStatus → Bool
quarantined_by none = false
quarantined_by (some s) = elim s.quarantined_since [ none ↦ false | some _ ↦ true ]

unfoldable pub is_currently_quarantined : ClusterSwitchPolicy → Bool
unfolding quarantined_by
is_currently_quarantined policy = quarantined_by policy.status.replication_errors

-- Membership in whitelistSet.
unfoldable pub whitelisted : List ℤ → ℤ → Bool
whitelisted [] errno = false
whitelisted (e ∷ es) errno = let rest = whitelisted es errno in if eqb_ℤ e errno then true else rest

abbrev block : Blocked → Skips → Skips
block b s = record s { blocked = b ∷ s.blocked }

module _ (skipper : Skipper) (cfg : AutoSkipConfig) (history : List SkippedTransaction)
    (now : Time) where
  abbrev entry_of : ReplicationErrorEntry → SkippedTransaction
  entry_of e = record {
    gtid = e.gtid;
    errno = e.errno;
    message = e.message;
    skipped_at = now;
    dry_run = cfg.dry_run;
  }

  abbrev called : ReplicationErrorEntry → Skips → Outcome → Skips
  called e s (err _) = record s { calls = record { channel = e.channel; gtid = e.gtid } ∷ s.calls }
  called e s (ok _) = record s {
    calls = record { channel = e.channel; gtid = e.gtid } ∷ s.calls;
    skipped = s.skipped ++ (entry_of e ∷ []);
  }

  -- One turn of the loop.
  skip_one : ReplicationErrorEntry → Skips → Skips
  skip_one e s =
      if not (whitelisted cfg.error_code_whitelist e.errno)
      then block not_whitelisted s
      else if str_eq e.gtid ""
      then block missing_gtid s
      else if leb_ℤ cfg.max_skips_per_window
          (pos (count_skips_in_window history s.skipped cfg.window now))
      then block rate_limited s
      else if cfg.dry_run
      then record (block dry_run s) { skipped = s.skipped ++ (entry_of e ∷ []) }
      else called e s (skipper s.calls (record { channel = e.channel; gtid = e.gtid }))

  unfoldable pub skip_all : List ReplicationErrorEntry → Skips → Skips
  unfolding skip_one
  skip_all [] s = s
  skip_all (e ∷ es) s = skip_all es (skip_one e s)

-- The gates before the loop, and the loop.
unfoldable pub apply_auto_skip :
    ClusterSwitchPolicy
    → Option Skipper
    → AutoSkipConfig
    → List ReplicationErrorEntry
    → Time
    → Skips
apply_auto_skip policy skipper cfg errors now =
    if not cfg.enabled
    then record no_skips { blocked = map (λ e. disabled) errors }
    else if is_empty errors
    then no_skips
    else elim skipper [
      | none ↦ record no_skips { blocked = map (λ e. unsupported_inspector) errors }
      | some call ↦
          if is_currently_quarantined policy
          then record no_skips { blocked = map (λ e. quarantined) errors }
          else skip_all call cfg (historical_skips policy) now errors no_skips
    ]
