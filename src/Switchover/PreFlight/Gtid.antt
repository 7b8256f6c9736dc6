-- ===== src/Switchover/PreFlight/Gtid.antt =====
-- gtidChecks: the rows subset (the remote has every local GTID), wait (it caught up in time) and purge (it purged
-- nothing that the local cluster never saw).
pub mod CaughtUp
pub mod Rows
pub mod Quiet
use Prim.Native.String.{len}
use mysql_keeper.Prelude.{
  String, List, [], ◌∷◌, Bool, true, false, ◌&&◌, not, if◌then◌else◌, Option, none, some, str_eq,
}
use mysql_keeper.Prelude.Int.{pos, leb_ℤ}
use mysql_keeper.Go.Time.{Duration}
use mysql_keeper.Go.Error.{text, number, span, Message, Error, printed, Outcome, Result, ok, err}
use mysql_keeper.Pxc.Gtid.{GtidSnapshot}
use mysql_keeper.Switchover.Effects.{
  Env, M, pure, ◌>>=◌, ◌>>◌, act, ask_text, ask_snapshot, local, remote, get_gtid_snapshot,
  missing_gtids, wait_for_gtid,
}
use mysql_keeper.Switchover.PreFlight.Result.{CheckResult, PreFlight, hard, pass, fail, truncate}

abbrev pub c5 : String
c5 = "C5_GTIDSubset"

abbrev pub c6 : String
c6 = "C6_GTIDCatchup"

abbrev pub c10 : String
c10 = "C10_RemotePurgedNotAhead"

-- The three rows, with the two snapshots.
pub record GtidRows : Type 0 where
  pub subset : CheckResult
  pub wait : CheckResult
  pub purge : CheckResult
  pub local_snapshot : Option GtidSnapshot
  pub remote_snapshot : Option GtidSnapshot

-- Without both inspectors there is nothing to compare.
abbrev no_inspector : Bool → GtidRows
no_inspector true = record {
  subset = pass c5 hard (text "skipped: AllowDataLossFailover=true and no local snapshot" ∷ []);
  wait = pass c6 hard (text "skipped" ∷ []);
  purge = pass c10 hard (text "skipped" ∷ []);
  local_snapshot = none;
  remote_snapshot = none;
}
no_inspector false = record {
  subset = fail c5 hard (text "no local or remote GTID inspector available" ∷ []);
  wait = fail c6 hard [];
  purge = fail c10 hard [];
  local_snapshot = none;
  remote_snapshot = none;
}

-- The subset row by the answer of MissingGTIDs.
abbrev subset_of : Result String → CheckResult
subset_of (err e) = fail c5 hard (text "compute missing GTIDs: " ∷ printed e)
subset_of (ok missing) =
    if str_eq missing ""
    then pass c5 hard (text "remote has applied every local GTID" ∷ [])
    else fail c5 hard (
        text "remote missing "
        ∷ number (pos (len missing))
        ∷ text " chars of GTID set: "
        ∷ text (truncate missing 300)
        ∷ [])

abbrev pub timeout_of : Duration → Duration
timeout_of t = if leb_ℤ t (pos 0) then pos 30000000000 else t

-- The string of `newMissing, _ := MissingGTIDs(…)`: "" when the call failed.
abbrev text_or_empty : Result String → String
text_or_empty (ok s) = s
text_or_empty (err e) = ""

abbrev snapshot_or_none : Result GtidSnapshot → Option GtidSnapshot
snapshot_or_none (ok s) = some s
snapshot_or_none (err e) = none

module _ (env : Env) (p : PreFlight) where
  subset_check : Result GtidSnapshot → Result GtidSnapshot → M CheckResult
  subset_check (err e) remote_snap = pure (
      if p.allow_data_loss_failover
      then pass c5 hard
          (text "skipped: local unreachable (AllowDataLossFailover=true): " ∷ printed e)
      else fail c5 hard (text "cannot read local snapshot: " ∷ printed e))
  subset_check (ok l) (err e) =
      pure (fail c5 hard (text "cannot read remote snapshot: " ∷ printed e))
  subset_check (ok l) (ok r) = do
    missing ← ask_text env (missing_gtids remote l.executed)
    pure (subset_of missing)

  -- After a wait that ended well the subset is computed again.
  recheck : CheckResult → GtidSnapshot → Outcome → M (CheckResult × CheckResult)
  recheck subset l (err e) = pure (subset, fail c6 hard (printed e))
  recheck subset l (ok _) = do
    again ← ask_text env (missing_gtids remote l.executed)
    pure (
        if str_eq (text_or_empty again) ""
        then (
          pass c5 hard (text "remote caught up during wait" ∷ []),
          pass c6 hard (text "caught up within " ∷ span (timeout_of p.catchup_timeout) ∷ []),
        )
        else (
          subset,
          fail c6 hard (
              text "WAIT_FOR_EXECUTED_GTID_SET returned success but subset still fails: "
              ∷ text (truncate (text_or_empty again) 300)
              ∷ []),
        ))

  -- The wait, for a subset row that failed.
  wait_for_remote :
      CheckResult → Result GtidSnapshot → Result GtidSnapshot → M (CheckResult × CheckResult)
  unfolding recheck
  wait_for_remote subset (ok l) (ok r) = do
    waited ← act env (wait_for_gtid remote l.executed (timeout_of p.catchup_timeout))
    recheck subset l waited
  wait_for_remote subset _ _ =
      pure (subset, fail c6 hard (text "skipped: snapshot read failed" ∷ []))

  wait_check :
      CheckResult → Result GtidSnapshot → Result GtidSnapshot → M (CheckResult × CheckResult)
  unfolding wait_for_remote
  wait_check subset local_snap remote_snap =
      if subset.passed
      then pure (subset, pass c6 hard (text "remote already caught up" ∷ []))
      else wait_for_remote subset local_snap remote_snap

  -- The purge row by the answer of MissingGTIDs on the local cluster.
  purged_of : Result String → CheckResult
  purged_of (err e) = fail c10 hard (text "compute subset of remote purged: " ∷ printed e)
  purged_of (ok missing) =
      if str_eq missing ""
      then pass c10 hard (text "remote purged ⊆ local executed" ∷ [])
      else fail c10 hard
          (text "remote has purged GTIDs that local never saw: " ∷ text (truncate missing 300) ∷ [])

  purge_check : Result GtidSnapshot → Result GtidSnapshot → M CheckResult
  unfolding purged_of
  purge_check (err e) remote_snap = pure (record {
    name = c10;
    severity = hard;
    passed = p.allow_data_loss_failover;
    message = text "skipped: local unreachable" ∷ [];
  })
  purge_check (ok l) (err e) =
      pure (fail c10 hard (text "cannot read remote snapshot: " ∷ printed e))
  purge_check (ok l) (ok r) =
      if str_eq r.purged ""
      then pure (pass c10 hard (text "remote gtid_purged is empty" ∷ []))
      else do missing ← ask_text env (missing_gtids local r.purged); pure (purged_of missing)

  compare_snapshots : M GtidRows
  unfolding subset_check wait_check purge_check
  compare_snapshots = do
    local_snap ← ask_snapshot env (get_gtid_snapshot local)
    remote_snap ← ask_snapshot env (get_gtid_snapshot remote)
    first ← subset_check local_snap remote_snap
    rows ← wait_check first local_snap remote_snap
    purge ← purge_check local_snap remote_snap
    pure (record {
      subset = rows.0;
      wait = rows.1;
      purge = purge;
      local_snapshot = snapshot_or_none local_snap;
      remote_snapshot = snapshot_or_none remote_snap;
    })

  unfoldable pub gtid_checks : M GtidRows
  unfolding compare_snapshots
  gtid_checks =
      if not (p.local_inspector && p.remote_inspector)
      then pure (no_inspector p.allow_data_loss_failover)
      else compare_snapshots
