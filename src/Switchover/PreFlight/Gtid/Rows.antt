-- ===== src/Switchover/PreFlight/Gtid/Rows.antt =====
-- The three GTID rows are there whatever is found, in their order, and all three are hard.
use mysql_keeper.Prelude.{
  String, ◌≡◌, refl, Bool, true, false, ◌&&◌, arith, Bool-cases, str_eq, inl, inr,
}
use mysql_keeper.Go.Error.{Outcome, Result, ok, err}
use mysql_keeper.Pxc.Gtid.{GtidSnapshot}
use mysql_keeper.Switchover.Effects.{
  Env, Trace, act, wait_for_gtid, ask_snapshot, local, remote, get_gtid_snapshot, missing_gtids,
}
use mysql_keeper.Switchover.PreFlight.Result.{CheckResult, PreFlight, hard}
use mysql_keeper.Switchover.PreFlight.Gtid.{
  c5, c6, c10, GtidRows, subset_of, text_or_empty, gtid_checks, compare_snapshots, subset_check,
  wait_check, wait_for_remote, recheck, purge_check, purged_of, no_inspector, timeout_of,
}

abbrev pub IsRow : String → CheckResult → Type 0
IsRow n c = (c.name ≡ n) × (c.severity ≡ hard)

abbrev pub AreRows : CheckResult × CheckResult → Type 0
AreRows (subset, wait) = IsRow c5 subset × IsRow c6 wait

subset_of-IsRow : (answer : Result String) → IsRow c5 (subset_of answer)
subset_of-IsRow (err e) = (refl, refl)
subset_of-IsRow (ok s) = ground arith

-- All three.
abbrev pub AreGtidRows : GtidRows → Type 0
AreGtidRows rows = AreRows (rows.subset, rows.wait) × IsRow c10 rows.purge

no_inspector-AreGtidRows : (b : Bool) → AreGtidRows (no_inspector b)
no_inspector-AreGtidRows true = (((refl, refl), (refl, refl)), (refl, refl))
no_inspector-AreGtidRows false = (((refl, refl), (refl, refl)), (refl, refl))

module _ (env : Env) (p : PreFlight) where
  subset_check-IsRow :
      (l r : Result GtidSnapshot) (t : Trace) → IsRow c5 (subset_check env p l r t).0
  unfolding subset_check
  subset_check-IsRow (err e) r t = ground arith
  subset_check-IsRow (ok l) (err e) t = (refl, refl)
  subset_check-IsRow (ok l) (ok r) t =
      subset_of-IsRow (env.answer_text t (missing_gtids remote l.executed))

  recheck-AreRows :
      (c : CheckResult) (l : GtidSnapshot) (o : Outcome) (t : Trace)
      → IsRow c5 c
      → AreRows (recheck env p c l o t).0
  unfolding recheck
  recheck-AreRows c l (err e) t row = (row, (refl, refl))
  recheck-AreRows c l (ok x) t row =
      elim (Bool-cases
        (str_eq (text_or_empty (env.answer_text t (missing_gtids remote l.executed))) "")) [
          | inl empty ↦ simp (empty) ((refl, refl), (refl, refl))
          | inr more ↦ simp (more) (row, (refl, refl))
        ]

  wait_for_remote-AreRows :
      (c : CheckResult) (l r : Result GtidSnapshot) (t : Trace)
      → IsRow c5 c
      → AreRows (wait_for_remote env p c l r t).0
  unfolding wait_for_remote
  wait_for_remote-AreRows c (err e) r t row = (row, (refl, refl))
  wait_for_remote-AreRows c (ok l) (err e) t row = (row, (refl, refl))
  wait_for_remote-AreRows c (ok l) (ok r) t row =
      let (o, t1) = act env (wait_for_gtid remote l.executed (timeout_of p.catchup_timeout)) t in
      recheck-AreRows c l o t1 row

  wait_check-AreRows :
      (c : CheckResult) (l r : Result GtidSnapshot) (t : Trace)
      → IsRow c5 c
      → AreRows (wait_check env p c l r t).0
  unfolding wait_check
  wait_check-AreRows c l r t row = elim (Bool-cases c.passed) [
    | inl good ↦ simp (good) (row, (refl, refl))
    | inr bad ↦ simp (bad) (wait_for_remote-AreRows c l r t row)
  ]

  purge_check-IsRow :
      (l r : Result GtidSnapshot) (t : Trace) → IsRow c10 (purge_check env p l r t).0
  unfolding purge_check purged_of
  purge_check-IsRow (err e) r t = (refl, refl)
  purge_check-IsRow (ok l) (err e) t = (refl, refl)
  purge_check-IsRow (ok l) (ok r) t = ground arith

  compare_snapshots-AreGtidRows : (t : Trace) → AreGtidRows (compare_snapshots env p t).0
  unfolding compare_snapshots
  compare_snapshots-AreGtidRows t =
      let l = ask_snapshot env (get_gtid_snapshot local) t in
      let r = ask_snapshot env (get_gtid_snapshot remote) l.1 in
      let first = subset_check env p l.0 r.0 r.1 in
      let rows = wait_check env p first.0 l.0 r.0 first.1 in
      (
        wait_check-AreRows first.0 l.0 r.0 first.1 (subset_check-IsRow l.0 r.0 r.1),
        purge_check-IsRow l.0 r.0 rows.1,
      )

  pub gtid_checks-AreGtidRows : (t : Trace) → AreGtidRows (gtid_checks env p t).0
  unfolding gtid_checks
  gtid_checks-AreGtidRows t = elim (Bool-cases (p.local_inspector && p.remote_inspector)) [
    | inl both ↦ simp (both) (compare_snapshots-AreGtidRows t)
    | inr alone ↦ simp (alone) (no_inspector-AreGtidRows p.allow_data_loss_failover)
  ]
