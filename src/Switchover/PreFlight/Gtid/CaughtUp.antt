-- ===== src/Switchover/PreFlight/Gtid/CaughtUp.antt =====
-- What the GTID rows establish, and their names.
use mysql_keeper.Prelude.{
  String, ◌≡◌, ◌⊎◌, inl, inr, refl, ◌∷◌, true, false, arith, eq_iff, Bool-cases, str_eq, ap, some,
  ◌&&◌,
}
use mysql_keeper.Go.Error.{Error, Outcome, Result, ok, err}
use mysql_keeper.Pxc.Gtid.{GtidSnapshot}
use mysql_keeper.Switchover.Effects.{
  Env, Call, Trace, Happened, local, remote, ending, get_gtid_snapshot, missing_gtids,
  wait_for_gtid,
}
use mysql_keeper.Switchover.PreFlight.Result.{CheckResult, PreFlight}
use mysql_keeper.Switchover.PreFlight.Gtid.{
  GtidRows, gtid_checks, compare_snapshots, subset_of, snapshot_or_none, subset_check, wait_check,
  wait_for_remote, recheck, purge_check, timeout_of,
}

-- The answers that show that the remote cluster has every GTID of the snapshot `l`: nothing of it
-- is missing there, or the wait for it ended in time.
abbrev pub ShowsCaughtUp : Env → PreFlight → GtidSnapshot → Call → Outcome → Trace → Type 0
ShowsCaughtUp env p l c o t =
    ((c ≡ missing_gtids remote l.executed) × (env.answer_text t c ≡ ok ""))
    ⊎ ((c ≡ wait_for_gtid remote l.executed (timeout_of p.catchup_timeout))
        × (env.outcome t c ≡ ok tt))

empty_answer : (answer : Result String) → (subset_of answer).passed ≡ true → answer ≡ ok ""
empty_answer (err e) k = cc
empty_answer (ok s) k = ground (arith, eq_iff s "")

module _ (env : Env) (p : PreFlight) (l : GtidSnapshot) where
  subset_check-caught :
      (r : Result GtidSnapshot) (t : Trace)
      → (subset_check env p (ok l) r t).0.passed ≡ true
      → Happened (ShowsCaughtUp env p l) (subset_check env p (ok l) r t).1
  unfolding subset_check
  subset_check-caught (err e) t h = cc
  subset_check-caught (ok r) t h =
      inl (inl (refl, empty_answer (env.answer_text t (missing_gtids remote l.executed)) h))

  abbrev wait_call : Call
  wait_call = wait_for_gtid remote l.executed (timeout_of p.catchup_timeout)

  -- A row that passes after the wait passes by the wait.
  recheck-caught :
      (c : CheckResult) (o : Outcome) (t : Trace)
      → env.outcome t wait_call ≡ o
      → c.passed ≡ false
      → (recheck env p c l o ((wait_call, o) ∷ t)).0.0.passed ≡ true
      → Happened (ShowsCaughtUp env p l) (recheck env p c l o ((wait_call, o) ∷ t)).1
  unfolding recheck
  recheck-caught c (err e) t same bad h = cc
  recheck-caught c (ok tt) t same bad h = inr (inl (inr (refl, same)))

  wait_for_remote-caught :
      (c : CheckResult) (r : Result GtidSnapshot) (t : Trace)
      → c.passed ≡ false
      → (wait_for_remote env p c (ok l) r t).0.0.passed ≡ true
      → Happened (ShowsCaughtUp env p l) (wait_for_remote env p c (ok l) r t).1
  unfolding wait_for_remote
  wait_for_remote-caught c (err e) t bad h = cc
  wait_for_remote-caught c (ok x) t bad h = recheck-caught c (env.outcome t wait_call) t refl bad h

  wait_check-caught :
      (c : CheckResult) (r : Result GtidSnapshot) (t : Trace)
      → (c.passed ≡ true → Happened (ShowsCaughtUp env p l) t)
      → (wait_check env p c (ok l) r t).0.0.passed ≡ true
      → Happened (ShowsCaughtUp env p l) (wait_check env p c (ok l) r t).1
  unfolding wait_check
  wait_check-caught c r t before h = elim (Bool-cases c.passed) [
    | inl good ↦ simp (good) (before good)
    | inr bad ↦ simp (bad) (wait_for_remote-caught c r t bad (simp (bad) at h))
  ]

  purge_check-caught :
      (r : Result GtidSnapshot) (t : Trace)
      → Happened (ShowsCaughtUp env p l) t
      → Happened (ShowsCaughtUp env p l) (purge_check env p (ok l) r t).1
  unfolding purge_check
  purge_check-caught (err e) t h = h
  purge_check-caught (ok r) t h = elim (Bool-cases (str_eq r.purged "")) [
    | inl empty ↦ rw empty h
    | inr more ↦ rw more (inr h)
  ]

module _ (env : Env) (p : PreFlight) where
  -- Without a local snapshot the row fails, unless data loss is allowed.
  unread_local-fails :
      (e : Error) (r : Result GtidSnapshot) (t : Trace)
      → p.allow_data_loss_failover ≡ false
      → (let first = subset_check env p (err e) r t in
          (wait_check env p first.0 (err e) r first.1).0.0.passed)
        ≡ false
  unfolding subset_check wait_check wait_for_remote
  unread_local-fails e r t strict = simp (strict) refl

  rows-caught :
      (ls rs : Result GtidSnapshot) (t : Trace)
      → p.allow_data_loss_failover ≡ false
      → (let first = subset_check env p ls rs t in
          (wait_check env p first.0 ls rs first.1).0.0.passed)
        ≡ true
      → (l : GtidSnapshot) × (ls ≡ ok l)
        × Happened (ShowsCaughtUp env p l) (
            let first = subset_check env p ls rs t in
            let rows = wait_check env p first.0 ls rs first.1 in (purge_check env p ls rs rows.1).1)
  rows-caught (err e) rs t strict h = cc (unread_local-fails e rs t strict)
  rows-caught (ok l) rs t strict h = (
    l,
    refl,
    let first = subset_check env p (ok l) rs t in
        purge_check-caught env p l rs (wait_check env p first.0 (ok l) rs first.1).1
          (wait_check-caught env p l first.0 rs first.1 (subset_check-caught env p l rs t) h),
  )

  -- What the rows establish, for a run of the checks.
  abbrev pub CaughtUp : GtidRows × Trace → Trace → Type 0
  CaughtUp (rows, t') t =
      (l : GtidSnapshot) × (rows.local_snapshot ≡ some l)
      × (env.answer_snapshot t (get_gtid_snapshot local) ≡ ok l)
      × Happened (ShowsCaughtUp env p l) t'

  compare_snapshots-caught :
      (t : Trace)
      → p.allow_data_loss_failover ≡ false
      → (compare_snapshots env p t).0.subset.passed ≡ true
      → CaughtUp (compare_snapshots env p t) t
  unfolding compare_snapshots
  compare_snapshots-caught t strict h =
      let t1 =
        (get_gtid_snapshot local, ending (env.answer_snapshot t (get_gtid_snapshot local))) ∷ t in
      let rs = env.answer_snapshot t1 (get_gtid_snapshot remote) in
      let (l, read, shown) =
        rows-caught (env.answer_snapshot t (get_gtid_snapshot local)) rs
          ((get_gtid_snapshot remote, ending rs) ∷ t1) strict h in
      (l, ap snapshot_or_none read, read, shown)

  pub gtid_checks-caught :
      (t : Trace)
      → p.allow_data_loss_failover ≡ false
      → (gtid_checks env p t).0.subset.passed ≡ true
      → CaughtUp (gtid_checks env p t) t
  unfolding gtid_checks
  gtid_checks-caught t strict h = elim (Bool-cases (p.local_inspector && p.remote_inspector)) [
    | inl both ↦ simp (both) (compare_snapshots-caught t strict (simp (both) at h))
    | inr alone ↦ cc (alone, strict)
  ]
