-- ===== src/Switchover/PreFlight/Verdict.antt =====
-- What preflight.go's checks report, and what a run of them that is OK says of the two clusters.
use mysql_keeper.Prelude.{
  ◌≡◌, ◌↔◌, refl, List, [], ◌∷◌, true, false, map, arith, Bool-cases, inl, inr,
}
use mysql_keeper.Go.Error.{ok}
use mysql_keeper.Switchover.Effects.{Env, Trace, remote, is_writable}
use mysql_keeper.Switchover.PreFlight.Result.{CheckResult, PreFlight, hard, is_ok, all_hard_passed}
use mysql_keeper.Switchover.PreFlight.Gtid.{c5, c6, c10, gtid_checks}
use mysql_keeper.Switchover.PreFlight.Gtid.CaughtUp.{CaughtUp, gtid_checks-caught}
use mysql_keeper.Switchover.PreFlight.Gtid.Rows.{gtid_checks-AreGtidRows}
use mysql_keeper.Switchover.PreFlight.Checks.{
  c1, c3, c7, c8, c9, c11, c12, check_remote_reachable_read_only, check_remote_replication_running,
  check_log_replica_updates, check_gtid_mode, check_binlog_format, check_binlog_retention,
  check_replica_not_quarantined,
}
use mysql_keeper.Switchover.PreFlight.Run.{run}

-- The head of a list that is OK has passed, if it is hard, and the rest is OK.
ok_head :
    (c : CheckResult) (cs : List CheckResult)
    → c.severity ≡ hard
    → all_hard_passed (c ∷ cs) ≡ true
    → c.passed ≡ true
unfolding all_hard_passed
ok_head c cs h k = elim (Bool-cases c.passed) [ inl good ↦ good | inr bad ↦ cc (bad, h) ]

ok_tail :
    (c : CheckResult) (cs : List CheckResult)
    → all_hard_passed (c ∷ cs) ≡ true
    → all_hard_passed cs ≡ true
unfolding all_hard_passed
ok_tail c cs k = ground arith

-- The first, the third and the last of ten rows that are OK.
ten_ok :
    (a b c d e f g h i j : CheckResult)
    → all_hard_passed (a ∷ b ∷ c ∷ d ∷ e ∷ f ∷ g ∷ h ∷ i ∷ j ∷ []) ≡ true
    → (a.severity ≡ hard → a.passed ≡ true)
      × (c.severity ≡ hard → c.passed ≡ true)
      × (all_hard_passed (j ∷ []) ≡ true)
ten_ok a b c d e f g h i j k =
    let from_j = j ∷ [] in
    let from_g = g ∷ h ∷ i ∷ from_j in
    let from_d = d ∷ e ∷ f ∷ from_g in
    let k1 = ok_tail a (b ∷ c ∷ from_d) k in
    let k2 = ok_tail b (c ∷ from_d) k1 in
    let k5 = ok_tail e (f ∷ from_g) (ok_tail d (e ∷ f ∷ from_g) (ok_tail c from_d k2)) in
    let k7 = ok_tail g (h ∷ i ∷ from_j) (ok_tail f from_g k5) in
    (
      λ hd. ok_head a (b ∷ c ∷ from_d) hd k,
      λ hd. ok_head c from_d hd k2,
      ok_tail i from_j (ok_tail h (i ∷ from_j) k7),
    )

module _ (env : Env) (p : PreFlight) (t : Trace) where
  name-c1 : (check_remote_reachable_read_only env p t).0.name ≡ c1
  unfolding check_remote_reachable_read_only
  name-c1 = ground arith

  name-c3 : (check_remote_replication_running env p t).0.name ≡ c3
  unfolding check_remote_replication_running
  name-c3 = ground arith

  name-c7 : (check_log_replica_updates env p t).0.name ≡ c7
  unfolding check_log_replica_updates
  name-c7 = ground arith

  name-c9 : (check_gtid_mode env p t).0.name ≡ c9
  unfolding check_gtid_mode
  name-c9 = ground arith

  name-c8 : (check_binlog_format env p t).0.name ≡ c8
  unfolding check_binlog_format
  name-c8 = ground arith

  name-c11 : (check_binlog_retention env p t).0.name ≡ c11
  unfolding check_binlog_retention
  name-c11 = ground arith

  hard-c1 : (check_remote_reachable_read_only env p t).0.severity ≡ hard
  unfolding check_remote_reachable_read_only
  hard-c1 = ground arith

  c1-passed :
      ((check_remote_reachable_read_only env p t).0.passed ≡ true)
      ↔ ((p.remote_pxc ≡ true) × (env.answer_bool t (is_writable remote) ≡ ok false))
  unfolding check_remote_reachable_read_only
  c1-passed = ground arith

  soft-c11 : all_hard_passed ((check_binlog_retention env p t).0 ∷ []) ≡ true
  unfolding check_binlog_retention all_hard_passed
  soft-c11 = ground arith

name-c12 : (env : Env) (p : PreFlight) → (check_replica_not_quarantined env p).name ≡ c12
unfolding check_replica_not_quarantined
name-c12 env p = ground arith

quarantine-blocks :
    (env : Env) (p : PreFlight)
    → all_hard_passed (check_replica_not_quarantined env p ∷ []) ≡ true
    → p.local_replica_quarantined ≡ false
unfolding check_replica_not_quarantined all_hard_passed
quarantine-blocks env p h = ground arith

-- Whatever the clusters answer, a run of the checks reports the same ten rows in the same order:
-- the remote cluster's read-only flag, its replication, the GTID subset, the wait for it, the
-- purged GTIDs, log_replica_updates, gtid_mode, binlog_format, the binlog retention, and the
-- quarantine.
pub run-names :
    (env : Env) (p : PreFlight) (t : Trace)
    → map (λ c. c.name) (run env p t).0.checks
      ≡ c1 ∷ c3 ∷ c5 ∷ c6 ∷ c10 ∷ c7 ∷ c9 ∷ c8 ∷ c11 ∷ c12 ∷ []
unfolding run
run-names env p t =
    let t1 = (check_remote_reachable_read_only env p t).1 in
    let t2 = (check_remote_replication_running env p t1).1 in
    let t3 = (gtid_checks env p t2).1 in
    let t4 = (check_log_replica_updates env p t3).1 in
    let t5 = (check_gtid_mode env p t4).1 in
    let t6 = (check_binlog_format env p t5).1 in
    let ((subset, wait), purge) = gtid_checks-AreGtidRows env p t2 in
    simp
      (
        name-c1 env p t,
        name-c3 env p t1,
        subset.0,
        wait.0,
        purge.0,
        name-c7 env p t3,
        name-c9 env p t4,
        name-c8 env p t5,
        name-c11 env p t6,
        name-c12 env p,
      )
      refl

-- Where data loss is not allowed, a run of the checks that is OK shows that the local replica is
-- not quarantined, that the remote cluster answered that it is read-only, and that a snapshot of
-- the local cluster was read of which the remote cluster then had every GTID: nothing of it was
-- missing there, or the wait for it ended in time.
pub run-is_ok :
    (env : Env) (p : PreFlight) (t : Trace)
    → p.allow_data_loss_failover ≡ false
    → is_ok (run env p t).0 ≡ true
    → (let t1 = (check_remote_reachable_read_only env p t).1 in
        let t2 = (check_remote_replication_running env p t1).1 in
        (p.local_replica_quarantined ≡ false)
        × (env.answer_bool t (is_writable remote) ≡ ok false)
        × CaughtUp env p (gtid_checks env p t2) t2)
unfolding run is_ok
run-is_ok env p t strict h =
    let t1 = (check_remote_reachable_read_only env p t).1 in
    let t2 = (check_remote_replication_running env p t1).1 in
    let (rows, t3) = gtid_checks env p t2 in
    let t4 = (check_log_replica_updates env p t3).1 in
    let t5 = (check_gtid_mode env p t4).1 in
    let t6 = (check_binlog_format env p t5).1 in
    let (first, third, last) =
      ten_ok (check_remote_reachable_read_only env p t).0
        (check_remote_replication_running env p t1).0 rows.subset rows.wait rows.purge
        (check_log_replica_updates env p t3).0 (check_gtid_mode env p t4).0
        (check_binlog_format env p t5).0 (check_binlog_retention env p t6).0
        (check_replica_not_quarantined env p) h in
    (
      quarantine-blocks env p last,
      ((c1-passed env p t).0 (first (hard-c1 env p t))).1,
      gtid_checks-caught env p t2 strict (third (gtid_checks-AreGtidRows env p t2).0.0.1),
    )
