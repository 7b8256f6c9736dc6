-- ===== src/Health/Laws.antt =====
-- When a cluster counts as healthy, and what a snapshot says of its writability.
use mysql_keeper.Prelude.{
  String, ◌≡◌, ◌↔◌, refl, List, Option, none, some, Bool, true, false, arith, eq_iff,
}
use mysql_keeper.Prelude.Int.{ℤ, pos, ◌≤ℤ◌}
use mysql_keeper.Go.Time.{Time}
use mysql_keeper.Go.Error.{Result, ok, err}
use mysql_keeper.Health.{
  writable_no, writable_yes, PxcAnswers, ProxyAnswers, check_mysql, check, pxc_result,
}
use mysql_keeper.Health.Answered.{
  IsMysqlReady, AnswersWritable, AnswersReadOnly, IsProxyReady, IsReadyResult, IsWritableResult,
  ready_iff, writable_iff, read_only_iff, proxies_iff,
}

-- The PXC resource, where there is a client for it, is ready with a quorum.
abbrev pub IsCrdReady : Option (Result (String × ℤ)) → Type 0
IsCrdReady none = Unit
IsCrdReady (some (ok (state, ready))) = (state ≡ "ready") × (pos 2 ≤ℤ ready)
IsCrdReady (some (err e)) = ⊥

pxc_result-healthy :
    (now : Time) (crd : Option (Result (String × ℤ))) (mysql : Result (ℤ × String × Bool))
    → ((pxc_result now crd mysql).healthy ≡ true) ↔ (IsCrdReady crd × IsReadyResult mysql)
unfolding pxc_result
pxc_result-healthy now none (err e) = ground arith
pxc_result-healthy now none (ok (size, status, w)) = ground (arith, eq_iff status "Primary")
pxc_result-healthy now (some (err e)) mysql = ground arith
pxc_result-healthy now (some (ok (state, ready))) (err e) = ground (arith, eq_iff state "ready")
pxc_result-healthy now (some (ok (state, ready))) (ok (size, status, w)) =
    ground (arith, eq_iff state "ready", eq_iff status "Primary")

-- What the snapshot says of writability is the answer of MySQL, where it was asked at all.
pxc_result-writable :
    (now : Time) (crd : Option (Result (String × ℤ))) (mysql : Result (ℤ × String × Bool))
    → let h = pxc_result now crd mysql in
      ((h.writable ≡ writable_yes) ↔ (IsCrdReady crd × IsWritableResult true mysql))
      × ((h.writable ≡ writable_no) ↔ (IsCrdReady crd × IsWritableResult false mysql))
      × ((h.is_writable ≡ true) ↔ (h.writable ≡ writable_yes))
unfolding pxc_result
pxc_result-writable now none (err e) = ground arith
pxc_result-writable now none (ok (size, status, w)) = ground (arith, eq_iff status "Primary")
pxc_result-writable now (some (err e)) mysql = ground arith
pxc_result-writable now (some (ok (state, ready))) (err e) = ground (arith, eq_iff state "ready")
pxc_result-writable now (some (ok (state, ready))) (ok (size, status, w)) =
    ground (arith, eq_iff state "ready", eq_iff status "Primary")

check-ready :
    (now : Time) (a : PxcAnswers) (p : Option (List ProxyAnswers × ℤ))
    → ((check now a p).healthy ≡ true)
      ↔ (((pxc_result now a.crd (check_mysql a.mysql)).healthy ≡ true) × IsProxyReady p)
unfolding check
check-ready now a none = ground arith
check-ready now a (some (proxies, min_proxysql)) = ground (arith, proxies_iff proxies min_proxysql)

-- ProxySQL has no say in the writability.
check-fields :
    (now : Time) (a : PxcAnswers) (p : Option (List ProxyAnswers × ℤ))
    → let h = pxc_result now a.crd (check_mysql a.mysql) in
      ((check now a p).writable ≡ h.writable) × ((check now a p).is_writable ≡ h.is_writable)
unfolding check
check-fields now a none = (refl, refl)
check-fields now a (some (proxies, min_proxysql)) = ground arith

module _ (now : Time) (a : PxcAnswers) (p : Option (List ProxyAnswers × ℤ)) where
  -- A cluster counts as healthy exactly when the PXC resource, if there is a client for it, is
  -- ready with at least two nodes, MySQL answers as a member of a primary component of at least two
  -- nodes, and, for a local cluster, at least the required number of ProxySQL endpoints answer,
  -- counted as an int32.
  pub check-healthy_iff :
      ((check now a p).healthy ≡ true) ↔ (IsCrdReady a.crd × IsMysqlReady a.mysql × IsProxyReady p)
  check-healthy_iff =
      let (whole, parts) = check-ready now a p in
      let (shown, shows) = pxc_result-healthy now a.crd (check_mysql a.mysql) in
      let (there, here) = ready_iff a.mysql in
      (
        λ h. let (c, m) = shown (whole h).0 in (c, there m, (whole h).1),
        λ h. parts (shows (h.0, here h.1), h.2),
      )

  -- A snapshot says that a cluster is writable, or that it is read-only, exactly when the PXC
  -- resource, if there is a client for it, is ready with at least two nodes, MySQL answers every
  -- query, and @@read_only is 0, or is not 0; in every other case it says unknown, and the field
  -- IsWritable agrees with it.
  pub check-writable :
      let h = check now a p in
      ((h.writable ≡ writable_yes) ↔ (IsCrdReady a.crd × AnswersWritable a.mysql))
      × ((h.writable ≡ writable_no) ↔ (IsCrdReady a.crd × AnswersReadOnly a.mysql))
      × ((h.is_writable ≡ true) ↔ (h.writable ≡ writable_yes))
  check-writable =
      let ((on, on_back), (off, off_back), field) =
        pxc_result-writable now a.crd (check_mysql a.mysql) in
      let (on_there, on_here) = writable_iff a.mysql in
      let (off_there, off_here) = read_only_iff a.mysql in
      let (same, same_field) = check-fields now a p in
      rw (same, same_field)
        (
          (λ h. ((on h).0, on_there (on h).1), λ h. on_back (h.0, on_here h.1)),
          (λ h. ((off h).0, off_there (off h).1), λ h. off_back (h.0, off_here h.1)),
          field,
        )
