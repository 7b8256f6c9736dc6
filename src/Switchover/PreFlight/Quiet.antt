-- ===== src/Switchover/PreFlight/Quiet.antt =====
-- The checks only read: no run of them changes a cluster, its replication or its routing.
use mysql_keeper.Prelude.{◌≡◌, refl, ◌∙◌, ◌||◌, not, Bool-cases, str_eq, inl, inr}
use mysql_keeper.Switchover.Effects.{
  Env, Trace, remote, is_writable, get_replication_status, get_gtid_snapshot,
}
use mysql_keeper.Switchover.PreFlight.Result.{PreFlight}
use mysql_keeper.Switchover.PreFlight.Gtid.{gtid_checks}
use mysql_keeper.Switchover.PreFlight.Gtid.Quiet.{IsKept, gtid_checks-quiet}
use mysql_keeper.Switchover.PreFlight.Checks.{
  check_remote_reachable_read_only, check_remote_replication_running, check_log_replica_updates,
  check_gtid_mode, check_binlog_format, check_binlog_retention,
}
use mysql_keeper.Switchover.PreFlight.Run.{run}

module _ {B : Type 0} (view : Trace → B) (kept : IsKept view) (env : Env) (p : PreFlight) where
  c1-quiet : (t : Trace) → view (check_remote_reachable_read_only env p t).1 ≡ view t
  unfolding check_remote_reachable_read_only
  c1-quiet t = elim (Bool-cases p.remote_pxc) [
    | inl there ↦ simp (there) (kept (is_writable remote) _ t refl)
    | inr missing ↦ simp (missing) refl
  ]

  c3-quiet : (t : Trace) → view (check_remote_replication_running env p t).1 ≡ view t
  unfolding check_remote_replication_running
  c3-quiet t = elim (Bool-cases (not p.remote_inspector || str_eq p.channel "")) [
    | inl skipped ↦ simp (skipped) refl
    | inr asked ↦ simp (asked) (kept (get_replication_status remote p.channel) _ t refl)
  ]

  c7-quiet : (t : Trace) → view (check_log_replica_updates env p t).1 ≡ view t
  unfolding check_log_replica_updates
  c7-quiet t = elim (Bool-cases p.remote_inspector) [
    | inl there ↦ simp (there) (kept (get_gtid_snapshot remote) _ t refl)
    | inr missing ↦ simp (missing) refl
  ]

  c9-quiet : (t : Trace) → view (check_gtid_mode env p t).1 ≡ view t
  unfolding check_gtid_mode
  c9-quiet t = elim (Bool-cases p.remote_inspector) [
    | inl there ↦ simp (there) (kept (get_gtid_snapshot remote) _ t refl)
    | inr missing ↦ simp (missing) refl
  ]

  c8-quiet : (t : Trace) → view (check_binlog_format env p t).1 ≡ view t
  unfolding check_binlog_format
  c8-quiet t = elim (Bool-cases p.remote_inspector) [
    | inl there ↦ simp (there) (kept (get_gtid_snapshot remote) _ t refl)
    | inr missing ↦ simp (missing) refl
  ]

  c11-quiet : (t : Trace) → view (check_binlog_retention env p t).1 ≡ view t
  unfolding check_binlog_retention
  c11-quiet t = elim (Bool-cases p.remote_inspector) [
    | inl there ↦ simp (there) (kept (get_gtid_snapshot remote) _ t refl)
    | inr missing ↦ simp (missing) refl
  ]

  pub run-quiet : (t : Trace) → view (run env p t).1 ≡ view t
  unfolding run
  run-quiet t =
      let t1 = (check_remote_reachable_read_only env p t).1 in
      let t2 = (check_remote_replication_running env p t1).1 in
      let t3 = (gtid_checks env p t2).1 in
      let t4 = (check_log_replica_updates env p t3).1 in
      let t5 = (check_gtid_mode env p t4).1 in
      let t6 = (check_binlog_format env p t5).1 in
      c11-quiet t6
      ∙ c8-quiet t5
      ∙ c9-quiet t4
      ∙ c7-quiet t3
      ∙ gtid_checks-quiet view kept env p t2
      ∙ c3-quiet t1
      ∙ c1-quiet t
