-- ===== src/Switchover/Servers/CaughtUp.antt =====
-- The GTID checks on two servers that keep what MySQL documents: what they show of the transactions
-- that each server has.
use mathlib.Core.Path.{subst}
use mysql_keeper.Prelude.{String, ◌≡◌, ◌≢◌, inl, inr, [], ◌∷◌, true, false, none, some, Bool-cases}
use mysql_keeper.Prelude.Int.{ℤ, pos}
use mysql_keeper.Go.Time.{Duration}
use mysql_keeper.Go.Error.{Outcome, ok}
use mysql_keeper.Pxc.Db.{Db, gtid_executed}
use mysql_keeper.Pxc.Gtid.{GtidSnapshot}
use mysql_keeper.Pxc.Inspector
use mysql_keeper.Switchover.Effects.{
  Env, Side, Event, Call, Trace, Happened, local, remote, missing_gtids, wait_for_gtid,
  get_gtid_snapshot,
}
use mysql_keeper.Switchover.PreFlight.Result.{PreFlight, is_ok}
use mysql_keeper.Switchover.PreFlight.Gtid.{gtid_checks, timeout_of}
use mysql_keeper.Switchover.PreFlight.Gtid.CaughtUp.{ShowsCaughtUp}
use mysql_keeper.Switchover.PreFlight.Checks.{
  check_remote_reachable_read_only, check_remote_replication_running, check_log_replica_updates,
  check_gtid_mode, check_binlog_format, check_binlog_retention,
}
use mysql_keeper.Switchover.PreFlight.Run.{run}
use mysql_keeper.Switchover.PreFlight.Verdict.{run-is_ok}
use mysql_keeper.Switchover.Servers.{Cluster, pxc_env, pxc_outcome, pxc_text, pxc_snapshot}
use mysql_keeper.Switchover.Servers.Answers.{
  missing_gtids-none, wait_for_gtid-ended, get_gtid_snapshot-executed,
}

-- Transactions, those that a server has executed after the calls of a trace, and those that a GTID
-- set stands for. The laws are what MySQL documents of gtid_executed, GTID_SUBTRACT and
-- WAIT_FOR_EXECUTED_GTID_SET, for servers whose executed set is not reset.
pub record GtidServers (Txn : Type 0) (Has : Side → Trace → Txn → Type 0)
    (Denotes : String → Txn → Type 0) (cluster : Side → Cluster) : Type 0 where
  pub grows : (s : Side) (e : Event) (t : Trace) (x : Txn) → Has s t x → Has s (e ∷ t) x
  pub reads :
      (s : Side) (t : Trace) (g : String) (x : Txn)
      → Db.text_variable (Cluster.db (cluster s) t) gtid_executed ≡ ok g
      → Has s t x
      → Denotes g x
  pub empty : (x : Txn) → Denotes "" x → ⊥
  pub not_null :
      (s : Side) (t : Trace) (g : String) → Db.gtid_subtract (Cluster.db (cluster s) t) g ≢ ok none
  pub subtracts :
      (s : Side) (t : Trace) (g : String) (x : Txn)
      → Db.gtid_subtract (Cluster.db (cluster s) t) g ≡ ok (some "")
      → Denotes g x
      → Has s t x
  pub waits :
      (s : Side) (t : Trace) (g : String) (n : ℤ) (budget : Duration) (o : Outcome) (x : Txn)
      → Db.wait_for_executed_gtid_set (Cluster.db (cluster s) t) g n ≡ ok (some (pos 0))
      → Denotes g x
      → Has s ((wait_for_gtid s g budget, o) ∷ t) x

module _ {Txn : Type 0} {Has : Side → Trace → Txn → Type 0} {Denotes : String → Txn → Type 0}
    (cluster : Side → Cluster) (servers : GtidServers Txn Has Denotes cluster)
    (seconds_of : Duration → ℤ) (calls : Env) (p : PreFlight) where
  abbrev env : Env
  env = pxc_env seconds_of cluster calls

  asked_text :
      (g : String) (c : Call) (t : Trace)
      → c ≡ missing_gtids remote g
      → env.answer_text t c ≡ ok ""
      → Inspector.missing_gtids (Cluster.db (cluster remote) t) (Cluster.dsn (cluster remote)) g
        ≡ ok ""
  unfolding pxc_text
  asked_text g c t asked answer = rw asked at answer

  asked_wait :
      (g : String) (budget : Duration) (c : Call) (t : Trace)
      → c ≡ wait_for_gtid remote g budget
      → env.outcome t c ≡ ok tt
      → Inspector.wait_for_gtid
          (Cluster.db (cluster remote) t)
          (Cluster.dsn (cluster remote))
          seconds_of
          g
          budget
        ≡ ok tt
  unfolding pxc_outcome
  asked_wait g budget c t asked ended = rw asked at ended

  -- The answer that shows it, on a server.
  shown :
      (l : GtidSnapshot) (c : Call) (o : Outcome) (t : Trace) (x : Txn)
      → ShowsCaughtUp env p l c o t
      → Denotes l.executed x
      → Has remote ((c, o) ∷ t) x
  shown l c o t x (inl (asked, answer)) d =
      elim (missing_gtids-none (Cluster.db (cluster remote) t) (Cluster.dsn (cluster remote))
        l.executed (asked_text l.executed c t asked answer)) [
          | inl nothing ↦ absurd (servers.empty x (subst (λ g. Denotes g x) nothing d))
          | inr (inl null) ↦ absurd (servers.not_null remote t l.executed null)
          | inr (inr none_missing) ↦
              servers.grows remote (c, o) t x
                (servers.subtracts remote t l.executed x none_missing d)
        ]
  shown l c o t x (inr (asked, ended)) d =
      elim (wait_for_gtid-ended (Cluster.db (cluster remote) t) (Cluster.dsn (cluster remote))
        seconds_of l.executed (timeout_of p.catchup_timeout)
        (asked_wait l.executed (timeout_of p.catchup_timeout) c t asked ended)) [
          | inl nothing ↦ absurd (servers.empty x (subst (λ g. Denotes g x) nothing d))
          | inr (n, reached) ↦
              rw asked
                (servers.waits remote t l.executed n (timeout_of p.catchup_timeout) o x reached d)
        ]

  happened :
      (l : GtidSnapshot) (t : Trace) (x : Txn)
      → Happened (ShowsCaughtUp env p l) t
      → Denotes l.executed x
      → Has remote t x
  happened l [] x h d = elim h [ ]
  happened l ((c, o) ∷ t) x (inl now) d = shown l c o t x now d
  happened l ((c, o) ∷ t) x (inr before) d =
      servers.grows remote (c, o) t x (happened l t x before d)

  snapshot_read :
      (l : GtidSnapshot) (t : Trace) (x : Txn)
      → env.answer_snapshot t (get_gtid_snapshot local) ≡ ok l
      → Has local t x
      → Denotes l.executed x
  unfolding pxc_snapshot
  snapshot_read l t x read has =
      servers.reads local t l.executed x
        (get_gtid_snapshot-executed (Cluster.db (cluster local) t) (Cluster.dsn (cluster local)) l
          read)
        has

  -- The checks on a snapshot only read.
  updates-grows :
      (t : Trace) (x : Txn) → Has remote t x → Has remote (check_log_replica_updates env p t).1 x
  unfolding check_log_replica_updates
  updates-grows t x h = elim (Bool-cases p.remote_inspector) [
    | inl there ↦ simp (there) (servers.grows remote _ t x h)
    | inr missing ↦ simp (missing) h
  ]

  mode-grows : (t : Trace) (x : Txn) → Has remote t x → Has remote (check_gtid_mode env p t).1 x
  unfolding check_gtid_mode
  mode-grows t x h = elim (Bool-cases p.remote_inspector) [
    | inl there ↦ simp (there) (servers.grows remote _ t x h)
    | inr missing ↦ simp (missing) h
  ]

  format-grows :
      (t : Trace) (x : Txn) → Has remote t x → Has remote (check_binlog_format env p t).1 x
  unfolding check_binlog_format
  format-grows t x h = elim (Bool-cases p.remote_inspector) [
    | inl there ↦ simp (there) (servers.grows remote _ t x h)
    | inr missing ↦ simp (missing) h
  ]

  retention-grows :
      (t : Trace) (x : Txn) → Has remote t x → Has remote (check_binlog_retention env p t).1 x
  unfolding check_binlog_retention
  retention-grows t x h = elim (Bool-cases p.remote_inspector) [
    | inl there ↦ simp (there) (servers.grows remote _ t x h)
    | inr missing ↦ simp (missing) h
  ]

  -- For a switchover that is given SQL managers on both sides: if data loss is not allowed and a
  -- run of the checks is OK, then every transaction that the local server had executed when its
  -- snapshot was read has been executed by the remote server when the run ends. The servers are
  -- taken to keep what MySQL documents: a set of executed transactions only grows; gtid_executed,
  -- read, stands for at least those executed; the empty set for none; GTID_SUBTRACT is not NULL,
  -- and empty only if every transaction of the set has been executed; and a wait that returns 0
  -- ends with all of them executed.
  pub run-has_all :
      (t : Trace)
      → p.allow_data_loss_failover ≡ false
      → is_ok (run env p t).0 ≡ true
      → (let t1 = (check_remote_reachable_read_only env p t).1 in
          let t2 = (check_remote_replication_running env p t1).1 in
          (x : Txn) → Has local t2 x → Has remote (run env p t).1 x)
  unfolding run
  run-has_all t strict h x has =
      let (_, _, (l, _, read, shows)) = run-is_ok env p t strict h in
      let t1 = (check_remote_reachable_read_only env p t).1 in
      let t2 = (check_remote_replication_running env p t1).1 in
      let t3 = (gtid_checks env p t2).1 in
      let t4 = (check_log_replica_updates env p t3).1 in
      let t5 = (check_gtid_mode env p t4).1 in
      let t6 = (check_binlog_format env p t5).1 in
      retention-grows t6 x (
        format-grows t5 x (
          mode-grows t4 x
            (updates-grows t3 x (happened l t3 x shows (snapshot_read l t2 x read has)))))
