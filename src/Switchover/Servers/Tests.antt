-- ===== src/Switchover/Servers/Tests.antt =====
-- Two servers that have executed the transactions 1 to 9 of one server, and a switchover
-- of them.
use mysql_keeper.Prelude.{
  ℕ, ◌≤◌, String, ◌≡◌, ◌≢◌, refl, [], ◌∷◌, Bool, ◌||◌, true, false, Option, none, some, arith,
  str_eq, eq_iff, if◌then◌else◌,
}
use mysql_keeper.Prelude.Int.{pos}
use mysql_keeper.Go.Time.{Duration}
use mysql_keeper.Go.Error.{Outcome, Result, ok, err, no_rows, done}
use mysql_keeper.Pxc.Replication.{running}
use mysql_keeper.Pxc.Db.{
  Db, ThreadRow, Variable, gtid_executed, gtid_purged, binlog_format, open_db,
}
use mysql_keeper.Pxc.Inspector
use mysql_keeper.Pxc.Channel
use mysql_keeper.Switchover.Effects.{
  Side, Call, Event, Trace, local, remote, wait_for_gtid, set_read_only, set_read_write,
  stop_replica, reset_replica_all, apply_failover_routing,
}
use mysql_keeper.Switchover.PreFlight.Result.{is_ok}
use mysql_keeper.Switchover.PreFlight.Gtid.{gtid_checks}
use mysql_keeper.Switchover.PreFlight.Checks.{
  check_remote_reachable_read_only, check_remote_replication_running, check_log_replica_updates,
  check_gtid_mode, check_binlog_format, check_binlog_retention, check_replica_not_quarantined,
}
use mysql_keeper.Switchover.PreFlight.Run.{run}
use mysql_keeper.Switchover.Samples.{sample_config, calm}
use mysql_keeper.Switchover.Servers.{
  Cluster, pxc_env, pxc_bool, pxc_text, pxc_snapshot, pxc_status, pxc_outcome,
}
use mysql_keeper.Switchover.Servers.CaughtUp.{GtidServers}
use mysql_keeper.Switchover.Servers.NothingLost.{execute-has_all}
use mysql_keeper.Switchover.Writers.{changed}
use mysql_keeper.Switchover.Engine.{execute}
use mysql_keeper.Switchover.Engine.Phases.{
  phase_pre_flight, phase_fence, phase_promote, phase_routing, phase_reverse_replica, phase_verify,
}

abbrev nine : String
nine = "a:1-9"

abbrev text_of : Variable → Result String
text_of gtid_executed = ok nine
text_of gtid_purged = ok ""
text_of binlog_format = ok "ROW"
text_of _ = ok "ON"

abbrev thread : ThreadRow
thread = record { service_state = "ON"; last_error_number = pos 0; last_error_message = none }

abbrev is_wait : Call → Bool
is_wait (wait_for_gtid s g d) = true
is_wait _ = false

abbrev waited : Trace → Bool
waited [] = false
waited ((c, o) ∷ t) = is_wait c || waited t

-- The newest transaction: the remote server has the last one only after a wait.
abbrev newest : Side → Trace → ℕ
newest local t = 9
newest remote t = if waited t then 9 else 8

abbrev missing_on : Side → Trace → String
missing_on local t = ""
missing_on remote t = if waited t then "" else "a:9"

abbrev server : Side → Trace → Db
server s t = record {
  opened = done;
  ping = done;
  exec = λ c. done;
  text_variable = text_of;
  int_variable = λ v. ok (pos 1);
  select_one = ok (pos 1);
  gtid_subset = λ g. ok (some (pos 1));
  gtid_subtract = λ g. ok (some (if str_eq g nine then missing_on s t else g));
  wait_for_executed_gtid_set = λ g n. ok (some (pos 0));
  connection_status = λ c. ok thread;
  status_by_coordinator = λ c. ok thread;
  applier_status = λ c. ok "ON";
  status_by_worker = λ c. ok (record { rows = []; final = done });
  coordinator_error = λ c. err no_rows;
  lag_of_applied = λ c. ok none;
  lag_of_queued = λ c. ok none;
}

abbrev cluster : Side → Cluster
cluster s = record { dsn = "keeper@tcp(db)/"; db = server s; within = λ t d. server s t }

abbrev Has : Side → Trace → ℕ → Type 0
Has s t x = (1 ≤ x) × (x ≤ newest s t)

-- The local server gives nothing back as its set, so the set that is read is that of both.
abbrev Denotes : String → ℕ → Type 0
Denotes g x = (g ≡ nine) × (1 ≤ x) × (x ≤ 9)

Has-grows : (s : Side) (e : Event) (t : Trace) (x : ℕ) → Has s t x → Has s (e ∷ t) x
Has-grows local e t x h = h
Has-grows remote (c, o) t x h = ground arith

Has-nine : (s : Side) (t : Trace) (x : ℕ) → Has s t x → Denotes nine x
Has-nine local t x h = (refl, h.0, h.1)
Has-nine remote t x h = (refl, h.0, ground arith)

read_back :
    (g : String) {x : ℕ} → ◌≡◌ {A = Result String} (ok nine) (ok g) → Denotes nine x → Denotes g x
read_back g h d = (cc, d.1, d.2)

nothing_missing :
    (b : Bool) (x : ℕ)
    → x ≤ 9
    → ◌≡◌ {A = Result (Option String)} (ok (some (if b then "" else "a:9"))) (ok (some ""))
    → x ≤ (if b then 9 else 8)
nothing_missing true x le h = le
nothing_missing false x le h = cc

Has-subtracts :
    (s : Side) (t : Trace) (g : String) (x : ℕ)
    → Db.gtid_subtract (server s t) g ≡ ok (some "")
    → Denotes g x
    → Has s t x
Has-subtracts local t g x h d = (d.1, d.2)
Has-subtracts remote t g x h (same, lo, hi) =
    (lo, nothing_missing (waited t) x hi (simp ((eq_iff g nine).1 same) at h))

Has-waits :
    (s : Side) (t : Trace) (g : String) (budget : Duration) (o : Outcome) (x : ℕ)
    → Denotes g x
    → Has s ((wait_for_gtid s g budget, o) ∷ t) x
Has-waits local t g budget o x d = (d.1, d.2)
Has-waits remote t g budget o x d = (d.1, d.2)

servers : GtidServers ℕ Has Denotes cluster
servers = record {
  grows = Has-grows;
  reads = λ s t g x h k. read_back g h (Has-nine s t x k);
  empty = λ x d. cc;
  not_null = λ s t g h. cc;
  subtracts = Has-subtracts;
  waits = λ s t g n budget o x h d. Has-waits s t g budget o x d;
}

servers-changes :
    changed (execute (pxc_env (λ d. pos 30) cluster calm) sample_config []).1
    ≡ apply_failover_routing sample_config.routing
      ∷ reset_replica_all remote "dc-to-dr"
      ∷ stop_replica remote "dc-to-dr"
      ∷ set_read_write remote
      ∷ set_read_only local
      ∷ []
unfolding execute changed phase_pre_flight phase_fence phase_promote phase_routing
    phase_reverse_replica phase_verify run is_ok check_remote_reachable_read_only
    check_remote_replication_running running gtid_checks check_log_replica_updates check_gtid_mode
    check_binlog_format check_binlog_retention check_replica_not_quarantined pxc_bool pxc_text
    pxc_snapshot pxc_status pxc_outcome Inspector.is_writable Inspector.missing_gtids
    Inspector.get_gtid_snapshot Inspector.read_log_replica_updates Inspector.missing_answer
    Inspector.wait_for_gtid Inspector.wait_answer open_db Channel.get_replication_status
servers-changes = refl

servers-moved : changed (execute (pxc_env (λ d. pos 30) cluster calm) sample_config []).1 ≢ []
servers-moved = rw servers-changes cc

execute-has_all_example :
    Has remote (execute (pxc_env (λ d. pos 30) cluster calm) sample_config []).1 9
execute-has_all_example =
    execute-has_all cluster servers (λ d. pos 30) calm sample_config refl servers-moved 9
      (omega arith, omega arith)
