-- ===== src/Pxc/Inspector.antt =====
-- What the switchover asks of a cluster through SQL, from internal/pxc: the GTID queries of gtid.go,
-- IsWritable and EnsureKeeperSchema of manager.go. `seconds_of` is int(d.Seconds()), in floating point.
use mysql_keeper.Prelude.{
  String, [], ◌∷◌, ◌++◌, Bool, true, false, Option, none, some, if◌then◌else◌, str_eq,
}
use mysql_keeper.Prelude.Int.{ℤ, pos, leb_ℤ, ltb_ℤ, eqb_ℤ}
use mysql_keeper.Go.Time.{Duration}
use mysql_keeper.Go.Error.{
  text, span, Error, printed, raised, Outcome, Result, ok, err, done, ◌>>=◌, ◌>>◌, annotate,
}
use mysql_keeper.Pxc.Gtid.{GtidSnapshot}
use mysql_keeper.Pxc.Db.{
  Db, open_db, gtid_executed, gtid_purged, binlog_expire_logs_seconds, binlog_format, gtid_mode,
  log_replica_updates, log_slave_updates, read_only, create_keeper, create_probe,
}

older_name : Error → Result ℤ → Result Bool
older_name e (ok val) = ok (eqb_ℤ val (pos 1))
older_name e (err e2) = err (
    raised (
      text "neither log_replica_updates nor log_slave_updates is readable ("
      ∷ (printed e ++ (text " / " ∷ (printed e2 ++ (text ")" ∷ []))))))

module _ (db : Db) where
  newer_name : Result ℤ → Result Bool
  unfolding older_name
  newer_name (ok val) = ok (eqb_ℤ val (pos 1))
  newer_name (err e) = older_name e (db.int_variable log_slave_updates)

  unfoldable pub read_log_replica_updates : Result Bool
  unfolding newer_name
  read_log_replica_updates = newer_name (db.int_variable log_replica_updates)

subset_answer : Option ℤ → Bool
subset_answer none = false
subset_answer (some n) = eqb_ℤ n (pos 1)

unfoldable pub missing_answer : Option String → String
missing_answer none = ""
missing_answer (some s) = s

unfoldable pub wait_answer : Duration → Option ℤ → Outcome
wait_answer budget none =
    err (raised (text "WAIT_FOR_EXECUTED_GTID_SET returned NULL (GTID mode off?)" ∷ []))
wait_answer budget (some n) =
    if eqb_ℤ n (pos 0)
    then done
    else err (raised (text "replica did not reach target GTID within " ∷ span budget ∷ []))

-- The budget of the wait, and the seconds that the server is told.
abbrev pub wait_budget : Duration → Duration
wait_budget timeout = if leb_ℤ timeout (pos 0) then pos 30000000000 else timeout

abbrev pub at_least_one : ℤ → ℤ
at_least_one n = if ltb_ℤ n (pos 1) then pos 1 else n

module _ (db : Db) (dsn : String) where
  unfoldable pub get_gtid_snapshot : Result GtidSnapshot
  unfolding open_db
  get_gtid_snapshot = do
    open_db db dsn
    executed ← annotate (text "read gtid_executed" ∷ []) (db.text_variable gtid_executed)
    purged ← annotate (text "read gtid_purged" ∷ []) (db.text_variable gtid_purged)
    expire ←
        annotate (text "read binlog_expire_logs_seconds" ∷ [])
          (db.int_variable binlog_expire_logs_seconds)
    format ← annotate (text "read binlog_format" ∷ []) (db.text_variable binlog_format)
    mode ← annotate (text "read gtid_mode" ∷ []) (db.text_variable gtid_mode)
    updates ← read_log_replica_updates db
    ok (record {
      executed = executed;
      purged = purged;
      binlog_expire_logs_seconds = expire;
      log_replica_updates_on = updates;
      binlog_format = format;
      gtid_mode = mode;
    })

  unfoldable pub get_executed_gtid : Result String
  unfolding open_db
  get_executed_gtid =
      open_db db dsn >> annotate (text "read gtid_executed" ∷ []) (db.text_variable gtid_executed)

  unfoldable pub is_gtid_subset : String → Result Bool
  unfolding open_db subset_answer
  is_gtid_subset other = if str_eq other "" then ok true else (do
    open_db db dsn
    result ← annotate (text "GTID_SUBSET" ∷ []) (db.gtid_subset other)
    ok (subset_answer result))

  unfoldable pub missing_gtids : String → Result String
  missing_gtids other = if str_eq other "" then ok "" else (do
    open_db db dsn
    missing ← annotate (text "GTID_SUBTRACT" ∷ []) (db.gtid_subtract other)
    ok (missing_answer missing))

  unfoldable pub wait_for_gtid : (Duration → ℤ) → String → Duration → Outcome
  wait_for_gtid seconds_of gtid timeout = if str_eq gtid "" then done else (do
    open_db db dsn
    result ←
        annotate (text "WAIT_FOR_EXECUTED_GTID_SET" ∷ [])
          (db.wait_for_executed_gtid_set gtid (at_least_one (seconds_of (wait_budget timeout))))
    wait_answer (wait_budget timeout) result)

  unfoldable pub is_writable : Result Bool
  unfolding open_db
  is_writable = do
    open_db db dsn
    flag ← annotate (text "query @@read_only" ∷ []) (db.int_variable read_only)
    ok (eqb_ℤ flag (pos 0))

  unfoldable pub ensure_keeper_schema : Outcome
  unfolding open_db
  ensure_keeper_schema = do
    open_db db dsn
    annotate (text "create keeper database" ∷ []) (db.exec create_keeper)
    annotate (text "create keeper.probe table" ∷ []) (db.exec create_probe)
