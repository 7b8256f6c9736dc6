-- ===== src/Pxc/Channel.antt =====
-- internal/pxc/replication.go: what is asked of and done to one replication channel.
pub mod Reported
mod Tests
use mysql_keeper.Prelude.{
  String, List, [], ◌∷◌, ◌++◌, Bool, true, false, ◌&&◌, not, Option, none, some, if◌then◌else◌,
  str_eq,
}
use mysql_keeper.Prelude.Int.{ℤ, pos, negsuc, leb_ℤ, ltb_ℤ, eqb_ℤ}
use mysql_keeper.Go.Time.{Time, Duration}
use mysql_keeper.Go.Error.{
  Message, text, Error, printed, raised, wrapped, Outcome, Result, ok, err, done, ◌>>=◌, ◌>>◌,
  annotate,
}
use mysql_keeper.Pxc.Replication.{ReplicationStatus, WorkerError}
use mysql_keeper.Pxc.Db.{
  Db, ThreadRow, WorkerRow, Rows, Command, open_db, eq_no_rows, stop_replica, stop_slave,
  reset_replica_all, reset_slave_all,
}

-- `sql.NullString.String`
abbrev string_of : Option String → String
string_of none = ""
string_of (some s) = s

-- Every operation on a channel wants its name, and a connection.
named : {A : Type 0} → String → Result A → Result A
named channel r = if str_eq channel "" then err (raised (text "channel name is empty" ∷ [])) else r

-- The zero value of a status, with the name.
unconfigured : String → ReplicationStatus
unconfigured channel = record {
  channel_name = channel;
  io_service_state = "";
  io_error_number = pos 0;
  io_error_message = "";
  sql_service_state = "";
  sql_error_number = pos 0;
  sql_error_message = "";
  config_exists = false;
}

with_io : String → ThreadRow → ReplicationStatus
unfolding unconfigured
with_io channel io = record (unconfigured channel) {
  io_service_state = io.service_state;
  io_error_number = io.last_error_number;
  io_error_message = string_of io.last_error_message;
  config_exists = true;
}

-- A command, and its older spelling where that fails.
either_spelling : Message → Db → Command → Command → Outcome
either_spelling m db newer older = elim (db.exec newer) [
  | ok _ ↦ done
  | err e ↦ elim (db.exec older) [
    | ok _ ↦ done
    | err e2 ↦ err (raised (m ++ (text ": " ∷ (printed e ++ (text " / " ∷ printed e2)))))
  ]
]

-- The row of a worker; a timestamp that is NULL is the time of the look.
unfoldable pub worker_error : Time → String → WorkerRow → WorkerError
worker_error now channel w = record {
  channel = channel;
  worker_id = w.worker_id;
  errno = w.last_error_number;
  message = w.last_error_message;
  failed_gtid = w.applying_transaction;
  timestamp = some (elim w.last_error_timestamp [ none ↦ now | some t ↦ t ]);
}

-- `for rows.Next() { rows.Scan(…) }`
worker_errors : Time → String → List (Result WorkerRow) → Result (List WorkerError)
unfolding worker_error
worker_errors now channel [] = ok []
worker_errors now channel (r ∷ rs) = do
  w ← annotate (text "scan worker row" ∷ []) r
  rest ← worker_errors now channel rs
  ok (worker_error now channel w ∷ rest)

-- The error of the coordinator; that it cannot be read is no error.
unfoldable pub of_coordinator : Time → String → Result (ℤ × Option String) → List WorkerError
of_coordinator now channel (err e) = []
of_coordinator now channel (ok (errno, message)) =
    record {
      channel = channel;
      worker_id = pos 0;
      errno = errno;
      message = string_of message;
      failed_gtid = "";
      timestamp = some now;
    }
    ∷ []

-- What a query of one nullable number leaves in its variable, and the error. The number is an
-- integer, so only a query that gives no row fails.
abbrev scanned : Option ℤ → Result (Option ℤ) → Option ℤ × Outcome
scanned before (ok n) = (n, done)
scanned before (err e) = (before, err e)

-- A query that fails otherwise than by having no row is tried on connection_status alone.
retried : Result (Option ℤ) → Option ℤ × Outcome → Option ℤ × Outcome
retried second (lag, ok _) = (lag, done)
retried second (lag, err e) = if eq_no_rows e then (lag, err e) else scanned lag second

lag_error : Option ℤ → Outcome → Result ℤ
lag_error none o = ok (negsuc 0)
lag_error (some n) (err e) =
    if eq_no_rows e
    then ok (negsuc 0)
    else err (wrapped (text "get replication lag seconds" ∷ []) e)
lag_error (some n) (ok _) = if ltb_ℤ n (pos 0) then ok (pos 0) else ok n

module _ (db : Db) (dsn channel : String) where
  -- The applier's thread, by the coordinator or by the single thread.
  single_state : Result String → Result (String × ℤ × Option String)
  single_state (ok state) = ok (state, pos 0, none)
  single_state (err e) = err e

  sql_thread : Result ThreadRow → Result (String × ℤ × Option String)
  unfolding single_state
  sql_thread (ok r) = ok (r.service_state, r.last_error_number, r.last_error_message)
  sql_thread (err e) = if eq_no_rows e then single_state (db.applier_status channel) else err e

  with_sql : ThreadRow → Result ReplicationStatus
  unfolding sql_thread with_io
  with_sql io = do
    (state, number, message) ←
        annotate (text "read replication_applier_status*" ∷ [])
          (sql_thread (db.status_by_coordinator channel))
    ok (record (with_io channel io) {
      sql_service_state = state;
      sql_error_number = number;
      sql_error_message = string_of message;
    })

  io_thread : Result ThreadRow → Result ReplicationStatus
  unfolding with_sql unconfigured
  io_thread (ok io) = with_sql io
  io_thread (err e) =
      if eq_no_rows e
      then ok (unconfigured channel)
      else err (wrapped (text "read replication_connection_status" ∷ []) e)

  unfoldable pub get_replication_status : Result ReplicationStatus
  unfolding named open_db io_thread
  get_replication_status =
      named channel (open_db db dsn >> io_thread (db.connection_status channel))

  unfoldable pub stop_replica_channel : Outcome
  unfolding named open_db either_spelling
  stop_replica_channel = named channel (
      open_db db dsn
      >> either_spelling (text "STOP REPLICA / STOP SLAVE" ∷ []) db (stop_replica channel)
          (stop_slave channel))

  unfoldable pub reset_replica_channel : Outcome
  unfolding named open_db either_spelling
  reset_replica_channel = named channel (
      open_db db dsn
      >> either_spelling (text "RESET REPLICA ALL / RESET SLAVE ALL" ∷ []) db
          (reset_replica_all channel) (reset_slave_all channel))

  -- TIMESTAMPDIFF of the last applied transaction, else of the last queued one.
  unfoldable pub get_replication_lag_seconds : Result ℤ
  unfolding named open_db retried lag_error
  get_replication_lag_seconds = named channel (
      open_db db dsn
      >> (let (lag, o) =
            retried (db.lag_of_queued channel) (scanned none (db.lag_of_applied channel)) in
          lag_error lag o))

  detected : Time → List WorkerError → List WorkerError
  unfolding of_coordinator
  detected now [] = of_coordinator now channel (db.coordinator_error channel)
  detected now (w ∷ ws) = w ∷ ws

  of_workers : Time → Rows WorkerRow → Result (List WorkerError)
  unfolding worker_errors detected
  of_workers now answer = do
    out ← worker_errors now channel answer.rows
    annotate (text "iterate worker rows" ∷ []) answer.final
    ok (detected now out)

  unfoldable pub detect_worker_errors : Time → Result (List WorkerError)
  unfolding named open_db of_workers
  detect_worker_errors now = named channel (do
    open_db db dsn
    answer ←
        annotate (text "read replication_applier_status_by_worker" ∷ [])
          (db.status_by_worker channel)
    of_workers now answer)

-- A ping or a query that fails is an answer: the server is not reached. The budget, two seconds where
-- it is not positive, is the deadline of both.
answers_one : Result ℤ → Bool
answers_one (ok n) = eqb_ℤ n (pos 1)
answers_one (err e) = false

pinged : Db → Outcome → Bool
unfolding answers_one
pinged db (ok _) = answers_one db.select_one
pinged db (err e) = false

unfoldable pub probe_reachable : (Duration → Db) → Duration → Result Bool
unfolding pinged
probe_reachable within budget =
    let db = within (if leb_ℤ budget (pos 0) then pos 2000000000 else budget) in
    do annotate (text "open" ∷ []) db.opened; ok (pinged db db.ping)
