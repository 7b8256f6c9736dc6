-- ===== src/Pxc/Db.antt =====
-- A connection to one MySQL server, as internal/pxc uses database/sql: openDB, and the answers to the
-- queries and statements. An operation makes each of them at most once, so a function of the query
-- stands for any server. A deadline that passes is an error of the call. NULL is `none`.
use mysql_keeper.Prelude.{String, List, [], ◌∷◌, Bool, true, false, Option}
use mysql_keeper.Prelude.Int.{ℤ}
use mysql_keeper.Go.Time.{Time}
use mysql_keeper.Go.Error.{text, Error, no_rows, Outcome, Result, ◌>>◌, annotate}

-- The statements, by what they do. Those of a skip are in Skip.
pub data Command : Type 0 where
  create_keeper create_probe : Command
  stop_replica stop_slave reset_replica_all reset_slave_all : String → Command

-- `SELECT` of a system variable.
pub data Variable : Type 0 where
  gtid_executed gtid_purged binlog_expire_logs_seconds binlog_format gtid_mode : Variable
  log_replica_updates log_slave_updates read_only : Variable

-- service_state, last_error_number and last_error_message of one thread of a channel.
pub record ThreadRow : Type 0 where
  pub service_state : String
  pub last_error_number : ℤ
  pub last_error_message : Option String

-- A row of replication_applier_status_by_worker.
pub record WorkerRow : Type 0 where
  pub worker_id : ℤ
  pub last_error_number : ℤ
  pub last_error_message : String
  pub applying_transaction : String
  pub last_error_timestamp : Option Time

-- The rows of a query: each is scanned or not, and the iteration ends with `rows.Err()`.
pub record Rows (A : Type 0) : Type 0 where
  pub rows : List (Result A)
  pub final : Outcome

pub record Db : Type 0 where
  pub opened : Outcome
  pub ping : Outcome
  pub exec : Command → Outcome
  pub text_variable : Variable → Result String
  pub int_variable : Variable → Result ℤ
  pub select_one : Result ℤ
  pub gtid_subset : String → Result (Option ℤ)
  pub gtid_subtract : String → Result (Option String)
  pub wait_for_executed_gtid_set : String → ℤ → Result (Option ℤ)
  pub connection_status : String → Result ThreadRow
  pub status_by_coordinator : String → Result ThreadRow
  pub applier_status : String → Result String
  pub status_by_worker : String → Result (Rows WorkerRow)
  pub coordinator_error : String → Result (ℤ × Option String)
  pub lag_of_applied : String → Result (Option ℤ)
  pub lag_of_queued : String → Result (Option ℤ)

-- sql.Open, then a ping; the error of the ping names the DSN.
unfoldable pub open_db : Db → String → Outcome
open_db db dsn =
    annotate (text "open MySQL" ∷ []) db.opened
    >> annotate (text "ping MySQL " ∷ text dsn ∷ []) db.ping

-- `err == sql.ErrNoRows`
abbrev pub eq_no_rows : Error → Bool
eq_no_rows no_rows = true
eq_no_rows _ = false
