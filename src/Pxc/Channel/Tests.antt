-- ===== src/Pxc/Channel/Tests.antt =====
-- A channel of a server with one failing worker, and one whose lag cannot be read.
use mysql_keeper.Prelude.{◌≡◌, refl, [], ◌∷◌, none, some}
use mysql_keeper.Prelude.Int.{ℤ, pos, negsuc, ◌≤ℤ◌}
use mysql_keeper.Go.Error.{Outcome, ok, err, done, foreign, no_rows}
use mysql_keeper.Pxc.Replication.{WorkerError}
use mysql_keeper.Pxc.Db.{Db, WorkerRow, open_db}
use mysql_keeper.Pxc.Channel.{get_replication_lag_seconds, detect_worker_errors}
use mysql_keeper.Pxc.Channel.Reported.{
  lag-never_fails, AreReported, detect_worker_errors-AreReported,
}

abbrev refused : Outcome
refused = err (foreign "SELECT command denied")

abbrev failing : WorkerRow
failing = record {
  worker_id = pos 3;
  last_error_number = pos 1062;
  last_error_message = "Duplicate entry";
  applying_transaction = "a:10";
  last_error_timestamp = none;
}

abbrev server : Db
server = record {
  opened = done;
  ping = done;
  exec = λ c. refused;
  text_variable = λ v. ok "ON";
  int_variable = λ v. ok (pos 1);
  select_one = ok (pos 1);
  gtid_subset = λ g. ok none;
  gtid_subtract = λ g. ok none;
  wait_for_executed_gtid_set = λ g n. ok none;
  connection_status = λ c. err no_rows;
  status_by_coordinator = λ c. err no_rows;
  applier_status = λ c. ok "OFF";
  status_by_worker = λ c. ok (record { rows = ok failing ∷ []; final = done });
  coordinator_error = λ c. err no_rows;
  lag_of_applied = λ c. err (foreign "SELECT command denied");
  lag_of_queued = λ c. err (foreign "SELECT command denied");
}

lag-never_fails_example :
    (n : ℤ) × (get_replication_lag_seconds server "keeper@tcp(db)/" "dc-to-dr" ≡ ok n)
    × (negsuc 0 ≤ℤ n)
unfolding open_db
lag-never_fails_example = lag-never_fails server "keeper@tcp(db)/" "dc-to-dr" (cc) refl

abbrev found : WorkerError
found = record {
  channel = "dc-to-dr";
  worker_id = pos 3;
  errno = pos 1062;
  message = "Duplicate entry";
  failed_gtid = "a:10";
  timestamp = some (pos 7);
}

detected_one : detect_worker_errors server "keeper@tcp(db)/" "dc-to-dr" (pos 7) ≡ ok (found ∷ [])
unfolding detect_worker_errors
detected_one = refl

detect_worker_errors-AreReported_example :
    AreReported server "keeper@tcp(db)/" "dc-to-dr" (pos 7) (found ∷ [])
detect_worker_errors-AreReported_example =
    detect_worker_errors-AreReported server "keeper@tcp(db)/" "dc-to-dr" (pos 7) (found ∷ [])
      detected_one
