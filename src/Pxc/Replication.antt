-- ===== src/Pxc/Replication.antt =====
-- internal/pxc/replication.go: the state of one replication channel.
use mysql_keeper.Prelude.{String, [], ◌∷◌, ◌++◌, Bool, ◌&&◌, not, if◌then◌else◌, str_eq, Option}
use mysql_keeper.Prelude.Int.{ℤ, pos, eqb_ℤ}
use mysql_keeper.Go.Time.{Time}
use mysql_keeper.Go.Error.{Message, text, quoted, number}

pub record ReplicationStatus : Type 0 where
  pub channel_name : String
  pub io_service_state : String
  pub io_error_number : ℤ
  pub io_error_message : String
  pub sql_service_state : String
  pub sql_error_number : ℤ
  pub sql_error_message : String
  pub config_exists : Bool

unfoldable pub running : ReplicationStatus → Bool
running r =
    r.config_exists
    && str_eq r.io_service_state "ON"
    && str_eq r.sql_service_state "ON"
    && eqb_ℤ r.io_error_number (pos 0)
    && eqb_ℤ r.sql_error_number (pos 0)

-- `%v` prints the parts in brackets, with blanks between them.
pub human_message : ReplicationStatus → Message
human_message r =
    let io : Message =
      if eqb_ℤ r.io_error_number (pos 0)
      then []
      else text " ioErr="
        ∷ number r.io_error_number
        ∷ text "("
        ∷ text r.io_error_message
        ∷ text ")"
        ∷ [] in
    let sql : Message =
      if eqb_ℤ r.sql_error_number (pos 0)
      then []
      else text " sqlErr="
        ∷ number r.sql_error_number
        ∷ text "("
        ∷ text r.sql_error_message
        ∷ text ")"
        ∷ [] in
    if not r.config_exists
    then text "channel " ∷ quoted r.channel_name ∷ text " has no replication row" ∷ []
    else text "channel "
      ∷ quoted r.channel_name
      ∷ text ": [io="
      ∷ text r.io_service_state
      ∷ text " sql="
      ∷ text r.sql_service_state
      ∷ (io ++ (sql ++ (text "]" ∷ [])))

-- One row of DetectWorkerErrors; its timestamp is `none` where it is the zero time.
pub record WorkerError : Type 0 where
  pub channel : String
  pub worker_id : ℤ
  pub errno : ℤ
  pub message : String
  pub failed_gtid : String
  pub timestamp : Option Time
