-- ===== src/Pxc/Gtid.antt =====
-- internal/pxc/gtid.go: the GTID state of a server.
use mysql_keeper.Prelude.{String, Bool}
use mysql_keeper.Prelude.Int.{ℤ}

pub record GtidSnapshot : Type 0 where
  pub executed : String
  pub purged : String
  pub binlog_expire_logs_seconds : ℤ
  pub log_replica_updates_on : Bool
  pub binlog_format : String
  pub gtid_mode : String
