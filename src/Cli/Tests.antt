-- ===== src/Cli/Tests.antt =====
-- A drill on two clusters in step, and the endpoint of a ProxySQL.
use mysql_keeper.Prelude.{◌≡◌, [], ◌∷◌, false, arith}
use mysql_keeper.Prelude.Int.{pos, wrap32}
use mysql_keeper.Switchover.Samples.{calm}
use mysql_keeper.Cli.{Flags, switchover_main, has_usage_error}
use mysql_keeper.Cli.Ends.{Ends, switchover_main-Ends}
use mysql_keeper.Cli.Endpoint.{host_only, port_only}
use mysql_keeper.Cli.Endpoint.RoundTrip.{endpoint_read}

abbrev drill_flags : Flags
drill_flags = record {
  dc_mysql = "keeper@tcp(dc)/";
  dr_mysql = "keeper@tcp(dr)/";
  dc_proxysql = "proxy:6032";
  proxysql_pass = "secret";
  channel = "dc-to-dr";
  dry_run = false;
  allow_data_loss_failover = false;
  catchup_timeout = pos 10000000000;
  min_binlog_retention_seconds = pos 604800;
  rw_hg = pos 10;
  ro_hg = pos 20;
  blackhole_hg = pos 9999;
  drain_timeout = pos 0;
  dc_writer_host = "pxc-dc";
  dr_writer_host = "pxc-dr";
}

switchover_main-Ends_example :
    Ends calm false false
      (switchover_main calm drill_flags []).0
      (switchover_main calm drill_flags []).1
unfolding has_usage_error
switchover_main-Ends_example = switchover_main-Ends calm drill_flags

-- "db:6032"
endpoint_read_example :
    (host_only (100 ∷ 98 ∷ 58 ∷ 54 ∷ 48 ∷ 51 ∷ 50 ∷ []) ≡ 100 ∷ 98 ∷ [])
    × (port_only (100 ∷ 98 ∷ 58 ∷ 54 ∷ 48 ∷ 51 ∷ 50 ∷ []) ≡ wrap32 (pos 6032))
endpoint_read_example = endpoint_read (100 ∷ 98 ∷ []) (54 ∷ 48 ∷ 51 ∷ 50 ∷ []) (omega arith)
