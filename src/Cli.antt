-- ===== src/Cli.antt =====
-- cmd/switchover-cli/main.go and cmd/preflight-cli/main.go: a drill of the switchover, and a run of
-- its checks, by the command line. A program is a step on the trace of calls that ends in its exit
-- code; what it prints is left out. `none` is a panic.
pub mod Endpoint
pub mod Ends
mod Tests
use mysql_keeper.Prelude.{
  ℕ, String, List, [], ◌∷◌, Bool, true, false, Option, none, some, ◌&&◌, ◌||◌, not, if◌then◌else◌,
  str_eq,
}
use mysql_keeper.Prelude.Int.{ℤ, pos, wrap32}
use mysql_keeper.Go.Time.{Duration}
use mysql_keeper.Pxc.Skip.{Bytes}
use mysql_keeper.Switchover.Effects.{Env, M, pure, ◌>>=◌}
use mysql_keeper.Switchover.PreFlight.Result.{PreFlight, PreFlightResult, is_ok}
use mysql_keeper.Switchover.PreFlight.Run.{run}
use mysql_keeper.Switchover.Engine.{ExecResult, execute}
use mysql_keeper.Switchover.Engine.Phases.{Config}

-- The flags of switchover-cli; those that only set deadlines or print are left out.
pub record Flags : Type 0 where
  pub dc_mysql : String
  pub dr_mysql : String
  pub dc_proxysql : String
  pub proxysql_pass : String
  pub channel : String
  pub dry_run : Bool
  pub allow_data_loss_failover : Bool
  pub catchup_timeout : Duration
  pub min_binlog_retention_seconds : ℤ
  pub rw_hg : ℤ
  pub ro_hg : ℤ
  pub blackhole_hg : ℤ
  pub drain_timeout : Duration
  pub dc_writer_host : String
  pub dr_writer_host : String

abbrev pub preflight_of_flags : Flags → PreFlight
preflight_of_flags f = record {
  remote_pxc = true;
  local_inspector = true;
  remote_inspector = true;
  channel = f.channel;
  catchup_timeout = f.catchup_timeout;
  min_binlog_retention_second = f.min_binlog_retention_seconds;
  allow_data_loss_failover = f.allow_data_loss_failover;
  local_replica_quarantined = false;
  local_quarantine_reason = [];
}

-- Every interface is there, and the replica is never quarantined.
abbrev pub config_of_flags : Flags → Config
config_of_flags f = record {
  remote_pxc = true;
  local_inspector = true;
  remote_inspector = true;
  remote_replication = true;
  local_replication = true;
  local_proxysql = true;
  routing = record {
    old_writer_host = f.dc_writer_host;
    old_writer_port = pos 3306;
    new_writer_host = f.dr_writer_host;
    new_writer_port = pos 3306;
    read_write_hostgroup = wrap32 f.rw_hg;
    read_only_hostgroup = wrap32 f.ro_hg;
  };
  blackhole_fence = record {
    target_host = f.dc_writer_host;
    target_port = pos 3306;
    blackhole_hostgroup = wrap32 f.blackhole_hg;
  };
  local_replication_channel = f.channel;
  remote_replication_channel = f.channel;
  reverse_replication_source = none;
  min_binlog_retention_seconds = f.min_binlog_retention_seconds;
  catchup_timeout = f.catchup_timeout;
  drain_timeout = f.drain_timeout;
  allow_data_loss_failover = f.allow_data_loss_failover;
  local_replica_quarantined = false;
  local_quarantine_reason = [];
}

-- The three tests on the flags.
unfoldable pub has_usage_error : Flags → Bool
has_usage_error f =
    (str_eq f.dc_mysql "" || str_eq f.dr_mysql "")
    || (not f.dry_run && str_eq f.dc_proxysql "")
    || (not f.dry_run && str_eq f.proxysql_pass "")

unfoldable pub exit_code : Option ExecResult → Option ℕ
exit_code none = none
exit_code (some r) = some (if r.success then 0 else 1)

module _ (env : Env) (f : Flags) where
  unfoldable pub drill : M (Option ℕ)
  unfolding exit_code
  drill = do result ← execute env (config_of_flags f); pure (exit_code result)

  unfoldable pub after_checks : PreFlightResult → M (Option ℕ)
  unfolding drill
  after_checks res =
      if not (is_ok res) then pure (some 1) else if f.dry_run then pure (some 0) else drill

  unfoldable pub switchover_main : M (Option ℕ)
  unfolding after_checks has_usage_error
  switchover_main =
      if has_usage_error f
      then pure (some 2)
      else (do res ← run env (preflight_of_flags f); after_checks res)

-- preflight-cli: the same checks, with its own defaults of the flags.
unfoldable pub preflight_main : Env → Flags → M ℕ
preflight_main env f =
    if str_eq f.dc_mysql "" || str_eq f.dr_mysql ""
    then pure 2
    else (do res ← run env (preflight_of_flags f); pure (if is_ok res then 0 else 1))
