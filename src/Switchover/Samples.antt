-- ===== src/Switchover/Samples.antt =====
-- Environments and a configuration to run the checks and the switchover in.
use mysql_keeper.Prelude.{[], ◌∷◌, none, Bool, true, false, str_eq}
use mysql_keeper.Prelude.Int.{pos}
use mysql_keeper.Go.Error.{Outcome, ok, err, done, foreign}
use mysql_keeper.Pxc.Gtid.{GtidSnapshot}
use mysql_keeper.Pxc.Replication.{ReplicationStatus}
use mysql_keeper.Switchover.Effects.{
  Env, Trace, Call, remote, set_read_write, apply_failover_routing,
}
use mysql_keeper.Switchover.PreFlight.Result.{PreFlight}
use mysql_keeper.Switchover.Engine.Phases.{Config, preflight_of}

abbrev pub sample_snapshot : GtidSnapshot
sample_snapshot = record {
  executed = "a:1-9";
  purged = "";
  binlog_expire_logs_seconds = pos 604800;
  log_replica_updates_on = true;
  binlog_format = "ROW";
  gtid_mode = "ON";
}

abbrev pub sample_status : ReplicationStatus
sample_status = record {
  channel_name = "dc-to-dr";
  io_service_state = "ON";
  io_error_number = pos 0;
  io_error_message = "";
  sql_service_state = "ON";
  sql_error_number = pos 0;
  sql_error_message = "";
  config_exists = true;
}

-- Whether the remote cluster takes writes by what was called before: not until it is opened.
abbrev opened_before : Trace → Bool
opened_before [] = false
opened_before ((set_read_write remote, ok _) ∷ t) = true
opened_before (_ ∷ t) = opened_before t

-- Every call works, and the clusters are in step.
abbrev pub calm : Env
calm = record {
  outcome = λ t c. done;
  answer_bool = λ t c. ok (opened_before t);
  answer_text = λ t c. ok "";
  answer_snapshot = λ t c. ok sample_snapshot;
  answer_status = λ t c. ok sample_status;
  equal_fold = str_eq;
  trim_space = λ m. m;
}

abbrev routing_outcome : Call → Outcome
routing_outcome (apply_failover_routing _) = err (foreign "proxysql: connection refused")
routing_outcome _ = done

-- ProxySQL cannot be switched.
abbrev pub routing_fails : Env
routing_fails = record calm { outcome = λ t c. routing_outcome c }

-- The remote cluster takes writes before anything is done.
abbrev pub two_writers : Env
two_writers = record calm { answer_bool = λ t c. ok true }

abbrev pub sample_config : Config
sample_config = record {
  remote_pxc = true;
  local_inspector = true;
  remote_inspector = true;
  remote_replication = true;
  local_replication = true;
  local_proxysql = true;
  routing = record {
    old_writer_host = "dc-haproxy";
    old_writer_port = pos 3306;
    new_writer_host = "dr-haproxy";
    new_writer_port = pos 3306;
    read_write_hostgroup = pos 10;
    read_only_hostgroup = pos 20;
  };
  blackhole_fence = record {
    target_host = "dc-haproxy";
    target_port = pos 3306;
    blackhole_hostgroup = pos 9999;
  };
  local_replication_channel = "dr-to-dc";
  remote_replication_channel = "dc-to-dr";
  reverse_replication_source = none;
  min_binlog_retention_seconds = pos 0;
  catchup_timeout = pos 0;
  drain_timeout = pos 0;
  allow_data_loss_failover = false;
  local_replica_quarantined = false;
  local_quarantine_reason = [];
}

abbrev pub sample_preflight : PreFlight
sample_preflight = preflight_of sample_config
