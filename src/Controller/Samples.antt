-- ===== src/Controller/Samples.antt =====
-- A policy and two snapshots to decide on.
use mysql_keeper.Prelude.{
  [], ◌∷◌, none, some, true, false, Bool, String, List, str_eq, ◌||◌, keep, not,
}
use mysql_keeper.Prelude.Int.{pos}
use mysql_keeper.Go.Error.{ok, done}
use mysql_keeper.Api.{ClusterSwitchPolicy}
use mysql_keeper.Api.Spec.{dc, unset, SecretRef, MySqlEndpointConfig, ClusterSwitchPolicySpec}
use mysql_keeper.Api.Status.{monitoring, ClusterHealthStatus, ClusterSwitchPolicyStatus}
use mysql_keeper.Health.{ClusterHealth, writable_unknown, writable_no}
use mysql_keeper.Controller.Client.{Kube, World}

abbrev pub secret : SecretRef
secret = record { name = "mysql"; namespace = "db" }

abbrev pub endpoint : MySqlEndpointConfig
endpoint = record { host = "haproxy"; port = pos 3306; credentials_secret_ref = secret }

-- Ten seconds a cycle, and a failover after three failures.
abbrev pub sample_spec : ClusterSwitchPolicySpec
sample_spec = record {
  cluster_role = dc;
  pxc_namespace = "db";
  pxc_name = "pxc";
  replication_channel_name = "dr-to-dc";
  peer_replication_channel_name = "dc-to-dr";
  local_mysql = endpoint;
  remote_mysql = endpoint;
  proxysql = [];
  proxysql_selector = none;
  health_check = record {
    interval = pos 10000000000;
    failure_threshold = pos 3;
    mysql_check_timeout = pos 5000000000;
    proxysql_min_healthy = pos 1;
    gtid_lag_alert_threshold_transactions = pos 0;
    remote_unreachable_threshold = pos 0;
  };
  switchover = record {
    timeout = pos 300000000000;
    drain_timeout = pos 0;
    fence_timeout = pos 30000000000;
    crd_apply_retries = pos 3;
    cooldown_period = pos 0;
    resume_stuck_timeout = pos 0;
    blackhole_hostgroup = pos 9999;
    read_write_hostgroup = pos 10;
    read_only_hostgroup = pos 20;
    remote_writer_host = "dr-haproxy";
    remote_writer_port = pos 3306;
    local_writer_host = "dc-haproxy";
  };
  preflight = record { catchup_timeout = pos 0; min_binlog_retention_seconds = pos 0 };
  auto_failover = true;
  allow_data_loss_failover = false;
  mano = none;
  remote_kube_api = none;
  manual_switchover_target = unset;
  recovery = record { auto_recovery_interval = pos 0 };
  replication_error_handling = none;
}

abbrev pub no_health : ClusterHealthStatus
no_health = record {
  healthy = true;
  pxc_state = "";
  pxc_ready_nodes = pos 0;
  wsrep_cluster_size = pos 0;
  wsrep_cluster_status = "";
  is_writable = false;
  proxysql_healthy = pos 0;
  last_checked = none;
  message = [];
}

abbrev pub sample_status : ClusterSwitchPolicyStatus
sample_status = record {
  active_cluster = some dc;
  phase = monitoring;
  local_health = no_health;
  remote_health = no_health;
  consecutive_local_failures = pos 0;
  consecutive_remote_failures = pos 0;
  consecutive_local_unreachable = pos 1;
  consecutive_remote_unreachable = pos 0;
  last_switchover_time = none;
  last_switchover_reason = [];
  last_degraded_recovery_attempt = none;
  last_recovery_annotation = "";
  switchover_progress = none;
  last_preflight = none;
  conditions = [];
  gtid_lag = none;
  replication_errors = none;
}

abbrev pub sample_policy : ClusterSwitchPolicy
sample_policy = record {
  metadata = record {
    namespace = "db";
    name = "policy";
    uid = "u";
    clear_quarantine = "";
    recover_degraded = "";
    finalizers = [];
    deletion_timestamp = none;
  };
  spec = sample_spec;
  status = sample_status;
}

-- A cluster that answers nothing.
abbrev pub silent : ClusterHealth
silent = record {
  healthy = false;
  pxc_state = "";
  pxc_ready_nodes = pos 0;
  wsrep_cluster_size = pos 0;
  wsrep_cluster_status = "";
  writable = writable_unknown;
  is_writable = false;
  proxysql_healthy = pos 0;
  checked_at = pos 0;
  message = [];
}

-- A healthy replica.
abbrev pub replica : ClusterHealth
replica = record silent {
  healthy = true;
  wsrep_cluster_size = pos 3;
  wsrep_cluster_status = "Primary";
  writable = writable_no;
}

abbrev pub contains : List String → String → Bool
contains [] f = false
contains (g ∷ gs) f = str_eq g f || contains gs f

-- An API that accepts every patch, with nobody else writing.
abbrev pub sample_kube : Kube
sample_kube = record {
  answer_patch = λ l t base sent. ok sent;
  outcome = λ l a. done;
  contains_finalizer = contains;
  add_finalizer = λ fs f. f ∷ fs;
  remove_finalizer = λ fs f. keep (λ g. not (str_eq g f)) fs;
  set_status_condition = λ cs c. c ∷ cs;
}

abbrev pub fresh_world : World
fresh_world = record { log = []; schema_ensured = [] }
