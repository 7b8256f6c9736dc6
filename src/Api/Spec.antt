-- ===== src/Api/Spec.antt =====
-- The desired state: ClusterSwitchPolicySpec and the records in it.
use mysql_keeper.Prelude.{String, List, Bool, Option}
use mysql_keeper.Prelude.Int.{ℤ}
use mysql_keeper.Go.Time.{Duration}

-- The enumeration of `clusterRole` and `activeCluster`.
pub data ClusterRole : Type 0 where
  dc dr : ClusterRole

-- The enumeration of `manualSwitchoverTarget`: "" and "promote-remote".
pub data ManualTarget : Type 0 where
  unset promote_remote : ManualTarget

pub record SecretRef : Type 0 where
  pub name : String
  pub namespace : String

pub record ManoConfig : Type 0 where
  pub host : String
  pub token_secret_ref : Option SecretRef
  pub credentials_secret_ref : Option SecretRef
  pub local_cnf_name : String
  pub local_vdu_name : String
  pub remote_cnf_name : String
  pub remote_vdu_name : String
  pub poll_interval : Duration
  pub poll_timeout : Duration
  pub tls_insecure_skip_verify : Bool

pub record RemoteKubeApiConfig : Type 0 where
  pub host : String
  pub ca_secret_ref : Option SecretRef
  pub token_secret_ref : SecretRef
  pub pxc_namespace : String
  pub pxc_name : String

pub record MySqlEndpointConfig : Type 0 where
  pub host : String
  pub port : ℤ
  pub credentials_secret_ref : SecretRef

pub record ProxySqlEndpoint : Type 0 where
  pub host : String
  pub admin_port : ℤ
  pub credentials_secret_ref : SecretRef

pub record ProxySqlSelectorConfig : Type 0 where
  pub namespace : String
  pub match_labels : List (String × String)
  pub admin_port : ℤ
  pub credentials_secret_ref : SecretRef

pub record HealthCheckConfig : Type 0 where
  pub interval : Duration
  pub failure_threshold : ℤ
  pub mysql_check_timeout : Duration
  pub proxysql_min_healthy : ℤ
  pub gtid_lag_alert_threshold_transactions : ℤ
  pub remote_unreachable_threshold : ℤ

pub record SwitchoverConfig : Type 0 where
  pub timeout : Duration
  pub drain_timeout : Duration
  pub fence_timeout : Duration
  pub crd_apply_retries : ℤ
  pub cooldown_period : Duration
  pub resume_stuck_timeout : Duration
  pub blackhole_hostgroup : ℤ
  pub read_write_hostgroup : ℤ
  pub read_only_hostgroup : ℤ
  pub remote_writer_host : String
  pub remote_writer_port : ℤ
  pub local_writer_host : String

pub record PreFlightConfig : Type 0 where
  pub catchup_timeout : Duration
  pub min_binlog_retention_seconds : ℤ

pub record RecoveryConfig : Type 0 where
  pub auto_recovery_interval : Duration

pub record AutoSkipConfig : Type 0 where
  pub enabled : Bool
  pub dry_run : Bool
  pub error_code_whitelist : List ℤ
  pub max_skips_per_window : ℤ
  pub window : Duration
  pub max_skip_before_quarantine : ℤ
  pub quarantine_window : Duration
  pub history_retention : Duration

pub record ReplicationErrorHandlingConfig : Type 0 where
  pub gtid_gap_alert_threshold : ℤ
  pub auto_skip : AutoSkipConfig

pub record ClusterSwitchPolicySpec : Type 0 where
  pub cluster_role : ClusterRole
  pub pxc_namespace : String
  pub pxc_name : String
  pub replication_channel_name : String
  pub peer_replication_channel_name : String
  pub local_mysql : MySqlEndpointConfig
  pub remote_mysql : MySqlEndpointConfig
  pub proxysql : List ProxySqlEndpoint
  pub proxysql_selector : Option ProxySqlSelectorConfig
  pub health_check : HealthCheckConfig
  pub switchover : SwitchoverConfig
  pub preflight : PreFlightConfig
  pub auto_failover : Bool
  pub allow_data_loss_failover : Bool
  pub mano : Option ManoConfig
  pub remote_kube_api : Option RemoteKubeApiConfig
  pub manual_switchover_target : ManualTarget
  pub recovery : RecoveryConfig
  pub replication_error_handling : Option ReplicationErrorHandlingConfig
