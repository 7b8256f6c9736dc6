-- ===== src/Api/Status.antt =====
-- The observed state: ClusterSwitchPolicyStatus and the records in it.
use mysql_keeper.Prelude.{String, List, Bool, Option}
use mysql_keeper.Prelude.Int.{ℤ}
use mysql_keeper.Go.Time.{Time}
use mysql_keeper.Go.Error.{Message}
use mysql_keeper.Api.Spec.{ClusterRole}

-- The enumeration of `phase`; `unset` is the empty string of a new object.
pub data Phase : Type 0 where
  unset initializing monitoring switching_over rolling_back degraded error : Phase

pub record ClusterHealthStatus : Type 0 where
  pub healthy : Bool
  pub pxc_state : String
  pub pxc_ready_nodes : ℤ
  pub wsrep_cluster_size : ℤ
  pub wsrep_cluster_status : String
  pub is_writable : Bool
  pub proxysql_healthy : ℤ
  pub last_checked : Option Time
  pub message : Message

pub record SwitchoverProgress : Type 0 where
  pub attempt_id : String
  pub started_at : Time
  pub current_phase : String
  pub completed_phases : List String
  pub failed_phase : String
  pub reason : Message
  pub error : Message

pub record PreFlightCheck : Type 0 where
  pub name : String
  pub severity : String
  pub passed : Bool
  pub message : Message

pub record PreFlightStatus : Type 0 where
  pub passed_at : Time
  pub checks : List PreFlightCheck
  pub local_gtid_executed : String
  pub remote_gtid_executed : String

pub record GtidLagStatus : Type 0 where
  pub missing_transactions : ℤ
  pub lag_seconds : ℤ
  pub measured_at : Time
  pub local_gtid_executed : String
  pub remote_gtid_missing : String

pub record ReplicationErrorEntry : Type 0 where
  pub channel : String
  pub worker_id : ℤ
  pub gtid : String
  pub errno : ℤ
  pub message : String
  pub observed_at : Time

pub record SkippedTransaction : Type 0 where
  pub gtid : String
  pub errno : ℤ
  pub message : String
  pub skipped_at : Time
  pub dry_run : Bool

pub record ReplicationErrorStatus : Type 0 where
  pub last_error : Option ReplicationErrorEntry
  pub skipped_transactions : List SkippedTransaction
  pub quarantined_since : Option Time
  pub quarantine_reason : Message
  pub last_clear_annotation_value : String

-- metav1.Condition; `status` is True or False, as the controller writes it.
pub record Condition : Type 0 where
  pub kind : String
  pub status : Bool
  pub reason : String
  pub message : Message
  pub last_transition_time : Time

-- `observedGeneration` is never written, and is left out.
pub record ClusterSwitchPolicyStatus : Type 0 where
  pub active_cluster : Option ClusterRole
  pub phase : Phase
  pub local_health : ClusterHealthStatus
  pub remote_health : ClusterHealthStatus
  pub consecutive_local_failures : ℤ
  pub consecutive_remote_failures : ℤ
  pub consecutive_local_unreachable : ℤ
  pub consecutive_remote_unreachable : ℤ
  pub last_switchover_time : Option Time
  pub last_switchover_reason : Message
  pub last_degraded_recovery_attempt : Option Time
  pub last_recovery_annotation : String
  pub switchover_progress : Option SwitchoverProgress
  pub last_preflight : Option PreFlightStatus
  pub conditions : List Condition
  pub gtid_lag : Option GtidLagStatus
  pub replication_errors : Option ReplicationErrorStatus
