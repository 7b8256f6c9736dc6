-- ===== src/Controller/HealthStatus.antt =====
-- internal/controller/clusterswitchpolicy_controller.go: what one cycle's snapshots do to the
-- status (updateHealthStatus), counters and the active cluster included.
pub mod Counters
use mysql_keeper.Prelude.{Bool, true, false, Option, none, some, if◌then◌else◌, ◌&&◌}
use mysql_keeper.Prelude.Int.{ℤ, pos, ◌+ℤ◌, wrap32}
use mysql_keeper.Go.Time.{Time}
use mysql_keeper.Api.{ClusterSwitchPolicy}
use mysql_keeper.Api.Spec.{ClusterRole, dc, dr}
use mysql_keeper.Api.Status.{ClusterSwitchPolicyStatus, ClusterHealthStatus}
use mysql_keeper.Health.{ClusterHealth, writable_eq, writable_unknown, writable_yes}

-- `n++` on an int32
abbrev pub increment : ℤ → ℤ
increment n = wrap32 (n +ℤ pos 1)

abbrev pub other_role : ClusterRole → ClusterRole
other_role dc = dr
other_role dr = dc

abbrev pub role_eq : ClusterRole → ClusterRole → Bool
role_eq dc dc = true
role_eq dr dr = true
role_eq _ _ = false

local_status : Time → ClusterHealth → ClusterHealthStatus
local_status now h = record {
  healthy = h.healthy;
  pxc_state = h.pxc_state;
  pxc_ready_nodes = h.pxc_ready_nodes;
  wsrep_cluster_size = h.wsrep_cluster_size;
  wsrep_cluster_status = h.wsrep_cluster_status;
  is_writable = h.is_writable;
  proxysql_healthy = h.proxysql_healthy;
  last_checked = some now;
  message = h.message;
}

remote_status : Time → ClusterHealth → ClusterHealthStatus
remote_status now h = record {
  healthy = h.healthy;
  pxc_state = "";
  pxc_ready_nodes = pos 0;
  wsrep_cluster_size = h.wsrep_cluster_size;
  wsrep_cluster_status = h.wsrep_cluster_status;
  is_writable = h.is_writable;
  proxysql_healthy = pos 0;
  last_checked = some now;
  message = h.message;
}

-- The first `switch`.
count_local : ClusterHealth → ClusterSwitchPolicyStatus → ClusterSwitchPolicyStatus
count_local h s =
    if h.healthy
    then record s { consecutive_local_failures = pos 0; consecutive_local_unreachable = pos 0 }
    else if writable_eq h.writable writable_unknown
    then record s { consecutive_local_unreachable = increment s.consecutive_local_unreachable }
    else record s { consecutive_local_failures = increment s.consecutive_local_failures }

-- The second `switch`.
count_remote : ClusterHealth → ClusterSwitchPolicyStatus → ClusterSwitchPolicyStatus
count_remote h s =
    if h.healthy
    then record s { consecutive_remote_failures = pos 0; consecutive_remote_unreachable = pos 0 }
    else if writable_eq h.writable writable_unknown
    then record s { consecutive_remote_unreachable = increment s.consecutive_remote_unreachable }
    else record s {
      consecutive_remote_failures = increment s.consecutive_remote_failures;
      consecutive_remote_unreachable = pos 0;
    }

-- The active cluster is guessed while it is unknown, and then corrected when the local cluster
-- is writable.
guess_active : ClusterRole → ClusterHealth → ClusterHealth → Option ClusterRole
guess_active role local_h remote_h =
    if local_h.is_writable
    then some role
    else if remote_h.is_writable
    then some (other_role role)
    else none

correct_active : ClusterRole → ClusterHealth → Option ClusterRole → Option ClusterRole
correct_active role local_h none = none
correct_active role local_h (some active) =
    if writable_eq local_h.writable writable_yes then some role else some active

active_after : ClusterRole → ClusterHealth → ClusterHealth → Option ClusterRole → Option ClusterRole
unfolding guess_active correct_active
active_after role local_h remote_h none =
    correct_active role local_h (guess_active role local_h remote_h)
active_after role local_h remote_h (some active) = correct_active role local_h (some active)

unfoldable pub update_status :
    ClusterRole
    → Time
    → ClusterHealth
    → ClusterHealth
    → ClusterSwitchPolicyStatus
    → ClusterSwitchPolicyStatus
unfolding local_status remote_status count_local count_remote active_after
update_status role now local_h remote_h s =
    let t = record s {
      local_health = local_status now local_h;
      remote_health = remote_status now remote_h;
    } in
    let u = count_remote remote_h (count_local local_h t) in
    record u { active_cluster = active_after role local_h remote_h u.active_cluster }

unfoldable pub update_health_status :
    Time → ClusterHealth → ClusterHealth → ClusterSwitchPolicy → ClusterSwitchPolicy
unfolding update_status
update_health_status now local_h remote_h policy = record policy {
  status = update_status policy.spec.cluster_role now local_h remote_h policy.status;
}
