-- ===== src/Controller/Decision/Criteria.antt =====
-- The decision against a description of when a flip is allowed.
use mysql_keeper.Prelude.{◌≡◌, ◌≢◌, ◌↔◌, ◌⊎◌, Option, none, some, true, arith}
use mysql_keeper.Prelude.Int.{pos, ◌≤ℤ◌, ◌<ℤ◌}
use mysql_keeper.Go.Time.{Time, Duration, sub}
use mysql_keeper.Api.{ClusterSwitchPolicy}
use mysql_keeper.Api.Spec.{promote_remote}
use mysql_keeper.Health.{ClusterHealth, writable_no}
use mysql_keeper.Controller.Decision.{
  SwitchoverDecision, cooldown_of, cooldown_gate, after_cooldown, auto_path, local_path,
  evaluate_switchover,
}

-- Less than the cooldown has gone by since the last switchover.
abbrev IsCoolingSince : Option Time → Duration → Time → Type 0
IsCoolingSince none period now = ⊥
IsCoolingSince (some last) period now = sub now last <ℤ period

abbrev pub IsCooling : ClusterSwitchPolicy → Time → Type 0
IsCooling policy now = IsCoolingSince policy.status.last_switchover_time (cooldown_of policy) now

abbrev pub IsManual : ClusterSwitchPolicy → Type 0
IsManual policy = policy.spec.manual_switchover_target ≡ promote_remote

-- The remote cluster has been silent for the configured number of cycles.
abbrev pub IsRemoteGone : ClusterSwitchPolicy → Type 0
IsRemoteGone policy =
    (pos 0 <ℤ policy.spec.health_check.remote_unreachable_threshold)
    × (policy.spec.health_check.remote_unreachable_threshold
        ≤ℤ policy.status.consecutive_remote_unreachable)

-- One of the two local counters has reached the threshold.
abbrev pub IsLocalDown : ClusterSwitchPolicy → Type 0
IsLocalDown policy =
    (policy.spec.health_check.failure_threshold ≤ℤ policy.status.consecutive_local_failures)
    ⊎ (policy.spec.health_check.failure_threshold ≤ℤ policy.status.consecutive_local_unreachable)

-- The remote cluster is a healthy replica, and the local one is not known to be read-only too.
abbrev pub IsPromotable : ClusterHealth → ClusterHealth → Type 0
IsPromotable local_h remote_h =
    (remote_h.writable ≡ writable_no) × (remote_h.healthy ≡ true) × (local_h.writable ≢ writable_no)

-- When the automatic path flips: with the remote gone only by leave to lose data, otherwise for a
-- local failure onto a promotable remote.
abbrev pub MayFailOver : ClusterSwitchPolicy → ClusterHealth → ClusterHealth → Type 0
MayFailOver policy local_h remote_h =
    (policy.spec.auto_failover ≡ true)
    × ((IsRemoteGone policy × (policy.spec.allow_data_loss_failover ≡ true))
        ⊎ (¬ (IsRemoteGone policy) × IsLocalDown policy × IsPromotable local_h remote_h))

module _ (policy : ClusterSwitchPolicy) (local_h remote_h : ClusterHealth) where
  local_path-should_iff :
      ((local_path policy local_h remote_h).should ≡ true)
      ↔ (IsLocalDown policy × IsPromotable local_h remote_h)
  unfolding local_path
  local_path-should_iff = ground arith

  auto_path-should_iff :
      ((auto_path policy local_h remote_h).should ≡ true) ↔ MayFailOver policy local_h remote_h
  unfolding auto_path
  auto_path-should_iff = ground (arith, local_path-should_iff)

  after_cooldown-should_iff :
      ((after_cooldown policy local_h remote_h).should ≡ true)
      ↔ (IsManual policy ⊎ MayFailOver policy local_h remote_h)
  unfolding after_cooldown
  after_cooldown-should_iff = ground (arith, auto_path-should_iff)

cooldown_gate-should_iff :
    (last : Option Time) (period : Duration) (now : Time) (d : SwitchoverDecision)
    → ((cooldown_gate last period now d).should ≡ true)
      ↔ (¬ (IsCoolingSince last period now) × (d.should ≡ true))
unfolding cooldown_gate
cooldown_gate-should_iff none period now d = ground arith
cooldown_gate-should_iff (some last) period now d = ground arith

-- The controller decides to flip exactly when it is not in the cooldown and either a manual
-- switchover is requested or the automatic path allows it: automatic failover is on, and either the
-- remote cluster has been unreachable up to its threshold and data loss is allowed, or it has not,
-- one of the two local counters has reached the failure threshold, the remote cluster is healthy
-- and read-only, and the local one is not known to be read-only.
pub evaluate-should_iff :
    (policy : ClusterSwitchPolicy) (local_h remote_h : ClusterHealth) (now : Time)
    → ((evaluate_switchover policy local_h remote_h now).should ≡ true)
      ↔ (¬ (IsCooling policy now) × (IsManual policy ⊎ MayFailOver policy local_h remote_h))
unfolding evaluate_switchover
evaluate-should_iff policy local_h remote_h now =
    let gate =
      cooldown_gate-should_iff policy.status.last_switchover_time (cooldown_of policy) now
        (after_cooldown policy local_h remote_h) in
    let rest = after_cooldown-should_iff policy local_h remote_h in
    (λ h. ((gate.0 h).0, rest.0 (gate.0 h).1), λ h. gate.1 (h.0, rest.1 h.1))
