-- ===== src/Controller/Decision/Sustained.antt =====
-- From a silent local cluster to the decision to fail over.
use mysql_keeper.Prelude.{ℕ, ◌+◌, ◌≤◌, ◌≡◌, ◌∙◌, refl, List, [], ◌∷◌, true, inr, length, All, arith}
use mysql_keeper.Prelude.Int.{pos}
use mysql_keeper.Go.Time.{Time}
use mysql_keeper.Api.{ClusterSwitchPolicy}
use mysql_keeper.Api.Spec.{ClusterRole}
use mysql_keeper.Api.Status.{ClusterSwitchPolicyStatus}
use mysql_keeper.Health.{ClusterHealth}
use mysql_keeper.Controller.HealthStatus.{update_status}
use mysql_keeper.Controller.HealthStatus.Counters.{
  Cycle, after_cycles, IsLocalSilent, silence_counts,
}
use mysql_keeper.Controller.Decision.{evaluate_switchover, cooldown_of}
use mysql_keeper.Controller.Decision.Criteria.{IsCooling, IsPromotable, evaluate-should_iff}

-- The policy after the cycles.
abbrev pub policy_after : List Cycle → ClusterSwitchPolicy → ClusterSwitchPolicy
policy_after cs policy = record policy {
  status = after_cycles policy.spec.cluster_role cs policy.status;
}

last_switchover-update :
    (role : ClusterRole) (c : Cycle) (s : ClusterSwitchPolicyStatus)
    → (update_status role c.now c.local_h c.remote_h s).last_switchover_time
      ≡ s.last_switchover_time
unfolding update_status
last_switchover-update role c s = ground arith

last_switchover-after :
    (role : ClusterRole) (cs : List Cycle) (s : ClusterSwitchPolicyStatus)
    → (after_cycles role cs s).last_switchover_time ≡ s.last_switchover_time
unfolding after_cycles
last_switchover-after role [] s = refl
last_switchover-after role (c ∷ cs) s =
    last_switchover-after role cs (update_status role c.now c.local_h c.remote_h s)
    ∙ last_switchover-update role c s

-- With automatic failover on, the path for an unreachable remote off and no cooldown running: once
-- the local cluster has been unreachable in as many cycles as the failure threshold asks for, those
-- that the status counted before included, and the remote cluster is healthy and read-only with the
-- local one not known to be read-only, the controller decides to fail over.
pub sustained_silence_flips :
    (policy : ClusterSwitchPolicy) (cs : List Cycle) (n t : ℕ) (local_h remote_h : ClusterHealth)
    (now : Time)
    → policy.spec.auto_failover ≡ true
    → policy.spec.health_check.remote_unreachable_threshold ≡ pos 0
    → policy.spec.health_check.failure_threshold ≡ pos t
    → policy.status.consecutive_local_unreachable ≡ pos n
    → All IsLocalSilent cs
    → n + length cs ≤ 2147483647
    → t ≤ n + length cs
    → ¬ (IsCooling policy now)
    → IsPromotable local_h remote_h
    → (evaluate_switchover (policy_after cs policy) local_h remote_h now).should ≡ true
unfolding cooldown_of
sustained_silence_flips policy cs n t local_h remote_h now auto off thr start silent fits enough
      ready fine =
    let counted = silence_counts policy.spec.cluster_role cs policy.status n silent start fits in
    let same = last_switchover-after policy.spec.cluster_role cs policy.status in
    (evaluate-should_iff (policy_after cs policy) local_h remote_h now).1 (
      rw same ready,
      inr (
        auto,
        inr (
          λ gone. absurd (omega (arith, (rw off at gone.0))),
          inr (rw (thr, counted) (omega arith)),
          fine,
        ),
      ),
    )
