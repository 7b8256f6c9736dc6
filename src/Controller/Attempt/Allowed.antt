-- ===== src/Controller/Attempt/Allowed.antt =====
-- What decideSwitchover asks for before it lets a switchover start.
use mysql_keeper.Prelude.{
  String, ◌≡◌, ◌⊎◌, inl, inr, Option, none, some, true, false, arith, eq_iff, is_some, Bool-cases,
}
use mysql_keeper.Prelude.Int.{◌<ℤ◌}
use mysql_keeper.Go.Time.{Time, Duration, sub}
use mysql_keeper.Go.Error.{Message, Result, ok, err, is_no_rows}
use mysql_keeper.Api.{ClusterSwitchPolicy}
use mysql_keeper.Health.{ClusterHealth}
use mysql_keeper.Lease.{LeaderLease, check_peer_lease}
use mysql_keeper.Controller.Decision.{evaluate_switchover}
use mysql_keeper.Controller.Decision.Criteria.{
  IsCooling, IsManual, MayFailOver, evaluate-should_iff,
}
use mysql_keeper.Controller.LeaseTtl.{lease_ttl}
use mysql_keeper.Controller.Attempt.{decide_switchover, controller_owner_id}

-- The lease on the peer stands in no way: there is no tracker or no row, or the row is the
-- controller's own, or its heartbeat is older than the ttl.
abbrev pub IsGateOpen : Option (Result LeaderLease) → Time → Duration → String → Type 0
IsGateOpen none now ttl self = Unit
IsGateOpen (some (err e)) now ttl self = is_no_rows e ≡ true
IsGateOpen (some (ok l)) now ttl self = (l.owner ≡ self) ⊎ (ttl <ℤ sub now l.heartbeat_at)

gate_open :
    (peer : Option (Result LeaderLease)) (now : Time) (ttl : Duration) (self : String)
    → is_some (check_peer_lease peer now ttl self) ≡ false
    → IsGateOpen peer now ttl self
unfolding check_peer_lease
gate_open none now ttl self h = tt
gate_open (some (err e)) now ttl self h = ground arith
gate_open (some (ok l)) now ttl self h = ground (arith, eq_iff l.owner self)

-- Not in the cooldown, asked for by hand or by the state of the clusters, and past the peer's gate.
abbrev pub IsAllowed :
    Time
    → Time
    → Option (Result LeaderLease)
    → ClusterHealth
    → ClusterHealth
    → ClusterSwitchPolicy
    → Type 0
IsAllowed clock now peer local_h remote_h policy =
    ¬ (IsCooling policy clock)
    × (IsManual policy ⊎ MayFailOver policy local_h remote_h)
    × IsGateOpen peer now (lease_ttl policy) (controller_owner_id policy)

pub decide-IsAllowed :
    (clock now : Time) (peer : Option (Result LeaderLease)) (local_h remote_h : ClusterHealth)
    (policy : ClusterSwitchPolicy) (reason : Message)
    → decide_switchover clock now peer local_h remote_h policy ≡ some reason
    → IsAllowed clock now peer local_h remote_h policy
unfolding decide_switchover
decide-IsAllowed clock now peer local_h remote_h policy reason h =
    let d = evaluate_switchover policy local_h remote_h clock in
    let gate = check_peer_lease peer now (lease_ttl policy) (controller_owner_id policy) in
    elim (Bool-cases d.should) [
      | inr stays ↦ absurd (cc (simp (stays) at h))
      | inl flips ↦ elim (Bool-cases (is_some gate)) [
        | inl shut ↦ absurd (cc (simp (flips, shut) at h))
        | inr unshut ↦
            let (cool, wanted) = (evaluate-should_iff policy local_h remote_h clock).0 flips in
            (
              cool,
              wanted,
              gate_open peer now (lease_ttl policy) (controller_owner_id policy) unshut,
            )
      ]
    ]
