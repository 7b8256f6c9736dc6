-- ===== src/Controller/LeaseTtl.antt =====
-- leaseTTL of clusterswitchpolicy_controller.go: how long the peer's silence is tolerated.
mod Tests
use mysql_keeper.Prelude.{ℕ, ◌*◌, ◌≤◌, ◌≡◌, refl, true, false, if◌then◌else◌, arith}
use mysql_keeper.Prelude.Int.{ℤ, pos, ◌+ℤ◌, ◌≤ℤ◌, leb_ℤ, ltb_ℤ, wrap64, wrap64_self}
use mysql_keeper.Go.Time.{Time, Duration, sub}
use mysql_keeper.Api.{ClusterSwitchPolicy}
use mysql_keeper.Lease.{LeaderLease, expired}

-- `interval * 3` on an int64
abbrev tripled : Duration → Duration
tripled d = wrap64 (d +ℤ d +ℤ d)

abbrev interval_of : ClusterSwitchPolicy → Duration
interval_of policy =
    let interval = policy.spec.health_check.interval in
    if leb_ℤ interval (pos 0) then pos 15000000000 else interval

unfoldable pub lease_ttl : ClusterSwitchPolicy → Duration
lease_ttl policy =
    let ttl = tripled (interval_of policy) in
    if ltb_ℤ ttl (pos 30000000000) then pos 30000000000 else ttl

thrice : (n : ℕ) → pos n +ℤ pos n +ℤ pos n ≡ pos (n * 3)
unfolding ◌+ℤ◌
thrice n = ground arith

tripled_pos : (n : ℕ) → n * 3 ≤ 9223372036854775807 → tripled (pos n) ≡ pos (n * 3)
tripled_pos n fits = rw (thrice n) (wrap64_self (pos (n * 3)) (omega arith, omega arith))

-- For a health check interval that is not negative and whose threefold is an int64: a lease whose
-- heartbeat is at most three intervals old is not expired under the time to live of the policy.
pub lease_ttl-tolerates :
    (policy : ClusterSwitchPolicy) (n : ℕ) (l : LeaderLease) (now : Time)
    → policy.spec.health_check.interval ≡ pos n
    → n * 3 ≤ 9223372036854775807
    → sub now l.heartbeat_at ≤ℤ pos (n * 3)
    → expired l now (lease_ttl policy) ≡ false
unfolding lease_ttl
lease_ttl-tolerates policy n l now same fits fresh = ground (arith, tripled_pos n)
