-- ===== src/Controller/LeaseTtl/Tests.antt =====
-- The time to live of a concrete policy.
use mysql_keeper.Prelude.{◌≡◌, refl, false, arith}
use mysql_keeper.Prelude.Int.{pos, ◌-ℤ◌, ◌≤ℤ◌}
use mysql_keeper.Go.Time.{sub}
use mysql_keeper.Lease.{LeaderLease, expired}
use mysql_keeper.Controller.LeaseTtl.{lease_ttl, lease_ttl-tolerates}
use mysql_keeper.Controller.Samples.{sample_policy}

abbrev beat : LeaderLease
beat = record { owner = "dc"; epoch = pos 1; acquired_at = pos 0; heartbeat_at = pos 5000000000 }

-- Thirty seconds later, at an interval of ten.
beat-late : sub (pos 35000000000) (pos 5000000000) ≤ℤ pos 30000000000
unfolding sub ◌-ℤ◌
beat-late = omega arith

lease_ttl-tolerates_example : expired beat (pos 35000000000) (lease_ttl sample_policy) ≡ false
lease_ttl-tolerates_example =
    lease_ttl-tolerates sample_policy 10000000000 beat (pos 35000000000) refl (omega arith)
      beat-late
