-- ===== src/Controller/HealthStatus/Counters.antt =====
-- What the counters and the active cluster are after a sequence of cycles.
use mysql_keeper.Prelude.{
  ℕ, suc, ◌+◌, ◌≤◌, ◌≡◌, ◌≢◌, ◌↔◌, ap, List, [], ◌∷◌, none, some, true, false, arith, length, All,
  ◌⊎◌,
}
use mysql_keeper.Prelude.Int.{pos, ◌+ℤ◌, wrap}
use mysql_keeper.Go.Time.{Time}
use mysql_keeper.Api.Spec.{ClusterRole}
use mysql_keeper.Api.Status.{ClusterSwitchPolicyStatus}
use mysql_keeper.Health.{ClusterHealth, writable_unknown, writable_yes}
use mysql_keeper.Controller.HealthStatus.{update_status, increment, other_role}

-- One cycle: its time and its two snapshots.
pub record Cycle : Type 0 where
  pub now : Time
  pub local_h : ClusterHealth
  pub remote_h : ClusterHealth

unfoldable pub after_cycles :
    ClusterRole → List Cycle → ClusterSwitchPolicyStatus → ClusterSwitchPolicyStatus
after_cycles role [] s = s
after_cycles role (c ∷ cs) s =
    after_cycles role cs (update_status role c.now c.local_h c.remote_h s)

-- The local cluster did not answer.
abbrev pub IsLocalSilent : Cycle → Type 0
IsLocalSilent c = (c.local_h.healthy ≡ false) × (c.local_h.writable ≡ writable_unknown)

increment_pos : (n : ℕ) → suc n ≤ 2147483647 → increment (pos n) ≡ pos (suc n)
unfolding ◌+ℤ◌ wrap
increment_pos n h = ground arith

silent_step :
    (role : ClusterRole) (c : Cycle) (s : ClusterSwitchPolicyStatus) (n : ℕ)
    → IsLocalSilent c
    → s.consecutive_local_unreachable ≡ pos n
    → suc n ≤ 2147483647
    → (update_status role c.now c.local_h c.remote_h s).consecutive_local_unreachable ≡ pos (suc n)
unfolding update_status
silent_step role c s n silent start fits = ground (arith, increment_pos n)

-- A cycle with an unhealthy local cluster of unknown writability adds one to the counter of
-- unreachable cycles, so that a sequence of such cycles adds its length, as long as the sum is an
-- int32.
pub silence_counts :
    (role : ClusterRole) (cs : List Cycle) (s : ClusterSwitchPolicyStatus) (n : ℕ)
    → All IsLocalSilent cs
    → s.consecutive_local_unreachable ≡ pos n
    → n + length cs ≤ 2147483647
    → (after_cycles role cs s).consecutive_local_unreachable ≡ pos (n + length cs)
unfolding after_cycles
silence_counts role [] s n h start fits = rw start (ap pos (omega arith))
silence_counts role (c ∷ cs) s n h start fits =
    rw
      (silence_counts role cs (update_status role c.now c.local_h c.remote_h s) (suc n) h.1
        (silent_step role c s n h.0 start (omega arith)) (omega arith))
      (ap pos (omega arith))

-- A healthy local snapshot resets both local counters; an unhealthy one of unknown writability adds
-- one to the counter of unreachable cycles and keeps the other; any other unhealthy one adds one to
-- the counter of failures and keeps the other.
pub local_counters :
    (role : ClusterRole) (now : Time) (local_h remote_h : ClusterHealth)
    (s : ClusterSwitchPolicyStatus)
    → let t = update_status role now local_h remote_h s in
      ((local_h.healthy ≡ true)
        × (t.consecutive_local_failures ≡ pos 0)
        × (t.consecutive_local_unreachable ≡ pos 0))
      ⊎ ((local_h.healthy ≡ false)
          × (local_h.writable ≡ writable_unknown)
          × (t.consecutive_local_failures ≡ s.consecutive_local_failures)
          × (t.consecutive_local_unreachable ≡ increment s.consecutive_local_unreachable))
      ⊎ ((local_h.healthy ≡ false)
          × (local_h.writable ≢ writable_unknown)
          × (t.consecutive_local_failures ≡ increment s.consecutive_local_failures)
          × (t.consecutive_local_unreachable ≡ s.consecutive_local_unreachable))
unfolding update_status
local_counters role now local_h remote_h s = ground arith

-- For a local snapshot whose two writability fields agree: after a cycle the active cluster is the
-- local one if the local one is writable, and it is the other one only if it was so before, or if
-- it was unknown, the remote snapshot is writable and the local one is not.
pub active_cluster_lem :
    (role : ClusterRole) (now : Time) (local_h remote_h : ClusterHealth)
    (s : ClusterSwitchPolicyStatus)
    → ((local_h.is_writable ≡ true) ↔ (local_h.writable ≡ writable_yes))
    → let t = update_status role now local_h remote_h s in
      ((local_h.writable ≡ writable_yes) → t.active_cluster ≡ some role)
      × ((t.active_cluster ≡ some (other_role role))
          → (s.active_cluster ≡ some (other_role role))
            ⊎ ((s.active_cluster ≡ none)
                × (remote_h.is_writable ≡ true)
                × (local_h.is_writable ≡ false)))
unfolding update_status
active_cluster_lem role now local_h remote_h s agree = ground arith
