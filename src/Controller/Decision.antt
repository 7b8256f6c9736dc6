-- ===== src/Controller/Decision.antt =====
-- internal/controller/decision.go: should the controller flip now? A pure function of the policy,
-- the two snapshots and the clock. `Blocker` is the metric's label; a reason is the printed text.
pub mod Criteria
pub mod Sustained
mod Tests
use mysql_keeper.Prelude.{
  List, [], ◌∷◌, ◌++◌, Bool, true, false, Option, none, some, if◌then◌else◌, ◌&&◌, not,
}
use mysql_keeper.Prelude.Int.{ℤ, pos, leb_ℤ, ltb_ℤ}
use mysql_keeper.Go.Time.{Time, Duration, minute, sub}
use mysql_keeper.Go.Error.{Message, text, number, span}
use mysql_keeper.Api.{ClusterSwitchPolicy}
use mysql_keeper.Api.Spec.{ManualTarget, unset, promote_remote}
use mysql_keeper.Health.{ClusterHealth, writable_eq, writable_no, writable_text}

pub data Blocker : Type 0 where
  no_blocker cooldown remote_unreachable_dataloss_guard both_readonly remote_unsafe : Blocker
  remote_unhealthy : Blocker

pub record SwitchoverDecision : Type 0 where
  pub should : Bool
  pub reason : Message
  pub blocker : Blocker

abbrev refuse : Blocker → Message → SwitchoverDecision
refuse b m = record { should = false; reason = m; blocker = b }

abbrev accept : Message → SwitchoverDecision
accept m = record { should = true; reason = m; blocker = no_blocker }

abbrev pub is_manual : ManualTarget → Bool
is_manual unset = false
is_manual promote_remote = true

-- The configured period, or ten minutes.
unfoldable pub cooldown_of : ClusterSwitchPolicy → Duration
cooldown_of policy =
    let cooldown = policy.spec.switchover.cooldown_period in
    if leb_ℤ cooldown (pos 0) then pos 600000000000 else cooldown

-- The text of the last branch of step 3b: which counter tripped, and by how much.
local_reason : ℤ → ℤ → ℤ → Message
local_reason threshold failures unreach =
    let only_unreachable = leb_ℤ threshold unreach && ltb_ℤ failures threshold in
    let trigger = if only_unreachable then "unreachable" else "unhealthy" in
    let worst =
      if only_unreachable then unreach else if ltb_ℤ failures unreach then unreach else failures in
    text "automatic failover: local "
    ∷ text trigger
    ∷ text " for "
    ∷ number worst
    ∷ text " consecutive checks (failures="
    ∷ number failures
    ∷ text " unreachable="
    ∷ number unreach
    ∷ text " threshold="
    ∷ number threshold
    ∷ text ")"
    ∷ []

-- Step 3b: the local failure path, after the automatic path is known to be enabled.
local_path : ClusterSwitchPolicy → ClusterHealth → ClusterHealth → SwitchoverDecision
local_path policy local_h remote_h =
    let threshold = policy.spec.health_check.failure_threshold in
    let failures = policy.status.consecutive_local_failures in
    let unreach = policy.status.consecutive_local_unreachable in
    if ltb_ℤ failures threshold && ltb_ℤ unreach threshold
    then refuse no_blocker (
        text "local ok: failures="
        ∷ number failures
        ∷ text " unreachable="
        ∷ number unreach
        ∷ text " (threshold="
        ∷ number threshold
        ∷ text " on both)"
        ∷ [])
    else if writable_eq local_h.writable writable_no && writable_eq remote_h.writable writable_no
    then refuse both_readonly
        (text "both clusters ReadOnly — cluster-wide incident, manual triage required" ∷ [])
    else if not (writable_eq remote_h.writable writable_no)
    then refuse remote_unsafe
        (text "remote not safe to promote: writable=" ∷ text (writable_text remote_h.writable) ∷ [])
    else if not remote_h.healthy
    then refuse remote_unhealthy (text "remote unhealthy: " ∷ remote_h.message)
    else accept (local_reason threshold failures unreach)

-- Step 3: the automatic paths.
auto_path : ClusterSwitchPolicy → ClusterHealth → ClusterHealth → SwitchoverDecision
auto_path policy local_h remote_h =
    let threshold = policy.spec.health_check.remote_unreachable_threshold in
    let count = policy.status.consecutive_remote_unreachable in
    if not policy.spec.auto_failover
    then refuse no_blocker (text "autoFailover disabled and no manual trigger set" ∷ [])
    else if ltb_ℤ (pos 0) threshold && leb_ℤ threshold count
    then if not policy.spec.allow_data_loss_failover
      then refuse remote_unreachable_dataloss_guard (
          text "remote unreachable for "
          ∷ number count
          ∷ text " consecutive checks (threshold="
          ∷ number threshold
          ∷ text
              ") but AllowDataLossFailover=false — enable it to allow auto-promotion without GTID verification"
          ∷ [])
      else accept (
          text "automatic failover: remote sustained-unreachable for "
          ∷ number count
          ∷ text " consecutive checks (threshold="
          ∷ number threshold
          ∷ text ")"
          ∷ [])
    else local_path policy local_h remote_h

-- Steps 2 and 3, outside the cooldown.
after_cooldown : ClusterSwitchPolicy → ClusterHealth → ClusterHealth → SwitchoverDecision
after_cooldown policy local_h remote_h =
    if is_manual policy.spec.manual_switchover_target
    then accept (text "manual switchover requested via spec.manualSwitchoverTarget" ∷ [])
    else auto_path policy local_h remote_h

-- Step 1, on the time of the last switchover.
cooldown_gate : Option Time → Duration → Time → SwitchoverDecision → SwitchoverDecision
cooldown_gate none cooldown_period now d = d
cooldown_gate (some last) cooldown_period now d =
    let since = sub now last in
    if ltb_ℤ since cooldown_period
    then refuse cooldown (
        text "cooldown active (sinceLast="
        ∷ span since
        ∷ text " < cooldown="
        ∷ span cooldown_period
        ∷ text ")"
        ∷ [])
    else d

unfoldable pub evaluate_switchover :
    ClusterSwitchPolicy → ClusterHealth → ClusterHealth → Time → SwitchoverDecision
unfolding cooldown_gate after_cooldown auto_path local_path local_reason
evaluate_switchover policy local_h remote_h now =
    cooldown_gate policy.status.last_switchover_time (cooldown_of policy) now
      (after_cooldown policy local_h remote_h)
