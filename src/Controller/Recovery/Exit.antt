-- ===== src/Controller/Recovery/Exit.antt =====
-- How a Degraded policy comes back.
use mysql_keeper.Controller.Client.{Keeps}
use mysql_keeper.Prelude.{◌≡◌, ◌≢◌, ◌⊎◌, ◌↔◌, true, Option, none, some, arith, eq_iff, false}
use mysql_keeper.Prelude.Int.{pos, ◌<ℤ◌, ◌≤ℤ◌}
use mysql_keeper.Go.Time.{Time, sub}
use mysql_keeper.Go.Error.{Outcome}
use mysql_keeper.Api.{ClusterSwitchPolicy}
use mysql_keeper.Api.Status.{monitoring}
use mysql_keeper.Health.{ClusterHealth, writable_yes}
use mysql_keeper.Controller.Client.{Kube, World, status, patch, ending, note, send}
use mysql_keeper.Controller.Recovery.{
  handle_degraded_recovery, with_status, attempted, is_restored, auto_ready, annotation_changed,
}

-- The recovery interval is on, and has passed since the last attempt, if there was one.
abbrev pub IsElapsed : Time → ClusterSwitchPolicy → Option Time → Type 0
IsElapsed now policy none = Unit
IsElapsed now policy (some last) = policy.spec.recovery.auto_recovery_interval ≤ℤ sub now last

-- An operator asks by a new value of the annotation, or the interval asks.
abbrev pub IsAsked : Time → ClusterSwitchPolicy → Type 0
IsAsked now policy =
    ((policy.metadata.recover_degraded ≢ "")
      × (policy.metadata.recover_degraded ≢ policy.status.last_recovery_annotation))
    ⊎ ((pos 0 <ℤ policy.spec.recovery.auto_recovery_interval)
        × IsElapsed now policy policy.status.last_degraded_recovery_attempt)

-- Both clusters are healthy, and exactly one of them takes writes.
abbrev pub IsRestored : ClusterHealth → ClusterHealth → Type 0
IsRestored local_h remote_h =
    (local_h.healthy ≡ true)
    × (remote_h.healthy ≡ true)
    × (((local_h.writable ≡ writable_yes) × (remote_h.writable ≢ writable_yes))
        ⊎ ((local_h.writable ≢ writable_yes) × (remote_h.writable ≡ writable_yes)))

is_restored_iff : (l r : ClusterHealth) → (is_restored l r ≡ true) ↔ IsRestored l r
unfolding is_restored
is_restored_iff l r = ground arith

IsAsked-iff :
    (now : Time) (p : ClusterSwitchPolicy)
    → IsAsked now p ↔ ((annotation_changed p ≡ true) ⊎ (auto_ready now p ≡ true))
unfolding annotation_changed auto_ready
IsAsked-iff now p = ground (
  arith,
  eq_iff p.metadata.recover_degraded "",
  eq_iff p.metadata.recover_degraded p.status.last_recovery_annotation,
)

-- What an attempt sends: the phase is Monitoring, without progress, where the clusters are
-- restored, else nothing of the two changes; either way the request is used up.
abbrev pub IsAttempt :
    Time → ClusterHealth → ClusterHealth → ClusterSwitchPolicy → ClusterSwitchPolicy → Type 0
IsAttempt now l r p sent =
    ((IsRestored l r × (sent.status.phase ≡ monitoring) × (sent.status.switchover_progress ≡ none))
      ⊎ (¬ (IsRestored l r)
          × (sent.status.phase ≡ p.status.phase)
          × (sent.status.switchover_progress ≡ p.status.switchover_progress)))
    × (annotation_changed sent ≡ false)
    × (sent.status.last_degraded_recovery_attempt ≡ some now)

with_status-IsAttempt :
    (now : Time) (l r : ClusterHealth) (p : ClusterSwitchPolicy)
    → IsAttempt now l r p (with_status (attempted now l r p) p)
unfolding attempted annotation_changed
with_status-IsAttempt now l r p = ground (
  arith,
  is_restored_iff l r,
  eq_iff p.metadata.recover_degraded "",
  eq_iff p.metadata.recover_degraded p.status.last_recovery_annotation,
  eq_iff p.metadata.recover_degraded p.metadata.recover_degraded,
)

module _ (kube : Kube) (clock now : Time) (l r : ClusterHealth) (w : World) where
  unasked_waits :
      (p : ClusterSwitchPolicy)
      → ¬ (IsAsked clock p)
      → (handle_degraded_recovery kube clock now l r p w).1 ≡ w
  unfolding handle_degraded_recovery
  unasked_waits p h = ground (arith, IsAsked-iff clock p)

  asked_sends :
      (p : ClusterSwitchPolicy)
      → IsAsked clock p
      → (handle_degraded_recovery kube clock now l r p w).1
        ≡ (send kube status p (with_status (attempted now l r p) p) w).1
  unfolding handle_degraded_recovery
  asked_sends p h = ground (arith, IsAsked-iff clock p)

  -- A recovery that nobody asks for, by a new value of the annotation or by an interval that has
  -- passed, does nothing. One that is asked for sends one patch of the status, which uses the
  -- request up and records the time of the attempt: it goes back to Monitoring without progress
  -- where both clusters are healthy and exactly one takes writes, and keeps the phase and the
  -- progress otherwise.
  pub recovery_exit :
      (p : ClusterSwitchPolicy)
      → (¬ (IsAsked clock p) → (handle_degraded_recovery kube clock now l r p w).1 ≡ w)
        × (IsAsked clock p
            → (sent : ClusterSwitchPolicy) × (answer : Outcome) × ((handle_degraded_recovery kube
                  clock now l r p w).1
                ≡ note (patch status p sent) answer w)
              × IsAttempt now l r p sent)
  recovery_exit p = (
    unasked_waits p,
    λ asked. (
      with_status (attempted now l r p) p,
      ending (kube.answer_patch w.log status p (with_status (attempted now l r p) p)),
      asked_sends p asked,
      with_status-IsAttempt now l r p,
    ),
  )

-- No switchover is run.
pub handle_degraded-Keeps :
    (kube : Kube) (clock now : Time) (l r : ClusterHealth) (p : ClusterSwitchPolicy)
    → Keeps (handle_degraded_recovery kube clock now l r p)
unfolding handle_degraded_recovery
handle_degraded-Keeps kube clock now l r p w h = ground (arith, h)
