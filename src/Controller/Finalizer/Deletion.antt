-- ===== src/Controller/Finalizer/Deletion.antt =====
-- When a policy that is being deleted is let go.
use mysql_keeper.Controller.Client.{Keeps}
use mysql_keeper.Controller.Finalizer.{ensure_finalizer}
use mysql_keeper.Prelude.{String, List, ◌≡◌, ◌≢◌, ◌⊎◌, ◌↔◌, true, Option, none, some, arith, false}
use mysql_keeper.Prelude.Int.{pos, ◌<ℤ◌, ◌≤ℤ◌}
use mysql_keeper.Go.Time.{Time, sub}
use mysql_keeper.Go.Error.{ok, Result, done}
use mysql_keeper.Api.{ClusterSwitchPolicy}
use mysql_keeper.Api.Status.{switching_over, SwitchoverProgress}
use mysql_keeper.Controller.Client.{
  Kube, World, object, patch, ending, note, no_requeue, requeue_after, Requeue,
}
use mysql_keeper.Controller.Finalizer.{
  handle_deletion, is_finalized, cluster_switch_finalizer, started_within, stuck_limit, release,
}

-- The attempt of the status started less than the limit ago: the configured one if it is positive,
-- else ten minutes.
abbrev pub IsRecent : Time → ClusterSwitchPolicy → Option SwitchoverProgress → Type 0
IsRecent now policy none = ⊥
IsRecent now policy (some prog) =
    let limit = policy.spec.switchover.resume_stuck_timeout in
    ((pos 0 <ℤ limit) × (sub now prog.started_at <ℤ limit))
    ⊎ ((limit ≤ℤ pos 0) × (sub now prog.started_at <ℤ pos 600000000000))

-- A switchover is under way, and not for longer than it may take.
abbrev pub IsInFlight : Time → ClusterSwitchPolicy → Type 0
IsInFlight now policy =
    (policy.status.phase ≡ switching_over) × IsRecent now policy policy.status.switchover_progress

-- What controllerutil documents of RemoveFinalizer: the finalizer is gone, and the others stay.
pub record RemovesFinalizers (kube : Kube) : Type 0 where
  pub gone :
      (fs : List String) (f : String)
      → kube.contains_finalizer (kube.remove_finalizer fs f) f ≡ false
  pub others :
      (fs : List String) (f g : String)
      → g ≢ f
      → kube.contains_finalizer (kube.remove_finalizer fs f) g ≡ kube.contains_finalizer fs g

-- One patch was sent, of the policy without the finalizer and with all else as it was, and the call
-- succeeds exactly when the patch does.
abbrev pub IsReleased : Kube → World → ClusterSwitchPolicy → Result Requeue × World → Type 0
IsReleased kube w policy (r, w') =
    (fs : List String) × (kube.contains_finalizer fs cluster_switch_finalizer ≡ false)
    × ((g : String)
        → g ≢ cluster_switch_finalizer
        → kube.contains_finalizer fs g ≡ kube.contains_finalizer policy.metadata.finalizers g)
    × (let sent = record policy { metadata = record policy.metadata { finalizers = fs } } in
        let answer = kube.answer_patch w.log object policy sent in
        (w' ≡ note (patch object policy sent) (ending answer) w)
        × ((r ≡ ok no_requeue) ↔ (ending answer ≡ done)))

-- The answers of a deletion: nothing holds the policy, a switchover does, or it is released.
abbrev pub DeletionCases :
    Kube → Time → World → ClusterSwitchPolicy → Result Requeue × World → Type 0
DeletionCases kube now w policy (r, w') =
    ((is_finalized kube policy ≡ false) × (r ≡ ok no_requeue) × (w' ≡ w))
    ⊎ ((is_finalized kube policy ≡ true)
        × IsInFlight now policy
        × (r ≡ ok (requeue_after (pos 15000000000)))
        × (w' ≡ w))
    ⊎ ((is_finalized kube policy ≡ true)
        × ¬ (IsInFlight now policy)
        × IsReleased kube w policy (r, w'))

IsRecent-iff :
    (now : Time) (policy : ClusterSwitchPolicy) (prog : Option SwitchoverProgress)
    → (started_within now (stuck_limit policy) prog ≡ true) ↔ IsRecent now policy prog
IsRecent-iff now policy none = ground arith
IsRecent-iff now policy (some prog) = ground arith

module _ (kube : Kube) (laws : RemovesFinalizers kube) (now : Time) (w : World) where
  release-IsReleased :
      (policy : ClusterSwitchPolicy) → IsReleased kube w policy (release kube policy w)
  unfolding release
  release-IsReleased policy = (
    kube.remove_finalizer policy.metadata.finalizers cluster_switch_finalizer,
    laws.gone policy.metadata.finalizers cluster_switch_finalizer,
    laws.others policy.metadata.finalizers cluster_switch_finalizer,
    ground arith,
  )

  -- For an API whose RemoveFinalizer takes off the finalizer that it is given and no other one: a
  -- policy that is being deleted and does not have the finalizer, or in whose status a switchover
  -- is under way that started less than the limit ago, is not changed, and in the second case comes
  -- back after fifteen seconds; in every other case one patch takes the finalizer off and changes
  -- nothing else, and the call succeeds exactly when that patch does. The limit is the configured
  -- time if that is positive, else ten minutes.
  pub handle_deletion-DeletionCases :
      (policy : ClusterSwitchPolicy)
      → DeletionCases kube now w policy (handle_deletion kube now policy w)
  unfolding handle_deletion
  handle_deletion-DeletionCases policy =
      ground (
        arith,
        release-IsReleased policy,
        IsRecent-iff now policy policy.status.switchover_progress,
      )

-- No switchover is run.
pub ensure_finalizer-Keeps :
    (kube : Kube) (p : ClusterSwitchPolicy) → Keeps (ensure_finalizer kube p)
unfolding ensure_finalizer
ensure_finalizer-Keeps kube p w h = ground (arith, h)

pub handle_deletion-Keeps :
    (kube : Kube) (now : Time) (p : ClusterSwitchPolicy) → Keeps (handle_deletion kube now p)
unfolding handle_deletion release
handle_deletion-Keeps kube now p w h = ground (arith, h)
