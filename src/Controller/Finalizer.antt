-- ===== src/Controller/Finalizer.antt =====
-- internal/controller/finalizer.go: the finalizer that holds a policy back from deletion.
pub mod Deletion
mod Tests
use mysql_keeper.Prelude.{
  String, List, [], ◌∷◌, Bool, true, false, not, ◌||◌, Option, none, some, if◌then◌else◌, str_eq,
  keep,
}
use mysql_keeper.Prelude.Int.{pos, leb_ℤ, ltb_ℤ}
use mysql_keeper.Go.Time.{Time, Duration, sub}
use mysql_keeper.Go.Error.{text, Result, ok, err, wrapped}
use mysql_keeper.Api.{ClusterSwitchPolicy}
use mysql_keeper.Api.Status.{Phase, switching_over, SwitchoverProgress}
use mysql_keeper.Controller.Client.{
  Kube, R, pure, ◌>>=◌, send, object, Requeue, no_requeue, requeue_after,
}

abbrev pub cluster_switch_finalizer : String
cluster_switch_finalizer = "mysql.keeper.io/finalizer"

abbrev pub with_finalizers : List String → ClusterSwitchPolicy → ClusterSwitchPolicy
with_finalizers fs policy = record policy { metadata = record policy.metadata { finalizers = fs } }

-- `policy.Status.Phase == PhaseSwitchingOver`, and its like.
abbrev pub is_switching_over : Phase → Bool
is_switching_over switching_over = true
is_switching_over _ = false

-- The configured time, or ten minutes.
abbrev pub stuck_limit : ClusterSwitchPolicy → Duration
stuck_limit policy =
    let limit = policy.spec.switchover.resume_stuck_timeout in
    if leb_ℤ limit (pos 0) then pos 600000000000 else limit

abbrev pub started_within : Time → Duration → Option SwitchoverProgress → Bool
started_within now limit none = false
started_within now limit (some prog) = ltb_ℤ (sub now prog.started_at) limit

abbrev pub removal_of : Result ClusterSwitchPolicy → Result Requeue
removal_of (ok _) = ok no_requeue
removal_of (err e) = err (wrapped (text "remove finalizer" ∷ []) e)

abbrev pub addition_of :
    ClusterSwitchPolicy → Result ClusterSwitchPolicy → Result (Bool × ClusterSwitchPolicy)
addition_of policy (ok p) = ok (true, p)
addition_of policy (err e) = err (wrapped (text "add finalizer" ∷ []) e)

module _ (kube : Kube) where
  abbrev pub is_finalized : ClusterSwitchPolicy → Bool
  is_finalized policy = kube.contains_finalizer policy.metadata.finalizers cluster_switch_finalizer

  abbrev pub added : ClusterSwitchPolicy → ClusterSwitchPolicy
  added policy =
      with_finalizers (kube.add_finalizer policy.metadata.finalizers cluster_switch_finalizer)
        policy

  abbrev pub removed : ClusterSwitchPolicy → ClusterSwitchPolicy
  removed policy =
      with_finalizers (kube.remove_finalizer policy.metadata.finalizers cluster_switch_finalizer)
        policy

  -- The flag, with the policy as it comes back.
  unfoldable pub ensure_finalizer : ClusterSwitchPolicy → R (Result (Bool × ClusterSwitchPolicy))
  ensure_finalizer policy =
      if is_finalized policy
      then pure (ok (false, policy))
      else do answer ← send kube object policy (added policy); pure (addition_of policy answer)

  release : ClusterSwitchPolicy → R (Result Requeue)
  release policy = do answer ← send kube object policy (removed policy); pure (removal_of answer)

  -- The result is never nil where there is no error.
  unfoldable pub handle_deletion : Time → ClusterSwitchPolicy → R (Result Requeue)
  unfolding release
  handle_deletion now policy =
      if not (is_finalized policy)
      then pure (ok no_requeue)
      else if is_switching_over policy.status.phase
      then (if started_within now (stuck_limit policy) policy.status.switchover_progress
          then pure (ok (requeue_after (pos 15000000000)))
          else release policy)
      else release policy
