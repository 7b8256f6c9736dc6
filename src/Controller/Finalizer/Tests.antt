-- ===== src/Controller/Finalizer/Tests.antt =====
-- A policy that is deleted while a switchover runs.
use mysql_keeper.Prelude.{
  String, List, [], ◌∷◌, ◌≡◌, ◌≢◌, refl, not, false, keep, some, arith, str_eq, eq_iff,
}
use mysql_keeper.Prelude.Int.{pos}
use mysql_keeper.Api.{ClusterSwitchPolicy}
use mysql_keeper.Api.Status.{switching_over}
use mysql_keeper.Controller.Samples.{
  contains, sample_policy, sample_status, sample_kube, fresh_world,
}
use mysql_keeper.Controller.Finalizer.{cluster_switch_finalizer, handle_deletion}
use mysql_keeper.Controller.Finalizer.Deletion.{
  RemovesFinalizers, DeletionCases, handle_deletion-DeletionCases,
}

abbrev leaving : ClusterSwitchPolicy
leaving = record sample_policy {
  metadata = record sample_policy.metadata { finalizers = cluster_switch_finalizer ∷ [] };
  status = record sample_status {
    phase = switching_over;
    switchover_progress = some (record {
      attempt_id = "a1";
      started_at = pos 0;
      current_phase = "Fence";
      completed_phases = [];
      failed_phase = "";
      reason = [];
      error = [];
    });
  };
}

removed_gone :
    (fs : List String) (f : String) → contains (keep (λ g. not (str_eq g f)) fs) f ≡ false
removed_gone [] f = refl
removed_gone (g ∷ gs) f = let ih = removed_gone gs f in ground arith

others_stay :
    (fs : List String) (f g : String)
    → g ≢ f
    → contains (keep (λ h. not (str_eq h f)) fs) g ≡ contains fs g
others_stay [] f g other = refl
others_stay (h ∷ hs) f g other =
    let ih = others_stay hs f g other in ground (arith, eq_iff h f, eq_iff h g)

sample_laws : RemovesFinalizers sample_kube
sample_laws = record { gone = removed_gone; others = others_stay }

handle_deletion-DeletionCases_example :
    DeletionCases sample_kube
      (pos 1000)
      fresh_world
      leaving
      (handle_deletion sample_kube (pos 1000) leaving fresh_world)
handle_deletion-DeletionCases_example =
    handle_deletion-DeletionCases sample_kube sample_laws (pos 1000) fresh_world leaving
