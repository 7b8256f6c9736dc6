-- ===== src/Controller/Reconcile/Tests.antt =====
-- A cycle in which the local cluster has been silent for long enough.
use mysql_keeper.Prelude.{[], some, none, true, ◌∷◌}
use mysql_keeper.Prelude.Int.{pos}
use mysql_keeper.Go.Error.{ok}
use mysql_keeper.Api.{ClusterSwitchPolicy}
use mysql_keeper.Controller.Samples.{
  sample_policy, sample_status, sample_kube, fresh_world, silent, replica,
}
use mysql_keeper.Controller.Finalizer.{cluster_switch_finalizer}
use mysql_keeper.Controller.Reconcile.{Clock, Observed, Setting, reconcile}
use mysql_keeper.Controller.Reconcile.Starts.{Ends}
use mysql_keeper.Controller.Reconcile.Once.{reconcile-Ends}
use mysql_keeper.Switchover.Samples.{calm}

abbrev clock : Clock
clock = record {
  at_deletion = pos 1;
  at_health = pos 1;
  at_split_brain = pos 1;
  at_detection = pos 1;
  at_skips = pos 1;
  at_errors = pos 1;
  at_stuck = pos 1;
  at_interval = pos 1;
  at_recovery = pos 1;
  at_decision = pos 1;
  at_gate = pos 1;
  at_start = pos 1;
  at_preflight = pos 2;
  at_end = pos 2;
}

abbrev observed : Observed
observed = record {
  local_h = silent;
  remote_h = replica;
  inspector = record { present = true; detected = none; skipper = none };
  gtid_lag = none;
  peer_lease = none;
}

abbrev setting : Setting
setting = record {
  kube = sample_kube;
  clock = clock;
  build = λ p. ok observed;
  clusters = calm;
  attempt_id = "a1";
  render = λ m. "";
}

abbrev overdue : ClusterSwitchPolicy
overdue = record sample_policy {
  metadata = record sample_policy.metadata { finalizers = cluster_switch_finalizer ∷ [] };
  status = record sample_status { consecutive_local_unreachable = pos 2 };
}

reconcile-Ends_example : Ends setting (reconcile setting (ok (some overdue)) fresh_world).1.log
reconcile-Ends_example = reconcile-Ends setting (ok (some overdue)) fresh_world tt
