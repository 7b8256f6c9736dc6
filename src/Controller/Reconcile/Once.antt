-- ===== src/Controller/Reconcile/Once.antt =====
-- A whole cycle runs a switchover at most once, and only as Starts says.
use mysql_keeper.Prelude.{
  ◌≡◌, refl, inl, inr, true, false, Bool, Option, none, some, is_some, Bool-cases, arith,
}
use mysql_keeper.Go.Error.{Message, Result, ok, err}
use mysql_keeper.Api.{ClusterSwitchPolicy}
use mysql_keeper.Controller.Client.{NoRun, World, Requeue, note, patch, status, ending, Keeps}
use mysql_keeper.Controller.Finalizer.{ensure_finalizer}
use mysql_keeper.Controller.Finalizer.Deletion.{ensure_finalizer-Keeps, handle_deletion-Keeps}
use mysql_keeper.Controller.Recovery.{is_degraded, handle_stuck_switchover}
use mysql_keeper.Controller.Recovery.Exit.{handle_degraded-Keeps}
use mysql_keeper.Controller.Recovery.Stuck.{handle_stuck-Keeps}
use mysql_keeper.Controller.Cycle.{ensure_schemas, heartbeat_leader_lease}
use mysql_keeper.Controller.Cycle.Quiet.{ensure_schemas-Keeps, heartbeat-Keeps}
use mysql_keeper.Controller.Attempt.{decide_switchover}
use mysql_keeper.Controller.Reconcile.{
  Setting, Observed, monitored, rest, decided, recover, unstuck, serve, built, initialized,
  initialize, finalized, delete_policy, reconcile, observed_policy,
}
use mysql_keeper.Controller.Reconcile.Starts.{IsSeen, Ends, start_attempt-Ends}

module _ (s : Setting) where
  rest-Keeps : (p : ClusterSwitchPolicy) → Keeps (rest s p)
  unfolding rest monitored
  rest-Keeps p w h = ground (arith, h)

  recover-Keeps : (o : Observed) (p : ClusterSwitchPolicy) → Keeps (recover s o p)
  unfolding recover
  recover-Keeps o p w h =
      handle_degraded-Keeps s.kube s.clock.at_interval s.clock.at_recovery o.local_h o.remote_h p w
        h

  decided-Ends :
      (o : Observed) (served p : ClusterSwitchPolicy) (w : World) (reason : Option Message)
      → decide_switchover s.clock.at_decision s.clock.at_gate o.peer_lease o.local_h o.remote_h p
        ≡ reason
      → is_degraded p.status.phase ≡ false
      → IsSeen s o served p
      → NoRun w.log
      → Ends s (decided s p reason w).1.log
  unfolding decided
  decided-Ends o served p w none allowed sound seen h = inl (rest-Keeps p w h)
  decided-Ends o served p w (some reason) allowed sound seen h =
      start_attempt-Ends s reason p o served allowed sound seen w h

  unstuck-Ends :
      (o : Observed) (served p : ClusterSwitchPolicy) (w : World) (stuck : Option Requeue)
      → IsSeen s o served p
      → NoRun w.log
      → Ends s (unstuck s o p stuck w).1.log
  unfolding unstuck
  unstuck-Ends o served p w (some reply) seen h = inl h
  unstuck-Ends o served p w none seen h = elim (Bool-cases (is_degraded p.status.phase)) [
    | inl e ↦ simp (e) (inl (recover-Keeps o p w h))
    | inr e ↦ simp (e) (decided-Ends o served p w _ refl e seen h)
  ]

  serve-Ends :
      (o : Observed) (served : ClusterSwitchPolicy) (answer : Result ClusterSwitchPolicy)
      (w : World)
      → ((p : ClusterSwitchPolicy) → answer ≡ ok p → IsSeen s o served p)
      → NoRun w.log
      → Ends s (serve s o answer w).1.log
  unfolding serve
  serve-Ends o served (err e) w seen h = inl h
  serve-Ends o served (ok p) w seen h =
      let made = ensure_schemas s.kube o.local_h o.remote_h p w in
      let beat = heartbeat_leader_lease s.kube o.local_h p made.1 in
      let stuck = handle_stuck_switchover s.kube s.clock.at_stuck p beat.1 in
      unstuck-Ends o served p stuck.1 stuck.0 (seen p refl) (
        handle_stuck-Keeps s.kube s.clock.at_stuck p beat.1 (
          heartbeat-Keeps s.kube o.local_h p made.1
            (ensure_schemas-Keeps s.kube o.local_h o.remote_h p w h)))

  built-Ends :
      (p : ClusterSwitchPolicy) (o : Result Observed) (w : World)
      → s.build p ≡ o
      → NoRun w.log
      → Ends s (built s p o w).1.log
  unfolding built
  built-Ends p (err e) w same h = inl h
  built-Ends p (ok o) w same h =
      let sent = observed_policy s o p in
      let answer = s.kube.answer_patch w.log status p sent in
      serve-Ends o p answer (note (patch status p sent) (ending answer) w)
        (λ q came. (same, (w.log, came))) (refl, h)

  initialized-Ends :
      (answer : Result ClusterSwitchPolicy) (w : World)
      → NoRun w.log
      → Ends s (initialized s answer w).1.log
  unfolding initialized
  initialized-Ends (err e) w h = inl h
  initialized-Ends (ok p) w h = built-Ends p (s.build p) w refl h

  initialize-Keeps : (p : ClusterSwitchPolicy) → Keeps (initialize s p)
  unfolding initialize
  initialize-Keeps p w h = ground (arith, h)

  finalized-Ends :
      (r : Result (Bool × ClusterSwitchPolicy)) (w : World)
      → NoRun w.log
      → Ends s (finalized s r w).1.log
  unfolding finalized
  finalized-Ends (err e) w h = inl h
  finalized-Ends (ok (true, p)) w h = inl h
  finalized-Ends (ok (false, p)) w h =
      let init = initialize s p w in initialized-Ends init.0 init.1 (initialize-Keeps p w h)

  -- A cycle that starts with no switchover in its log runs none, or runs exactly one, right after a
  -- successful patch that sets the phase SwitchingOver and a new progress; then the controller has
  -- decided to flip on the policy that came back from the patch of its status with what the
  -- components answered in this cycle. It was not Degraded and not in the cooldown; a manual
  -- switchover was requested, or the automatic path allows one by the health snapshots and the
  -- counters; and the lease on the peer had no tracker or no row, or was the controller's own, or
  -- older than its time to live. A manual trigger was cleared by a successful patch right before,
  -- on a policy that is not quarantined. This holds whatever the API, the databases and the
  -- clusters answer.
  pub reconcile-Ends :
      (got : Result (Option ClusterSwitchPolicy)) (w : World)
      → NoRun w.log
      → Ends s (reconcile s got w).1.log
  unfolding reconcile delete_policy
  reconcile-Ends (err e) w h = inl h
  reconcile-Ends (ok none) w h = inl h
  reconcile-Ends (ok (some p)) w h = elim (Bool-cases (is_some p.metadata.deletion_timestamp)) [
    | inl e ↦ simp (e) (inl (handle_deletion-Keeps s.kube s.clock.at_deletion p w h))
    | inr e ↦ simp (e) (
        let fin = ensure_finalizer s.kube p w in
        finalized-Ends fin.0 fin.1 (ensure_finalizer-Keeps s.kube p w h))
  ]
