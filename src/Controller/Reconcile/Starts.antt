-- ===== src/Controller/Reconcile/Starts.antt =====
-- Under which conditions a cycle starts a switchover, and what it has written by then.
use mysql_keeper.Prelude.{
  ◌≡◌, refl, ◌⊎◌, inl, inr, [], ◌∷◌, ◌++◌, true, false, Option, none, some, Bool-cases,
}
use mysql_keeper.Go.Error.{Message, Outcome, Result, ok, err, done}
use mysql_keeper.Api.{ClusterSwitchPolicy}
use mysql_keeper.Switchover.Engine.{ExecResult, execute}
use mysql_keeper.Switchover.Engine.Phases.{Config}
use mysql_keeper.Controller.Client.{
  Log, NoRun, World, ending, note, patch, status, object, execute_switchover,
}
use mysql_keeper.Controller.Decision.{is_manual}
use mysql_keeper.Controller.Recovery.{is_degraded, with_status}
use mysql_keeper.Controller.Attempt.{
  decide_switchover, config_of, write_switchover_result, result_status,
}
use mysql_keeper.Controller.Attempt.Allowed.{IsAllowed, decide-IsAllowed}
use mysql_keeper.Controller.ReplicationErrors.Skip.{is_currently_quarantined}
use mysql_keeper.Controller.Reconcile.{
  Setting, Observed, observed_policy, cleared, started, after_run, run_attempt, begin_attempt,
  clear_trigger, start_attempt,
}

-- A switchover that was run: the policy that it was decided on, what was observed and for which
-- policy, the policy that was patched to SwitchingOver, and the log before that patch and after the run.
pub record Start : Type 0 where
  pub decided_on : ClusterSwitchPolicy
  pub observed : Observed
  pub served : ClusterSwitchPolicy
  pub reason : Message
  pub base : ClusterSwitchPolicy
  pub config : Config
  pub ended : Outcome
  pub before : Log
  pub after : Log

-- A manual trigger has been cleared by a patch just before, else nothing has changed.
abbrev pub IsTriggerCleared : ClusterSwitchPolicy → ClusterSwitchPolicy → Log → Type 0
IsTriggerCleared policy base before =
    ((is_manual policy.spec.manual_switchover_target ≡ false) × (base ≡ policy))
    ⊎ ((is_manual policy.spec.manual_switchover_target ≡ true)
        × (is_currently_quarantined policy ≡ false)
        × (earlier : Log) × (before ≡ (patch object policy (cleared policy), done) ∷ earlier))

module _ (s : Setting) where
  -- What the components answered in this cycle by the policy that was served, and the policy as the
  -- patch of its status with this observation came back.
  abbrev pub IsSeen : Observed → ClusterSwitchPolicy → ClusterSwitchPolicy → Type 0
  IsSeen o served policy =
      (s.build served ≡ ok o)
      × ((log : Log) × (s.kube.answer_patch log status served (observed_policy s o served)
            ≡ ok policy))

  -- The run is the only one, the patch to SwitchingOver stands right before it and succeeded, and
  -- the controller decided on it by what was observed in this cycle: outside Degraded, not in the
  -- cooldown, by hand or for the state of the clusters, and with the peer's gate open.
  abbrev pub IsStart : Log → Start → Type 0
  IsStart log st =
      (log
        ≡ st.after
          ++ ((execute_switchover st.config, st.ended)
              ∷ (patch status st.base (started s st.reason st.base), done)
              ∷ st.before))
      × NoRun st.after
      × NoRun st.before
      × (decide_switchover s.clock.at_decision s.clock.at_gate st.observed.peer_lease
            st.observed.local_h st.observed.remote_h st.decided_on
          ≡ some st.reason)
      × (is_degraded st.decided_on.status.phase ≡ false)
      × IsSeen st.observed st.served st.decided_on
      × IsAllowed s.clock.at_decision s.clock.at_gate st.observed.peer_lease st.observed.local_h
          st.observed.remote_h st.decided_on
      × IsTriggerCleared st.decided_on st.base st.before

  abbrev pub Ends : Log → Type 0
  Ends log = NoRun log ⊎ ((st : Start) × IsStart log st)

  after_run-log :
      (reason : Message) (p : ClusterSwitchPolicy) (result : Option ExecResult) (w : World)
      → (after : Log) × NoRun after × ((after_run s reason p result w).1.log ≡ after ++ w.log)
  unfolding after_run write_switchover_result
  after_run-log reason p none w = ([], tt, refl)
  after_run-log reason p (some result) w =
      let sent =
        with_status
          (result_status s.render s.clock.at_preflight s.clock.at_end result reason p.status) p in
      (
        (patch status p sent, ending (s.kube.answer_patch w.log status p sent)) ∷ [],
        (refl, tt),
        refl,
      )

  module _ (reason : Message) (policy : ClusterSwitchPolicy) (o : Observed)
      (served : ClusterSwitchPolicy)
      (allowed : decide_switchover s.clock.at_decision s.clock.at_gate o.peer_lease o.local_h
          o.remote_h policy
        ≡ some reason)
      (sound : is_degraded policy.status.phase ≡ false) (seen : IsSeen o served policy) where
    run_attempt-Ends :
        (base : ClusterSwitchPolicy) (w : World) (answer : Result ClusterSwitchPolicy)
        → NoRun w.log
        → IsTriggerCleared policy base w.log
        → Ends
            (run_attempt s reason answer
              (note (patch status base (started s reason base)) (ending answer) w)).1.log
    unfolding run_attempt
    run_attempt-Ends base w (err e) h trigger = inl (refl, h)
    run_attempt-Ends base w (ok p) h trigger =
        let w' = note (patch status base (started s reason base)) done w in
        let action = execute_switchover (config_of p) in
        let ended = s.kube.outcome w'.log action in
        let (after, quiet, same) =
          after_run-log reason p (execute s.clusters (config_of p) []).0 (note action ended w') in
        inr (
          record {
            decided_on = policy;
            observed = o;
            served = served;
            reason = reason;
            base = base;
            config = config_of p;
            ended = ended;
            before = w.log;
            after = after;
          },
          (
            same,
            quiet,
            h,
            allowed,
            sound,
            seen,
            decide-IsAllowed s.clock.at_decision s.clock.at_gate o.peer_lease o.local_h o.remote_h
                policy reason allowed,
            trigger,
          ),
        )

    begin_attempt-Ends :
        (base : ClusterSwitchPolicy) (w : World)
        → NoRun w.log
        → IsTriggerCleared policy base w.log
        → Ends (begin_attempt s reason (ok base) w).1.log
    unfolding begin_attempt
    begin_attempt-Ends base w h trigger =
        run_attempt-Ends base w (s.kube.answer_patch w.log status base (started s reason base)) h
          trigger

    -- After the trigger was cleared.
    cleared-Ends :
        (w : World) (answer : Result ClusterSwitchPolicy)
        → NoRun w.log
        → is_manual policy.spec.manual_switchover_target ≡ true
        → is_currently_quarantined policy ≡ false
        → Ends
            (begin_attempt s reason answer
              (note (patch object policy (cleared policy)) (ending answer) w)).1.log
    unfolding begin_attempt
    cleared-Ends w (err e) h manual free = inl (refl, h)
    cleared-Ends w (ok base) h manual free =
        begin_attempt-Ends base (note (patch object policy (cleared policy)) done w) (refl, h)
          (inr (manual, free, w.log, refl))

    pub start_attempt-Ends :
        (w : World) → NoRun w.log → Ends (start_attempt s reason policy w).1.log
    unfolding start_attempt clear_trigger
    start_attempt-Ends w h = elim (Bool-cases (is_manual policy.spec.manual_switchover_target)) [
      | inr e ↦ simp (e) (begin_attempt-Ends policy w h (inl (e, refl)))
      | inl e ↦ elim (Bool-cases (is_currently_quarantined policy)) [
        | inl q ↦ simp (e, q) (inl h)
        | inr q ↦
            simp (e, q)
              (cleared-Ends w (s.kube.answer_patch w.log object policy (cleared policy)) h e q)
      ]
    ]
