-- ===== src/Controller/Recovery/Stuck.antt =====
-- What handleStuckSwitchover does with an attempt of the status.
use mysql_keeper.Controller.Client.{Keeps}
use mysql_keeper.Prelude.{
  ◌≡◌, ◌≢◌, ◌⊎◌, ◌↔◌, inl, inr, refl, Option, none, false, some, str_eq, eq_iff, arith, Bool-cases,
}
use mysql_keeper.Prelude.Int.{pos, ltb_ℤ, ◌<ℤ◌, ◌≤ℤ◌}
use mysql_keeper.Go.Time.{Time, sub}
use mysql_keeper.Api.{ClusterSwitchPolicy}
use mysql_keeper.Api.Status.{degraded, SwitchoverProgress}
use mysql_keeper.Controller.Client.{Kube, World, Requeue, status, patch, ending, note}
use mysql_keeper.Controller.Finalizer.{stuck_limit}
use mysql_keeper.Controller.Recovery.{
  handle_stuck_switchover, abandoned_progress, stuck_step, abandon,
}

-- At least the limit has passed since the attempt started: the configured one if it is positive, else
-- ten minutes.
abbrev pub IsOverdue : Time → ClusterSwitchPolicy → SwitchoverProgress → Type 0
IsOverdue now policy prog =
    let limit = policy.spec.switchover.resume_stuck_timeout in
    ((pos 0 <ℤ limit) × (limit ≤ℤ sub now prog.started_at))
    ⊎ ((limit ≤ℤ pos 0) × (pos 600000000000 ≤ℤ sub now prog.started_at))

-- There is an attempt that names no failed phase, and it is overdue.
abbrev pub IsStuck : Time → ClusterSwitchPolicy → Option SwitchoverProgress → Type 0
IsStuck now policy none = ⊥
IsStuck now policy (some prog) = (prog.failed_phase ≡ "") × IsOverdue now policy prog

-- One patch was sent: the policy is Degraded, and its attempt has failed at the phase that it was in.
abbrev pub IsGivenUp :
    Kube → World → ClusterSwitchPolicy → Option SwitchoverProgress → Option Requeue × World → Type 0
IsGivenUp kube w policy none (r, w') = ⊥
IsGivenUp kube w policy (some prog) (r, w') =
    (sent : ClusterSwitchPolicy) × (failed : SwitchoverProgress) × (w'
      ≡ note (patch status policy sent) (ending (kube.answer_patch w.log status policy sent)) w)
    × (r ≢ none)
    × (sent.status.phase ≡ degraded)
    × (sent.status.switchover_progress ≡ some failed)
    × (failed.attempt_id ≡ prog.attempt_id)
    × (failed.failed_phase ≡ prog.current_phase)

-- The cycle goes on and nothing is written, or the attempt is given up.
abbrev pub StuckCases :
    Kube
    → Time
    → World
    → ClusterSwitchPolicy
    → Option SwitchoverProgress
    → Option Requeue × World
    → Type 0
StuckCases kube now w policy prog (r, w') =
    (¬ (IsStuck now policy prog) × (r ≡ none) × (w' ≡ w))
    ⊎ (IsStuck now policy prog × IsGivenUp kube w policy prog (r, w'))

module _ (kube : Kube) (now : Time) (w : World) (policy : ClusterSwitchPolicy) where
  IsOverdue-iff :
      (prog : SwitchoverProgress)
      → (ltb_ℤ (sub now prog.started_at) (stuck_limit policy) ≡ false) ↔ IsOverdue now policy prog
  IsOverdue-iff prog = ground arith

  abandon-IsGivenUp :
      (prog : SwitchoverProgress)
      → IsGivenUp kube w policy
          (some prog)
          (abandon kube now policy (sub now prog.started_at) prog w)
  unfolding abandon
  abandon-IsGivenUp prog =
      (_, abandoned_progress (sub now prog.started_at) prog, refl, λ e. cc, refl, refl, refl, refl)

  stuck_step-StuckCases :
      (prog : Option SwitchoverProgress)
      → StuckCases kube now w policy prog (stuck_step kube now policy prog w)
  unfolding stuck_step
  stuck_step-StuckCases none = inl (λ (n : ⊥). n, refl, refl)
  stuck_step-StuckCases (some prog) = elim (Bool-cases (str_eq prog.failed_phase "")) [
    | inr named ↦
        simp (named) (inl (λ h. cc ((eq_iff prog.failed_phase "").1 h.0, named), refl, refl))
    | inl unnamed ↦ elim (Bool-cases (ltb_ℤ (sub now prog.started_at) (stuck_limit policy))) [
      | inl early ↦
          simp (unnamed, early) (inl (λ h. cc ((IsOverdue-iff prog).1 h.1, early), refl, refl))
      | inr late ↦
          simp (unnamed, late)
            (inr (
              ((eq_iff prog.failed_phase "").0 unnamed, (IsOverdue-iff prog).0 late),
              abandon-IsGivenUp prog,
            ))
    ]
  ]

  -- If the status has an attempt that names no failed phase and started at least the limit ago, in
  -- whatever phase it is, then one patch makes the policy Degraded, with that phase as the failed
  -- one of the attempt, and the cycle ends; in every other case nothing is written and the cycle
  -- goes on. The limit is the configured time if that is positive, else ten minutes.
  pub handle_stuck-StuckCases :
      StuckCases kube now w policy policy.status.switchover_progress
        (handle_stuck_switchover kube now policy w)
  unfolding handle_stuck_switchover
  handle_stuck-StuckCases = stuck_step-StuckCases policy.status.switchover_progress

-- No switchover is run.
pub handle_stuck-Keeps :
    (kube : Kube) (now : Time) (p : ClusterSwitchPolicy)
    → Keeps (handle_stuck_switchover kube now p)
unfolding handle_stuck_switchover stuck_step abandon
handle_stuck-Keeps kube now p w h = ground (arith, h)
