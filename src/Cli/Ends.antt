-- ===== src/Cli/Ends.antt =====
-- What an exit code of switchover-cli says of the clusters.
use mysql_keeper.Prelude.{
  ℕ, ◌≡◌, ◌⊎◌, inl, inr, refl, [], Bool, true, false, Option, some, Bool-cases,
}
use mysql_keeper.Switchover.Effects.{Env, Trace}
use mysql_keeper.Switchover.Writers.{replay, replay-kept}
use mysql_keeper.Switchover.PreFlight.Result.{PreFlightResult, is_ok}
use mysql_keeper.Switchover.PreFlight.Run.{run}
use mysql_keeper.Switchover.PreFlight.Quiet.{run-quiet}
use mysql_keeper.Switchover.Engine.{ExecResult, execute}
use mysql_keeper.Switchover.Engine.Safety.Returned.{execute-Returns}
use mysql_keeper.Switchover.Engine.Safety.Endings.{
  Ending, IsSwitched, IsAsBefore, UndoWorks, execute-Ending_from,
}
use mysql_keeper.Cli.{
  Flags, switchover_main, after_checks, drill, exit_code, config_of_flags, preflight_of_flags,
  has_usage_error,
}

-- By the exit code: 2 with no call made; 0 with the remote cluster alone taking writes, or with
-- nothing changed by a dry run; 1 with either alone, or with neither where a rollback failed.
abbrev pub Ends : Env → Bool → Bool → Option ℕ → Trace → Type 0
Ends env usage dry code t =
    ((code ≡ some 2) × (usage ≡ true) × (t ≡ []))
    ⊎ ((code ≡ some 1) × (UndoWorks env → IsSwitched (replay t) ⊎ IsAsBefore (replay t)))
    ⊎ ((code ≡ some 0) × (dry ≡ true) × IsAsBefore (replay t))
    ⊎ ((code ≡ some 0) × (dry ≡ false) × IsSwitched (replay t))

module _ (env : Env) (f : Flags) where
  of_Ending :
      (u : Bool) (r : ExecResult) (t : Trace)
      → Ending env (some r) (replay t)
      → Ends env u false (exit_code (some r)) t
  unfolding exit_code
  of_Ending u r t (inl (good, switched)) = inr (inr (inr (rw good.0 refl, refl, switched)))
  of_Ending u r t (inr (inl (bad, _, switched))) = inr (inl (rw bad.0 refl, λ works. inl switched))
  of_Ending u r t (inr (inr (inl (bad, _, undone)))) =
      inr (inl (rw bad.0 refl, λ works. inr (undone works)))
  of_Ending u r t (inr (inr (inr (bad, _, before)))) =
      inr (inl (rw bad.0 refl, λ works. inr before))

  drill-Ends :
      (u : Bool) (t : Trace)
      → IsAsBefore (replay t)
      → Ends env u false (drill env f t).0 (drill env f t).1
  unfolding drill
  drill-Ends u t before =
      let (r, returned) = execute-Returns env (config_of_flags f) t refl in
      let ending = execute-Ending_from env (config_of_flags f) t before in
      rw returned (of_Ending u r (execute env (config_of_flags f) t).1 (rw returned at ending))

  after_checks-Ends :
      (u : Bool) (res : PreFlightResult) (t : Trace)
      → IsAsBefore (replay t)
      → Ends env u f.dry_run (after_checks env f res t).0 (after_checks env f res t).1
  unfolding after_checks
  after_checks-Ends u res t before = elim (Bool-cases (is_ok res)) [
    | inr refused ↦ simp (refused) (inr (inl (refl, λ works. inr before)))
    | inl good ↦ elim (Bool-cases f.dry_run) [
      | inl dry ↦ simp (good, dry) (inr (inr (inl (refl, refl, before))))
      | inr real ↦ simp (good, real) (drill-Ends u t before)
    ]
  ]

  -- A run of switchover-cli that starts with the local cluster alone taking writes returns, and in
  -- one of four ways: 2 for flags that are not complete, with no call made; 1, with one cluster
  -- alone taking writes if the calls of a rollback work; 0 for a dry run, with the local cluster
  -- alone taking writes; or 0 for a drill, with the remote cluster alone taking writes. A call that
  -- fails is taken not to have changed anything, and a cluster fenced by routing alone counts as
  -- taking no writes.
  pub switchover_main-Ends :
      Ends env
        (has_usage_error f)
        f.dry_run
        (switchover_main env f []).0
        (switchover_main env f []).1
  unfolding switchover_main replay
  switchover_main-Ends = elim (Bool-cases (has_usage_error f)) [
    | inl usage ↦ simp (usage) (inl (refl, refl, refl))
    | inr fine ↦
        let (res, t) = run env (preflight_of_flags f) [] in
        simp (fine) (
          after_checks-Ends false res t
            (rw (run-quiet replay replay-kept env (preflight_of_flags f) []) (refl, refl)))
  ]
