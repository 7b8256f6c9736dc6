-- ===== src/Switchover/Engine/Safety/Endings.antt =====
-- The ends that Execute of engine.go may come to, with the clusters that take writes then.
use mysql_keeper.Prelude.{
  ◌≡◌, ◌⊎◌, refl, [], ◌∷◌, Bool, true, false, Option, none, some, Bool-cases, inl, inr,
}
use mysql_keeper.Prelude.Int.{pos, ltb_ℤ}
use mysql_keeper.Go.Error.{text, Error, raised, Outcome, ok, err, done}
use mysql_keeper.Switchover.Effects.{
  Env, Trace, act, local, remote, fence, promote, routing, pre_flight, reverse_replica, verify,
  finished, set_read_only, set_read_write, on_phase_start, on_phase_complete, drain,
}
use mysql_keeper.Switchover.PreFlight.Result.{PreFlightResult, is_ok, summary}
use mysql_keeper.Switchover.PreFlight.Run.{run}
use mysql_keeper.Switchover.Engine.{
  ExecResult, execute, pre_flight_step, drained, fence_step, promote_step, routing_step,
  after_routing, reported, finish, failure, rollback, undo,
}
use mysql_keeper.Switchover.Engine.Phases.{
  Config, phase_pre_flight, phase_fence, phase_promote, phase_routing, phase_reverse_replica,
  phase_verify, preflight_of,
}
use mysql_keeper.Switchover.Engine.Phases.Writing.{
  shut, grant, fence-writers, promote-writers, routing-quiet, reverse_replica-quiet, verify-quiet,
  pre_flight-quiet,
}
use mysql_keeper.Switchover.Engine.Safety.{reported-quiet}
use mysql_keeper.Switchover.Writers.{Writers, replay, changed, changed-kept}
use mysql_keeper.Switchover.PreFlight.Quiet.{run-quiet}

-- The remote cluster alone takes writes, or the local one.
abbrev pub IsSwitched : Writers → Type 0
IsSwitched w = (w.local_open ≡ false) × (w.remote_open ≡ true)

abbrev pub IsAsBefore : Writers → Type 0
IsAsBefore w = (w.local_open ≡ true) × (w.remote_open ≡ false)

-- The calls of a rollback work.
abbrev pub UndoWorks : Env → Type 0
UndoWorks env =
    ((t : Trace) → env.outcome t (set_read_only remote) ≡ done)
    × ((t : Trace) → env.outcome t (set_read_write local) ≡ done)

abbrev pub IsSuccess : ExecResult → Type 0
IsSuccess r =
    (r.success ≡ true) × (r.rolled_back ≡ false) × (r.failed_phase ≡ finished) × (r.error ≡ none)

abbrev pub IsFailure : Bool → ExecResult → Type 0
IsFailure undone r =
    (r.success ≡ false) × (r.rolled_back ≡ undone) × ((e : Error) × (r.error ≡ some e))

-- A panic, a success, a failed verification, a rollback, or an end before anything was changed.
abbrev pub Ending : Env → Option ExecResult → Writers → Type 0
Ending env none w = IsSwitched w
Ending env (some r) w =
    (IsSuccess r × IsSwitched w)
    ⊎ (IsFailure false r × (r.failed_phase ≡ verify) × IsSwitched w)
    ⊎ (IsFailure true r
        × ((r.failed_phase ≡ fence) ⊎ (r.failed_phase ≡ promote) ⊎ (r.failed_phase ≡ routing))
        × (UndoWorks env → IsAsBefore w))
    ⊎ (IsFailure false r
        × ((r.failed_phase ≡ pre_flight) ⊎ (r.failed_phase ≡ fence))
        × IsAsBefore w)

module _ (env : Env) (cfg : Config) (pre : PreFlightResult) where
  finish-Ending :
      (o : Outcome) (t : Trace)
      → IsSwitched (replay t)
      → Ending env (finish env cfg pre o t).0 (replay (finish env cfg pre o t).1)
  unfolding finish replay
  finish-Ending (ok _) t s = inl ((refl, refl, refl, refl), s)
  finish-Ending (err e) t s = inr (inl ((refl, refl, (e, refl)), refl, s))

  after_routing-Ending :
      (t : Trace)
      → IsSwitched (replay t)
      → Ending env (after_routing env cfg pre t).0 (replay (after_routing env cfg pre t).1)
  unfolding after_routing replay
  after_routing-Ending t s =
      let t1 =
        (act env (on_phase_start reverse_replica) (act env (on_phase_complete routing) t).1).1 in
      let (o, t2) = phase_reverse_replica env cfg t1 in
      let t3 = (reported env cfg o t2).1 in
      let (v, t4) = phase_verify env (act env (on_phase_start verify) t3).1 in
      finish-Ending v t4 (
        rw
          (
            verify-quiet env (act env (on_phase_start verify) t3).1,
            reported-quiet env cfg pre o t2,
            reverse_replica-quiet env cfg t1,
          )
          s)

  fence-failure-Ending :
      (e : Error) (t : Trace)
      → IsAsBefore (replay t)
      → Ending env
          (failure env cfg fence (pre_flight ∷ []) pre e t).0
          (replay (failure env cfg fence (pre_flight ∷ []) pre e t).1)
  unfolding failure rollback undo replay
  fence-failure-Ending e t s = inr (inr (inl ((refl, refl, (e, refl)), inl refl, λ works. s)))

  promote_failure-Ending :
      (e : Error) (t : Trace)
      → (replay t).remote_open ≡ false
      → Ending env
          (failure env cfg promote (fence ∷ pre_flight ∷ []) pre e t).0
          (replay (failure env cfg promote (fence ∷ pre_flight ∷ []) pre e t).1)
  unfolding failure rollback undo replay
  promote_failure-Ending e t closed =
      inr (
        inr (inl ((refl, refl, (e, refl)), inr (inl refl), λ works. simp (works.1) (refl, closed))))

  routing_failure-Ending :
      (e : Error) (t : Trace)
      → Ending env
          (failure env cfg routing (promote ∷ fence ∷ pre_flight ∷ []) pre e t).0
          (replay (failure env cfg routing (promote ∷ fence ∷ pre_flight ∷ []) pre e t).1)
  unfolding failure rollback undo replay
  routing_failure-Ending e t = inr (
      inr (
        inl
          ((refl, refl, (e, refl)), inr (inr refl), λ works. simp (works.0, works.1) (refl, refl))))

  routing_step-Ending :
      (r : Option Outcome) (t : Trace)
      → IsSwitched (replay t)
      → Ending env (routing_step env cfg pre r t).0 (replay (routing_step env cfg pre r t).1)
  unfolding routing_step
  routing_step-Ending none t s = s
  routing_step-Ending (some (err e)) t s = routing_failure-Ending e t
  routing_step-Ending (some (ok _)) t s = after_routing-Ending t s

  -- The new source by the outcome of Promote, whose failure leaves it closed.
  Granted : Outcome → Writers → Type 0
  Granted (ok _) w = IsSwitched w
  Granted (err e) w = w.remote_open ≡ false

  grant-Granted :
      (o : Outcome) (w : Writers)
      → w.local_open ≡ false
      → w.remote_open ≡ false
      → Granted o (grant o w)
  unfolding Granted
  grant-Granted (ok _) w shut closed = (shut, refl)
  grant-Granted (err e) w shut closed = closed

  promote_step-Ending :
      (o : Outcome) (t : Trace)
      → Granted o (replay t)
      → Ending env (promote_step env cfg pre o t).0 (replay (promote_step env cfg pre o t).1)
  unfolding promote_step replay Granted
  promote_step-Ending (err e) t s = promote_failure-Ending e t s
  promote_step-Ending (ok _) t s =
      let t1 = (act env (on_phase_start routing) (act env (on_phase_complete promote) t).1).1 in
      let (r, t2) = phase_routing env cfg t1 in
      routing_step-Ending r t2 (rw (routing-quiet env cfg t1) s)

  fence_step-Ending :
      (o : Outcome) (t : Trace) (w : Writers)
      → IsAsBefore w
      → replay t ≡ shut o w
      → Ending env (fence_step env cfg pre o t).0 (replay (fence_step env cfg pre o t).1)
  unfolding fence_step replay
  fence_step-Ending (err e) t w s same = fence-failure-Ending e t (rw same s)
  fence_step-Ending (ok _) t w s same =
      let t1 = (act env (on_phase_start promote) (act env (on_phase_complete fence) t).1).1 in
      let (o, t2) = phase_promote env cfg t1 in
      promote_step-Ending o t2
        (rw (promote-writers env cfg t1, same) (grant-Granted o (shut done w) refl s.1))

  drained-Ending :
      (o : Outcome) (t : Trace)
      → IsAsBefore (replay t)
      → Ending env (drained env cfg pre o t).0 (replay (drained env cfg pre o t).1)
  unfolding drained replay
  drained-Ending (err e) t s = inr (inr (inr ((refl, refl, (e, refl)), inr refl, s)))
  drained-Ending (ok _) t s =
      let t1 = (act env (on_phase_start fence) t).1 in
      let (o, t2) = phase_fence env cfg t1 in
      fence_step-Ending o t2 (replay t) s (fence-writers env cfg t1)

  pre_flight_step-Ending :
      (o : Outcome) (t : Trace)
      → IsAsBefore (replay t)
      → Ending env (pre_flight_step env cfg pre o t).0 (replay (pre_flight_step env cfg pre o t).1)
  unfolding pre_flight_step replay
  pre_flight_step-Ending (err e) t s = inr (inr (inr ((refl, refl, (e, refl)), inl refl, s)))
  pre_flight_step-Ending (ok _) t s =
      let t1 = (act env (on_phase_complete pre_flight) t).1 in
      let waited = act env (drain cfg.drain_timeout) t1 in
      elim (Bool-cases (ltb_ℤ (pos 0) cfg.drain_timeout)) [
        | inl waits ↦ simp (waits) (drained-Ending waited.0 waited.1 s)
        | inr goes ↦ simp (goes) (drained-Ending done t1 s)
      ]

-- So it ends wherever it begins, with the local cluster alone taking writes.
pub execute-Ending_from :
    (env : Env) (cfg : Config) (t : Trace)
    → IsAsBefore (replay t)
    → Ending env (execute env cfg t).0 (replay (execute env cfg t).1)
unfolding execute replay
execute-Ending_from env cfg t s =
    let t1 = (act env (on_phase_start pre_flight) t).1 in
    let (checked, t2) = phase_pre_flight env cfg t1 in
    pre_flight_step-Ending env cfg checked.0 checked.1 t2 (rw (pre_flight-quiet env cfg t1) s)

-- Every run of a switchover ends in one of these ways: a panic with the remote cluster alone taking
-- writes; a success, with no error, no rollback and the remote cluster alone taking writes; a
-- failed verification, without a rollback and with the remote cluster alone taking writes; a
-- failure of the fence, the promotion or the routing that is rolled back, after which the local
-- cluster alone takes writes if the calls of the rollback work; or a failure of the checks or of
-- the wait before the fence, with the local cluster alone taking writes. A call that fails is taken
-- not to have changed anything, and a cluster fenced by routing alone counts as taking no writes.
pub execute-Ending :
    (env : Env) (cfg : Config) → Ending env (execute env cfg []).0 (replay (execute env cfg []).1)
unfolding replay
execute-Ending env cfg = execute-Ending_from env cfg [] (refl, refl)

-- If the checks are not OK, the switchover makes no call that changes a cluster, its replication or
-- its routing, and its result is a failure of the phase PreFlight without a rollback, with the
-- summary of the checks as its error.
pub execute-refused :
    (env : Env) (cfg : Config)
    → (let (pre, t) = run env (preflight_of cfg) (act env (on_phase_start pre_flight) []).1 in
        is_ok pre ≡ false
        → (changed (execute env cfg []).1 ≡ [])
          × ((execute env cfg []).0
              ≡ some (record {
                success = false;
                failed_phase = pre_flight;
                rolled_back = false;
                error = some (raised (text "preflight failed: " ∷ summary pre));
                preflight = pre;
              })))
unfolding execute pre_flight_step phase_pre_flight changed
execute-refused env cfg bad =
    let t1 = (act env (on_phase_start pre_flight) []).1 in
    simp (bad) (run-quiet changed changed-kept env (preflight_of cfg) t1, refl)
