-- ===== src/Switchover/Engine/Safety/Held.antt =====
-- The steps of Execute in engine.go after the checks: what holds over every call that is no GTID
-- query holds from the end of the checks to the end of the run.
use mysql_keeper.Prelude.{refl, List, [], ◌∷◌, Option, none, some, Bool-cases, inl, inr}
use mysql_keeper.Prelude.Int.{pos, ltb_ℤ}
use mysql_keeper.Go.Error.{Error, Outcome, ok, err, done}
use mysql_keeper.Switchover.Effects.{
  Env, Trace, Phase, act, fence, promote, routing, pre_flight, reverse_replica, verify,
  on_phase_start, on_phase_complete, drain,
}
use mysql_keeper.Switchover.PreFlight.Result.{PreFlightResult}
use mysql_keeper.Switchover.Engine.{
  execute, pre_flight_step, drained, fence_step, promote_step, routing_step, after_routing,
  reported, finish, failure, rollback, undo,
}
use mysql_keeper.Switchover.Engine.Phases.{
  Config, phase_pre_flight, phase_fence, phase_promote, phase_routing, phase_reverse_replica,
  phase_verify,
}
use mysql_keeper.Switchover.Engine.Phases.Unasked.{
  HoldsOverCalls, fence-holds, promote-holds, routing-holds, reverse_replica-holds, verify-holds,
}

module _ {R : Trace → Trace → Type 0} (over : HoldsOverCalls R) (env : Env) (cfg : Config) where
  undo-holds : (p : Phase) (t : Trace) → R t (undo env cfg p t).1
  unfolding undo
  undo-holds promote t = over.step _ _ t refl
  undo-holds fence t = over.step _ _ t refl
  undo-holds routing t = over.step _ _ t refl
  undo-holds _ t = over.stay t

  rollback-holds : (ps : List Phase) (t : Trace) → R t (rollback env cfg ps t).1
  unfolding rollback
  rollback-holds [] t = over.stay t
  rollback-holds (p ∷ ps) t = over.join (undo-holds p t) (rollback-holds ps _)

  reported-holds : (o : Outcome) (t : Trace) → R t (reported env cfg o t).1
  unfolding reported
  reported-holds (ok _) t = over.step _ _ t refl
  reported-holds (err e) t = over.step _ _ t refl

  -- A phase that is started after one that completed.
  started-holds :
      (p q : Phase) (t : Trace)
      → R t (act env (on_phase_start q) (act env (on_phase_complete p) t).1).1
  started-holds p q t = over.join (over.step _ _ t refl) (over.step _ _ _ refl)

module _ {R : Trace → Trace → Type 0} (over : HoldsOverCalls R) (env : Env) (cfg : Config)
    (pre : PreFlightResult) where
  failure-holds :
      (p : Phase) (ps : List Phase) (e : Error) (t : Trace) → R t (failure env cfg p ps pre e t).1
  unfolding failure
  failure-holds p ps e t = over.join (over.step _ _ t refl) (rollback-holds over env cfg ps _)

  finish-holds : (o : Outcome) (t : Trace) → R t (finish env cfg pre o t).1
  unfolding finish
  finish-holds (ok _) t = over.step _ _ t refl
  finish-holds (err e) t = over.step _ _ t refl

  after_routing-holds : (t : Trace) → R t (after_routing env cfg pre t).1
  unfolding after_routing
  after_routing-holds t =
      let t2 =
        (act env (on_phase_start reverse_replica) (act env (on_phase_complete routing) t).1).1 in
      let (o, t3) = phase_reverse_replica env cfg t2 in
      let t4 = (reported env cfg o t3).1 in
      let t5 = (act env (on_phase_start verify) t4).1 in
      let (v, t6) = phase_verify env t5 in
      over.join (started-holds over env cfg routing reverse_replica t) (
        over.join (reverse_replica-holds over env cfg t2) (
          over.join (reported-holds over env cfg o t3) (
            over.join (over.step (on_phase_start verify) _ t4 refl)
              (over.join (verify-holds over env cfg t5) (finish-holds v t6)))))

  routing_step-holds : (o : Option Outcome) (t : Trace) → R t (routing_step env cfg pre o t).1
  unfolding routing_step
  routing_step-holds none t = over.stay t
  routing_step-holds (some (err e)) t =
      failure-holds routing (promote ∷ fence ∷ pre_flight ∷ []) e t
  routing_step-holds (some (ok _)) t = after_routing-holds t

  promote_step-holds : (o : Outcome) (t : Trace) → R t (promote_step env cfg pre o t).1
  unfolding promote_step
  promote_step-holds (err e) t = failure-holds promote (fence ∷ pre_flight ∷ []) e t
  promote_step-holds (ok _) t =
      let t2 = (act env (on_phase_start routing) (act env (on_phase_complete promote) t).1).1 in
      let (o, t3) = phase_routing env cfg t2 in
      over.join (started-holds over env cfg promote routing t)
        (over.join (routing-holds over env cfg t2) (routing_step-holds o t3))

  fence_step-holds : (o : Outcome) (t : Trace) → R t (fence_step env cfg pre o t).1
  unfolding fence_step
  fence_step-holds (err e) t = failure-holds fence (pre_flight ∷ []) e t
  fence_step-holds (ok _) t =
      let t2 = (act env (on_phase_start promote) (act env (on_phase_complete fence) t).1).1 in
      let (o, t3) = phase_promote env cfg t2 in
      over.join (started-holds over env cfg fence promote t)
        (over.join (promote-holds over env cfg t2) (promote_step-holds o t3))

  drained-holds : (o : Outcome) (t : Trace) → R t (drained env cfg pre o t).1
  unfolding drained
  drained-holds (err e) t = over.stay t
  drained-holds (ok _) t =
      let t1 = (act env (on_phase_start fence) t).1 in
      let (o, t2) = phase_fence env cfg t1 in
      over.join (over.step (on_phase_start fence) _ t refl)
        (over.join (fence-holds over env cfg t1) (fence_step-holds o t2))

  pre_flight_step-holds : (o : Outcome) (t : Trace) → R t (pre_flight_step env cfg pre o t).1
  unfolding pre_flight_step
  pre_flight_step-holds (err e) t = over.step _ _ t refl
  pre_flight_step-holds (ok _) t =
      let t1 = (act env (on_phase_complete pre_flight) t).1 in
      let waited = act env (drain cfg.drain_timeout) t1 in
      let completed = over.step (on_phase_complete pre_flight) _ t refl in
      elim (Bool-cases (ltb_ℤ (pos 0) cfg.drain_timeout)) [
        | inl waits ↦ simp (waits) (
            over.join completed (
              over.join (over.step (drain cfg.drain_timeout) _ t1 refl)
                (drained-holds waited.0 waited.1)))
        | inr goes ↦ simp (goes) (over.join completed (drained-holds done t1))
      ]

pub execute-holds :
    {R : Trace → Trace → Type 0} (over : HoldsOverCalls R) (env : Env) (cfg : Config)
    → R
        (phase_pre_flight env cfg (act env (on_phase_start pre_flight) []).1).1
        (execute env cfg []).1
unfolding execute
execute-holds over env cfg =
    let (checked, t2) = phase_pre_flight env cfg (act env (on_phase_start pre_flight) []).1 in
    pre_flight_step-holds over env cfg checked.0 checked.1 t2
