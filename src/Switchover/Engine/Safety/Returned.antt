-- ===== src/Switchover/Engine/Safety/Returned.antt =====
-- A switchover with a ProxySQL manager returns: it does not panic.
use mysql_keeper.Prelude.{◌≡◌, refl, true, Option, some, Bool-cases, inl, inr}
use mysql_keeper.Prelude.Int.{pos, ltb_ℤ}
use mysql_keeper.Go.Error.{Outcome, ok, err, done}
use mysql_keeper.Switchover.Effects.{Env, Trace, act, pre_flight, on_phase_start}
use mysql_keeper.Switchover.PreFlight.Result.{PreFlightResult}
use mysql_keeper.Switchover.Engine.{
  ExecResult, execute, pre_flight_step, drained, fence_step, promote_step, routing_step,
  after_routing, finish, failure,
}
use mysql_keeper.Switchover.Engine.Phases.{Config, phase_pre_flight, phase_routing}

abbrev Returns : Option ExecResult × Trace → Type 0
Returns (r, t) = (x : ExecResult) × (r ≡ some x)

module _ (env : Env) (cfg : Config) (there : cfg.local_proxysql ≡ true)
    (pre : PreFlightResult) where
  finish-Returns : (o : Outcome) (t : Trace) → Returns (finish env cfg pre o t)
  unfolding finish
  finish-Returns (ok _) t = (_, refl)
  finish-Returns (err e) t = (_, refl)

  routing_step-Returns : (o : Outcome) (t : Trace) → Returns (routing_step env cfg pre (some o) t)
  unfolding routing_step after_routing failure
  routing_step-Returns (err e) t = (_, refl)
  routing_step-Returns (ok _) t = finish-Returns _ _

  promote_step-Returns : (o : Outcome) (t : Trace) → Returns (promote_step env cfg pre o t)
  unfolding promote_step failure phase_routing
  promote_step-Returns (err e) t = (_, refl)
  promote_step-Returns (ok _) t = simp (there) (routing_step-Returns _ _)

  fence_step-Returns : (o : Outcome) (t : Trace) → Returns (fence_step env cfg pre o t)
  unfolding fence_step failure
  fence_step-Returns (err e) t = (_, refl)
  fence_step-Returns (ok _) t = promote_step-Returns _ _

  drained-Returns : (o : Outcome) (t : Trace) → Returns (drained env cfg pre o t)
  unfolding drained
  drained-Returns (err e) t = (_, refl)
  drained-Returns (ok _) t = fence_step-Returns _ _

  pre_flight_step-Returns : (o : Outcome) (t : Trace) → Returns (pre_flight_step env cfg pre o t)
  unfolding pre_flight_step
  pre_flight_step-Returns (err e) t = (_, refl)
  pre_flight_step-Returns (ok _) t = elim (Bool-cases (ltb_ℤ (pos 0) cfg.drain_timeout)) [
    | inl waits ↦ simp (waits) (drained-Returns _ _)
    | inr goes ↦ simp (goes) (drained-Returns done _)
  ]

pub execute-Returns :
    (env : Env) (cfg : Config) (t : Trace)
    → cfg.local_proxysql ≡ true
    → (x : ExecResult) × ((execute env cfg t).0 ≡ some x)
unfolding execute
execute-Returns env cfg t there =
    let (checked, t2) = phase_pre_flight env cfg (act env (on_phase_start pre_flight) t).1 in
    pre_flight_step-Returns env cfg there checked.0 checked.1 t2
