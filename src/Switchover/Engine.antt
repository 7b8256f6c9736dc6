-- ===== src/Switchover/Engine.antt =====
-- engine.go: the phases of a switchover, the run that strings them together, and the rollback.
--
-- A phase is an action with an outcome; the run stops at the first that fails and undoes what was
-- done. `none` is the end of a run that panicked: LocalProxySQL is called without a test for nil.
pub mod Phases
pub mod Safety
mod Tests
use mysql_keeper.Prelude.{List, [], ◌∷◌, Bool, true, false, Option, none, some, not, if◌then◌else◌}
use mysql_keeper.Prelude.Int.{pos, ltb_ℤ}
use mysql_keeper.Go.Error.{Error, Outcome, ok, err, done}
use mysql_keeper.Switchover.Effects.{
  Phase, pre_flight, fence, promote, routing, reverse_replica, verify, finished, Env, M, pure,
  ◌>>=◌, ◌>>◌, act, local, remote, set_read_only, set_read_write, rollback_routing, on_phase_start,
  on_phase_complete, on_phase_error, drain,
}
use mysql_keeper.Switchover.PreFlight.Result.{PreFlightResult}
use mysql_keeper.Switchover.Engine.Phases.{
  Config, phase_pre_flight, phase_fence, phase_promote, phase_routing, phase_reverse_replica,
  phase_verify,
}

-- Result, whose preflight is always there.
pub record ExecResult : Type 0 where
  pub success : Bool
  pub failed_phase : Phase
  pub rolled_back : Bool
  pub error : Option Error
  pub preflight : PreFlightResult

module _ (env : Env) (cfg : Config) where
  -- Undoing one phase. Its failure is logged and forgotten.
  undo : Phase → M Outcome
  undo promote = act env (set_read_only remote)
  undo fence = act env (set_read_write local)
  undo routing = act env (rollback_routing cfg.routing)
  undo _ = pure done

  -- The completed phases, the last one first.
  rollback : List Phase → M Unit
  unfolding undo
  rollback [] = pure tt
  rollback (phase ∷ earlier) = undo phase >> rollback earlier

  -- A phase failed: report it, undo what was done, return.
  failure : Phase → List Phase → PreFlightResult → Error → M (Option ExecResult)
  unfolding rollback
  failure phase completed pre e = do
    act env (on_phase_error phase e)
    rollback completed
    pure (
        some (record {
          success = false;
          failed_phase = phase;
          rolled_back = true;
          error = some e;
          preflight = pre;
        }))

  -- The end of Execute, from the outcome of phaseVerify.
  finish : PreFlightResult → Outcome → M (Option ExecResult)
  finish pre (ok _) = do
    act env (on_phase_complete verify)
    pure (
        some (record {
          success = true;
          failed_phase = finished;
          rolled_back = false;
          error = none;
          preflight = pre;
        }))
  finish pre (err e) = do
    act env (on_phase_error verify e)
    pure (
        some (record {
          success = false;
          failed_phase = verify;
          rolled_back = false;
          error = some e;
          preflight = pre;
        }))

  -- ReverseReplica is best-effort: its error is reported only.
  reported : Outcome → M Outcome
  reported (ok _) = act env (on_phase_complete reverse_replica)
  reported (err e) = act env (on_phase_error reverse_replica e)

  after_routing : PreFlightResult → M (Option ExecResult)
  unfolding finish reported
  after_routing pre = do
    act env (on_phase_complete routing)
    act env (on_phase_start reverse_replica)
    reversed ← phase_reverse_replica env cfg
    reported reversed
    act env (on_phase_start verify)
    verified ← phase_verify env
    finish pre verified

  routing_step : PreFlightResult → Option Outcome → M (Option ExecResult)
  unfolding failure after_routing
  routing_step pre none = pure none
  routing_step pre (some (err e)) = failure routing (promote ∷ fence ∷ pre_flight ∷ []) pre e
  routing_step pre (some (ok _)) = after_routing pre

  promote_step : PreFlightResult → Outcome → M (Option ExecResult)
  unfolding failure routing_step
  promote_step pre (err e) = failure promote (fence ∷ pre_flight ∷ []) pre e
  promote_step pre (ok _) = do
    act env (on_phase_complete promote)
    act env (on_phase_start routing)
    routed ← phase_routing env cfg
    routing_step pre routed

  fence_step : PreFlightResult → Outcome → M (Option ExecResult)
  unfolding failure promote_step
  fence_step pre (err e) = failure fence (pre_flight ∷ []) pre e
  fence_step pre (ok _) = do
    act env (on_phase_complete fence)
    act env (on_phase_start promote)
    promoted ← phase_promote env cfg
    promote_step pre promoted

  -- The wait before Fence; the context may end it.
  drained : PreFlightResult → Outcome → M (Option ExecResult)
  unfolding fence_step
  drained pre (err e) = pure (
      some (record {
        success = false;
        failed_phase = fence;
        rolled_back = false;
        error = some e;
        preflight = pre;
      }))
  drained pre (ok _) = do
    act env (on_phase_start fence)
    fenced ← phase_fence env cfg
    fence_step pre fenced

  pre_flight_step : PreFlightResult → Outcome → M (Option ExecResult)
  unfolding drained
  pre_flight_step pre (err e) = do
    act env (on_phase_error pre_flight e)
    pure (
        some (record {
          success = false;
          failed_phase = pre_flight;
          rolled_back = false;
          error = some e;
          preflight = pre;
        }))
  pre_flight_step pre (ok _) = do
    act env (on_phase_complete pre_flight)
    waited ←
        (if ltb_ℤ (pos 0) cfg.drain_timeout then act env (drain cfg.drain_timeout) else pure done)
    drained pre waited

  unfoldable pub execute : M (Option ExecResult)
  unfolding pre_flight_step
  execute = do
    act env (on_phase_start pre_flight)
    checked ← phase_pre_flight env cfg
    pre_flight_step checked.0 checked.1
