-- ===== src/Switchover/Engine/Safety.antt =====
-- Execute of engine.go never leaves two clusters that take writes.
pub mod Endings
pub mod Held
pub mod Returned
pub mod Unwaited
use mysql_keeper.Prelude.{
  ◌≡◌, ◌≢◌, refl, ap, sym, ◌∙◌, List, [], ◌∷◌, Bool, true, false, ◌&&◌, ◌||◌, not, if◌then◌else◌,
  Option, none, some, arith, Bool-cases, str_eq, inl, inr,
}
use mysql_keeper.Prelude.Int.{pos, ltb_ℤ}
use mysql_keeper.Go.Error.{Error, Outcome, Result, ok, err, done}
use mysql_keeper.Switchover.Effects.{
  Env, M, Call, Trace, pure, act, local, remote, fence, promote, routing, pre_flight,
  reverse_replica, verify, is_writable, set_read_only, set_read_write, on_phase_start,
  on_phase_complete, on_phase_error, drain,
}
use mysql_keeper.Switchover.PreFlight.Result.{PreFlightResult}
use mysql_keeper.Switchover.Engine.{
  ExecResult, execute, pre_flight_step, drained, fence_step, promote_step, routing_step,
  after_routing, reported, finish, failure, rollback, undo,
}
use mysql_keeper.Switchover.Engine.Phases.{
  Config, phase_pre_flight, phase_fence, phase_promote, phase_routing, phase_reverse_replica,
  phase_verify,
}
use mysql_keeper.Switchover.Engine.Phases.Writing.{
  shut, grant, fence-writers, promote-writers, routing-quiet, reverse_replica-quiet, verify-quiet,
  pre_flight-quiet,
}
use mysql_keeper.Switchover.Writers.{Writers, replay, next}

-- Demoting the new source, when a rollback does it, works.
abbrev pub DemotionWorks : Env → Type 0
DemotionWorks env = (t : Trace) → env.outcome t (set_read_only remote) ≡ done

-- The writers that a trace leaves, and that there never were two.
abbrev HasOneWriter : Writers → Type 0
HasOneWriter w = w.ever_both ≡ false

module _ (env : Env) (cfg : Config) (pre : PreFlightResult) where
  finish-quiet : (o : Outcome) (t : Trace) → replay (finish env cfg pre o t).1 ≡ replay t
  unfolding finish replay
  finish-quiet (ok _) t = refl
  finish-quiet (err e) t = refl

  reported-quiet : (o : Outcome) (t : Trace) → replay (reported env cfg o t).1 ≡ replay t
  unfolding reported replay
  reported-quiet (ok _) t = refl
  reported-quiet (err e) t = refl

  after_routing-quiet : (t : Trace) → replay (after_routing env cfg pre t).1 ≡ replay t
  unfolding after_routing replay
  after_routing-quiet t =
      let t1 =
        (act env (on_phase_start reverse_replica) (act env (on_phase_complete routing) t).1).1 in
      let (o, t2) = phase_reverse_replica env cfg t1 in
      let t3 = (reported env cfg o t2).1 in
      let t4 = (act env (on_phase_start verify) t3).1 in
      let (v, t5) = phase_verify env t4 in
      finish-quiet v t5
      ∙ verify-quiet env t4
      ∙ reported-quiet o t2
      ∙ reverse_replica-quiet env cfg t1

  fence-failure-quiet :
      (e : Error) (t : Trace)
      → replay (failure env cfg fence (pre_flight ∷ []) pre e t).1 ≡ replay t
  unfolding failure rollback undo replay
  fence-failure-quiet e t = refl

  -- Writes go back to the former source, which alone takes them then.
  reopening :
      (o : Outcome) (w : Writers)
      → HasOneWriter w
      → w.remote_open ≡ false
      → HasOneWriter (next (set_read_write local) o w)
  reopening (ok _) w one closed = ground arith
  reopening (err e) w one closed = one

  promote_failure-one :
      (e : Error) (t : Trace)
      → HasOneWriter (replay t)
      → (replay t).remote_open ≡ false
      → HasOneWriter (replay (failure env cfg promote (fence ∷ pre_flight ∷ []) pre e t).1)
  unfolding failure rollback undo replay
  promote_failure-one e t one closed = reopening _ (replay t) one closed

  routing_failure-one :
      (e : Error) (t : Trace)
      → DemotionWorks env
      → HasOneWriter (replay t)
      → HasOneWriter
          (replay (failure env cfg routing (promote ∷ fence ∷ pre_flight ∷ []) pre e t).1)
  unfolding failure rollback undo replay
  routing_failure-one e t works one =
      simp (works) (reopening _ (record (replay t) { remote_open = false }) one refl)

  routing_step-one :
      (r : Option Outcome) (t : Trace)
      → DemotionWorks env
      → HasOneWriter (replay t)
      → HasOneWriter (replay (routing_step env cfg pre r t).1)
  unfolding routing_step
  routing_step-one none t works one = one
  routing_step-one (some (err e)) t works one = routing_failure-one e t works one
  routing_step-one (some (ok _)) t works one = rw (after_routing-quiet t) one

  -- Before Promote the remote cluster takes no writes; after a fence that held, none does.
  promote_step-one :
      (o : Outcome) (t : Trace)
      → DemotionWorks env
      → HasOneWriter (replay t)
      → (o ≢ done → (replay t).remote_open ≡ false)
      → HasOneWriter (replay (promote_step env cfg pre o t).1)
  unfolding promote_step replay
  promote_step-one (err e) t works one closed = promote_failure-one e t one (closed (λ p. cc))
  promote_step-one (ok _) t works one closed =
      let t1 = (act env (on_phase_start routing) (act env (on_phase_complete promote) t).1).1 in
      let (r, t2) = phase_routing env cfg t1 in
      routing_step-one r t2 works (rw (routing-quiet env cfg t1) one)

  -- A promotion while the local cluster takes no writes.
  granted-one :
      (o : Outcome) (w : Writers) → HasOneWriter w → w.local_open ≡ false → HasOneWriter (grant o w)
  granted-one (ok _) w one closed = ground arith
  granted-one (err e) w one closed = one

  granted-closed :
      (o : Outcome) (w : Writers)
      → w.remote_open ≡ false
      → o ≢ done
      → (grant o w).remote_open ≡ false
  granted-closed (ok tt) w closed bad = absurd (bad refl)
  granted-closed (err e) w closed bad = closed

  fence_step-one :
      (o : Outcome) (t : Trace)
      → DemotionWorks env
      → HasOneWriter (replay t)
      → (replay t).remote_open ≡ false
      → (o ≡ done → (replay t).local_open ≡ false)
      → HasOneWriter (replay (fence_step env cfg pre o t).1)
  unfolding fence_step replay
  fence_step-one (err e) t works one closed fenced = rw (fence-failure-quiet e t) one
  fence_step-one (ok tt) t works one closed fenced =
      let t1 = (act env (on_phase_start promote) (act env (on_phase_complete fence) t).1).1 in
      let (o, t2) = phase_promote env cfg t1 in
      promote_step-one o t2 works
        (rw (promote-writers env cfg t1) (granted-one o (replay t) one (fenced refl)))
        (λ bad. rw (promote-writers env cfg t1) (granted-closed o (replay t) closed bad))

  shut-one : (o : Outcome) (w : Writers) → HasOneWriter w → HasOneWriter (shut o w)
  shut-one (ok _) w one = one
  shut-one (err e) w one = one

  shut-remote : (o : Outcome) (w : Writers) → (shut o w).remote_open ≡ w.remote_open
  shut-remote (ok _) w = refl
  shut-remote (err e) w = refl

  drained-one :
      (o : Outcome) (t : Trace)
      → DemotionWorks env
      → HasOneWriter (replay t)
      → (replay t).remote_open ≡ false
      → HasOneWriter (replay (drained env cfg pre o t).1)
  unfolding drained replay
  drained-one (err e) t works one closed = one
  drained-one (ok _) t works one closed =
      let t1 = (act env (on_phase_start fence) t).1 in
      let (o, t2) = phase_fence env cfg t1 in
      fence_step-one o t2 works (rw (fence-writers env cfg t1) (shut-one o (replay t) one))
        (rw (fence-writers env cfg t1) (shut-remote o (replay t) ∙ closed))
        (λ held. rw (fence-writers env cfg t1, held) refl)

  pre_flight_step-one :
      (o : Outcome) (t : Trace)
      → DemotionWorks env
      → HasOneWriter (replay t)
      → (replay t).remote_open ≡ false
      → HasOneWriter (replay (pre_flight_step env cfg pre o t).1)
  unfolding pre_flight_step replay
  pre_flight_step-one (err e) t works one closed = one
  pre_flight_step-one (ok _) t works one closed =
      let t1 = (act env (on_phase_complete pre_flight) t).1 in
      let waited = act env (drain cfg.drain_timeout) t1 in
      elim (Bool-cases (ltb_ℤ (pos 0) cfg.drain_timeout)) [
        | inl waits ↦ simp (waits) (drained-one waited.0 waited.1 works one closed)
        | inr goes ↦ simp (goes) (drained-one done t1 works one closed)
      ]

-- If every call that sets the remote cluster read-only succeeds, then a switchover that starts with
-- the local cluster alone taking writes never has two clusters that take writes, whatever the other
-- calls answer and wherever it stops; a call that fails is taken not to have changed anything, and
-- a cluster fenced by routing alone counts as taking no writes.
pub execute-single_writer :
    (env : Env) (cfg : Config)
    → DemotionWorks env
    → (replay (execute env cfg []).1).ever_both ≡ false
unfolding execute replay
execute-single_writer env cfg works =
    let t1 = (act env (on_phase_start pre_flight) []).1 in
    let (checked, t2) = phase_pre_flight env cfg t1 in
    pre_flight_step-one env cfg checked.0 checked.1 t2 works (rw (pre_flight-quiet env cfg t1) refl)
      (rw (pre_flight-quiet env cfg t1) refl)
