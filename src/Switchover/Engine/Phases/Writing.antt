-- ===== src/Switchover/Engine/Phases/Writing.antt =====
-- What each phase of engine.go does to the clusters that take writes, by its outcome.
use mysql_keeper.Prelude.{
  ◌≡◌, refl, ap, ◌∙◌, ◌∷◌, Bool, true, false, ◌&&◌, ◌||◌, not, Option, none, some, arith,
  Bool-cases, str_eq, inl, inr,
}
use mysql_keeper.Go.Error.{Error, Outcome, ok, err, done}
use mysql_keeper.Switchover.Effects.{
  Env, Trace, local, remote, set_read_only, set_read_write, blackhole, stop_replica,
}
use mysql_keeper.Switchover.PreFlight.Quiet.{run-quiet}
use mysql_keeper.Switchover.Engine.Phases.{
  Config, preflight_of, ReverseReplicationSource, phase_pre_flight, phase_fence, fence_by, escalate,
  blackholed, probe, phase_promote, promoted, clear_upstream, phase_routing, phase_reverse_replica,
  reverse_from, reset_former, phase_verify,
}
use mysql_keeper.Switchover.Writers.{Writers, replay, replay-kept}

-- A phase's effect on the writers.
abbrev pub shut : Outcome → Writers → Writers
shut (ok _) w = record w { local_open = false }
shut (err e) w = w

abbrev pub grant : Outcome → Writers → Writers
grant (ok _) w = record w { remote_open = true; ever_both = w.ever_both || w.local_open }
grant (err e) w = w

module _ (env : Env) (cfg : Config) where
  blackholed-writers :
      (e : Error) (o : Outcome) (t : Trace)
      → replay ((blackhole cfg.blackhole_fence, o) ∷ t) ≡ shut (blackholed env cfg e o) (replay t)
  unfolding replay blackholed
  blackholed-writers e (ok _) t = refl
  blackholed-writers e (err _) t = refl

  escalate-writers :
      (e : Error) (b : Bool) (t : Trace)
      → replay (escalate env cfg e b t).1 ≡ shut (escalate env cfg e b t).0 (replay t)
  unfolding escalate
  escalate-writers e true t = refl
  escalate-writers e false t = elim (Bool-cases cfg.local_proxysql) [
    | inl there ↦ simp (there) (blackholed-writers e _ t)
    | inr missing ↦ simp (missing) refl
  ]

  probe-quiet : (t : Trace) → replay (probe env cfg t).1 ≡ replay t
  unfolding probe replay
  probe-quiet t = elim (Bool-cases cfg.local_inspector) [
    | inl there ↦ simp (there) refl
    | inr missing ↦ simp (missing) refl
  ]

  fence_by-writers :
      (o : Outcome) (t : Trace)
      → replay (fence_by env cfg o ((set_read_only local, o) ∷ t)).1
        ≡ shut (fence_by env cfg o ((set_read_only local, o) ∷ t)).0 (replay t)
  unfolding fence_by replay
  fence_by-writers (ok _) t = refl
  fence_by-writers (err e) t =
      let t1 = (set_read_only local, err e) ∷ t in
      let (b, t2) = probe env cfg t1 in
      escalate-writers e b t2 ∙ ap (shut (escalate env cfg e b t2).0) (probe-quiet t1)

  pub fence-writers :
      (t : Trace) → replay (phase_fence env cfg t).1 ≡ shut (phase_fence env cfg t).0 (replay t)
  unfolding phase_fence
  fence-writers t = fence_by-writers (env.outcome t (set_read_only local)) t

  clear_upstream-quiet : (t : Trace) → replay (clear_upstream env cfg t).1 ≡ replay t
  unfolding clear_upstream replay
  clear_upstream-quiet t =
      elim (Bool-cases (cfg.remote_replication && not (str_eq cfg.remote_replication_channel ""))) [
        | inl asked ↦ simp (asked) refl
        | inr skipped ↦ simp (skipped) refl
      ]

  -- Clearing the former upstream never fails the phase.
  clear_upstream-done : (t : Trace) → (clear_upstream env cfg t).0 ≡ done
  unfolding clear_upstream
  clear_upstream-done t = ground arith

  promoted-writers :
      (o : Outcome) (t : Trace)
      → replay (promoted env cfg o ((set_read_write remote, o) ∷ t)).1
        ≡ grant (promoted env cfg o ((set_read_write remote, o) ∷ t)).0 (replay t)
  unfolding promoted replay
  promoted-writers (err e) t = refl
  promoted-writers (ok _) t =
      let t1 = (set_read_write remote, done) ∷ t in
      rw (clear_upstream-done t1) (clear_upstream-quiet t1)

  pub promote-writers :
      (t : Trace)
      → replay (phase_promote env cfg t).1 ≡ grant (phase_promote env cfg t).0 (replay t)
  unfolding phase_promote
  promote-writers t = promoted-writers (env.outcome t (set_read_write remote)) t

  pub routing-quiet : (t : Trace) → replay (phase_routing env cfg t).1 ≡ replay t
  unfolding phase_routing replay
  routing-quiet t = elim (Bool-cases cfg.local_proxysql) [
    | inl there ↦ simp (there) refl
    | inr missing ↦ simp (missing) refl
  ]

  reset_former-quiet : (o : Outcome) (t : Trace) → replay (reset_former env cfg o t).1 ≡ replay t
  unfolding reset_former replay
  reset_former-quiet (ok _) t = refl
  reset_former-quiet (err e) t = refl

  reverse_from-quiet :
      (src : Option ReverseReplicationSource) (t : Trace)
      → replay (reverse_from env cfg src t).1 ≡ replay t
  unfolding reverse_from replay
  reverse_from-quiet none t = refl
  reverse_from-quiet (some s) t = elim (Bool-cases cfg.local_replication) [
    | inl there ↦ simp (there) (
        let o = env.outcome t (stop_replica local cfg.local_replication_channel) in
        reset_former-quiet o ((stop_replica local cfg.local_replication_channel, o) ∷ t))
    | inr missing ↦ simp (missing) refl
  ]

  pub reverse_replica-quiet : (t : Trace) → replay (phase_reverse_replica env cfg t).1 ≡ replay t
  unfolding phase_reverse_replica
  reverse_replica-quiet t = reverse_from-quiet cfg.reverse_replication_source t

pub verify-quiet : (env : Env) (t : Trace) → replay (phase_verify env t).1 ≡ replay t
unfolding phase_verify replay
verify-quiet env t = refl

pub pre_flight-quiet :
    (env : Env) (cfg : Config) (t : Trace) → replay (phase_pre_flight env cfg t).1 ≡ replay t
unfolding phase_pre_flight
pre_flight-quiet env cfg t = run-quiet replay replay-kept env (preflight_of cfg) t
