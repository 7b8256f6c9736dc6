-- ===== src/Switchover/Engine/Safety/Unwaited.antt =====
-- When Execute of engine.go asks for the GTIDs: before the fence, and not again.
use mysql_keeper.Prelude.{
  ◌≡◌, refl, ◌∙◌, List, [], ◌∷◌, Bool, true, false, ◌&&◌, ◌||◌, if◌then◌else◌,
}
use mysql_keeper.Go.Error.{Outcome}
use mysql_keeper.Switchover.Effects.{
  Env, Call, Trace, act, local, set_read_only, pre_flight, on_phase_start,
}
use mysql_keeper.Switchover.PreFlight.Quiet.{run-quiet}
use mysql_keeper.Switchover.Writers.{changes}
use mysql_keeper.Switchover.Engine.{execute}
use mysql_keeper.Switchover.Engine.Phases.{Config, preflight_of, phase_pre_flight}
use mysql_keeper.Switchover.Engine.Phases.Unasked.{is_gtid_query, HoldsOverCalls}
use mysql_keeper.Switchover.Engine.Safety.Held.{execute-holds}

-- The local cluster has been told to stop writing.
abbrev pub is_fence : Call → Bool
is_fence (set_read_only local) = true
is_fence _ = false

unfoldable pub fenced : Trace → Bool
fenced [] = false
fenced ((c, o) ∷ t) = is_fence c || fenced t

-- The questions about GTIDs that come after that.
unfoldable pub late_queries : Trace → List Call
unfolding fenced
late_queries [] = []
late_queries ((c, o) ∷ t) =
    let rest = late_queries t in if is_gtid_query c && fenced t then c ∷ rest else rest

late_queries-cons :
    (c : Call) (o : Outcome) (t : Trace)
    → is_gtid_query c ≡ false
    → late_queries ((c, o) ∷ t) ≡ late_queries t
unfolding late_queries
late_queries-cons c o t h = rw h refl

kept_late_queries : HoldsOverCalls (λ t u. late_queries u ≡ late_queries t)
kept_late_queries = record { stay = λ t. refl; join = λ a b. b ∙ a; step = late_queries-cons }

fenced-kept :
    (c : Call) (o : Outcome) (t : Trace) → changes c ≡ false → fenced ((c, o) ∷ t) ≡ fenced t
unfolding fenced
fenced-kept (set_read_only local) o t h = cc
fenced-kept c o t h = refl

or_right : (a b : Bool) → (a || b) ≡ false → b ≡ false
or_right true b h = cc
or_right false b h = h

and_false : (a b : Bool) → b ≡ false → (a && b) ≡ false
and_false true b h = h
and_false false b h = refl

unfenced : (t : Trace) → fenced t ≡ false → late_queries t ≡ []
unfolding late_queries fenced
unfenced [] h = refl
unfenced ((c, o) ∷ t) h =
    let before = or_right (is_fence c) (fenced t) h in
    rw (and_false (is_gtid_query c) (fenced t) before) (unfenced t before)

-- Whatever the calls answer, a switchover asks no cluster for its GTIDs, for those that it misses,
-- or to wait for some, after it has told the local cluster to stop writing: whether the remote
-- cluster has caught up is asked only before that.
pub execute-asks_before : (env : Env) (cfg : Config) → late_queries (execute env cfg []).1 ≡ []
unfolding phase_pre_flight fenced
execute-asks_before env cfg =
    let t1 = (act env (on_phase_start pre_flight) []).1 in
    execute-holds kept_late_queries env cfg
    ∙ unfenced (phase_pre_flight env cfg t1).1
        (run-quiet fenced fenced-kept env (preflight_of cfg) t1 ∙ refl)
