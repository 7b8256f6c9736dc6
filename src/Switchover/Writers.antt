-- ===== src/Switchover/Writers.antt =====
-- Who takes writes, replayed from the trace of a switchover: at the start the local cluster does and
-- the remote one does not. A call that fails is taken not to have changed anything.
use mysql_keeper.Prelude.{◌≡◌, refl, List, [], ◌∷◌, Bool, true, false, ◌||◌, if◌then◌else◌}
use mysql_keeper.Go.Error.{Outcome, ok}
use mysql_keeper.Switchover.Effects.{
  Call, Trace, local, remote, set_read_only, set_read_write, blackhole, stop_replica,
  reset_replica_all, apply_failover_routing, rollback_routing,
}

-- Which clusters take writes, and whether both ever did at once.
pub record Writers : Type 0 where
  pub local_open : Bool
  pub remote_open : Bool
  pub ever_both : Bool

abbrev pub next : Call → Outcome → Writers → Writers
next (set_read_only local) (ok _) w = record w { local_open = false }
next (blackhole _) (ok _) w = record w { local_open = false }
next (set_read_only remote) (ok _) w = record w { remote_open = false }
next (set_read_write local) (ok _) w = record w {
  local_open = true;
  ever_both = w.ever_both || w.remote_open;
}
next (set_read_write remote) (ok _) w = record w {
  remote_open = true;
  ever_both = w.ever_both || w.local_open;
}
next _ _ w = w

unfoldable pub replay : Trace → Writers
replay [] = record { local_open = true; remote_open = false; ever_both = false }
replay ((c, o) ∷ t) = next c o (replay t)

-- The calls that change a cluster, its replication or its routing.
abbrev pub changes : Call → Bool
changes (set_read_only _) = true
changes (set_read_write _) = true
changes (stop_replica _ _) = true
changes (reset_replica_all _ _) = true
changes (apply_failover_routing _) = true
changes (rollback_routing _) = true
changes (blackhole _) = true
changes _ = false

unfoldable pub changed : Trace → List Call
changed [] = []
changed ((c, o) ∷ t) = if changes c then c ∷ changed t else changed t

-- A call that changes nothing keeps both.
pub replay-kept :
    (c : Call) (o : Outcome) (t : Trace) → changes c ≡ false → replay ((c, o) ∷ t) ≡ replay t
unfolding replay
replay-kept (set_read_only s) o t k = cc
replay-kept (set_read_write s) o t k = cc
replay-kept (blackhole b) o t k = cc
replay-kept c o t k = refl

pub changed-kept :
    (c : Call) (o : Outcome) (t : Trace) → changes c ≡ false → changed ((c, o) ∷ t) ≡ changed t
unfolding changed
changed-kept c o t k = rw k refl
