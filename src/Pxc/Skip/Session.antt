-- ===== src/Pxc/Skip/Session.antt =====
-- What the statements of a skip do to the connection and to the applier of the channel, by the
-- manual of the server.
use mysql_keeper.Prelude.{List, [], ◌∷◌}
use mysql_keeper.Go.Error.{Outcome, ok, err}
use mysql_keeper.Pxc.Skip.{
  Bytes, Statement, Trace, stop_replica, stop_slave, start_replica, start_slave, set_gtid_next,
  begin_transaction, commit_transaction, rollback_transaction, reset_gtid_next,
}

-- gtid_next of the session.
pub data GtidNext : Type 0 where
  automatic : GtidNext
  assigned : Bytes → GtidNext

-- The applier of the channel.
pub data Applier : Type 0 where
  running stopped : Applier

-- gtid_next, the applier, and the GTIDs of the empty transactions that were committed.
pub record Session : Type 0 where
  pub gtid_next : GtidNext
  pub applier : Applier
  pub skipped : List Bytes

abbrev commit : GtidNext → Session → Session
commit automatic s = s
commit (assigned g) s = record s { skipped = g ∷ s.skipped }

-- What a statement that worked does; one that failed does nothing.
abbrev effect : Statement → Session → Session
effect (stop_replica _) s = record s { applier = stopped }
effect (stop_slave _) s = record s { applier = stopped }
effect (start_replica _) s = record s { applier = running }
effect (start_slave _) s = record s { applier = running }
effect (set_gtid_next g) s = record s { gtid_next = assigned g }
effect begin_transaction s = s
effect commit_transaction s = commit s.gtid_next s
effect rollback_transaction s = s
effect reset_gtid_next s = record s { gtid_next = automatic }

abbrev after_event : Statement → Outcome → Session → Session
after_event st (ok _) s = effect st s
after_event st (err _) s = s

abbrev pub session : Trace → Session
session [] = record { gtid_next = automatic; applier = running; skipped = [] }
session ((st, o) ∷ t) = after_event st o (session t)
