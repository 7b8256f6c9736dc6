-- ===== src/Controller/ReplicationErrors/Cycle/Events.antt =====
-- The events that observeReplicationErrors reports, by a recorder that is there.
use mysql_keeper.Prelude.{
  String, List, [], ◌∷◌, ◌++◌, Bool, true, false, not, ◌&&◌, Option, some, if◌then◌else◌, map,
  str_eq,
}
use mysql_keeper.Prelude.Int.{ℤ}
use mysql_keeper.Go.Time.{Time}
use mysql_keeper.Go.Error.{Message, Result, ok}
use mysql_keeper.Api.{ClusterSwitchPolicy}
use mysql_keeper.Api.Status.{ReplicationErrorEntry}
use mysql_keeper.Health.{ClusterHealth, writable_eq, writable_unknown}
use mysql_keeper.Pxc.Replication.{WorkerError}
use mysql_keeper.Controller.ReplicationErrors.Skip.{is_currently_quarantined}
use mysql_keeper.Controller.ReplicationErrors.Quarantine.{Quarantine}
use mysql_keeper.Controller.ReplicationErrors.Cycle.{Inspector, ReplicationErrorOutcome, entry_of}

pub data ErrorEvent : Type 0 where
  gtid_gap_high : ℤ → ErrorEvent
  replication_sql_error : ReplicationErrorEntry → ErrorEvent
  replica_quarantined : Message → ErrorEvent
  replica_quarantine_cleared : String → ErrorEvent

-- The first error whose key was not active before the cycle.
unfoldable pub first_new :
    (ReplicationErrorEntry → Bool) → List ReplicationErrorEntry → List ErrorEvent
first_new known [] = []
first_new known (e ∷ es) =
    let rest = first_new known es in if known e then rest else replication_sql_error e ∷ []

unfoldable pub quarantine_event : Bool → Quarantine → String → List ErrorEvent
quarantine_event was q annotation =
    if not was && q.active
    then replica_quarantined q.reason ∷ []
    else if was && not q.active
    then replica_quarantine_cleared annotation ∷ []
    else []

unfoldable pub detection_events :
    ClusterSwitchPolicy
    → (ReplicationErrorEntry → Bool)
    → Quarantine
    → Time
    → Option (Result (List WorkerError))
    → List ErrorEvent
unfolding first_new quarantine_event
detection_events policy known q now (some (ok workers)) =
    first_new known (map (entry_of now) workers)
    ++ quarantine_event (is_currently_quarantined policy) q policy.metadata.clear_quarantine
detection_events policy known q now _ = []

-- Whether the cycle asks for the errors at all.
abbrev pub is_asked : ClusterSwitchPolicy → Inspector → ClusterHealth → Bool
is_asked policy comps local_health =
    comps.present
    && not (str_eq policy.spec.replication_channel_name "")
    && not (writable_eq local_health.writable writable_unknown)

abbrev pub is_answered : Option (Result (List WorkerError)) → Bool
is_answered (some (ok workers)) = true
is_answered _ = false

-- `known` tells whether the key of an error was active before the cycle.
unfoldable pub cycle_events :
    ClusterSwitchPolicy
    → Inspector
    → ClusterHealth
    → (ReplicationErrorEntry → Bool)
    → ReplicationErrorOutcome
    → Time
    → List ErrorEvent
unfolding detection_events
cycle_events policy comps local_health known out now =
    if not (is_asked policy comps local_health)
    then []
    else (if out.gtid_gap_triggered then gtid_gap_high out.gtid_missing ∷ [] else [])
      ++ detection_events policy known out.quarantine now comps.detected

abbrev pub tells_entered : List ErrorEvent → Bool
tells_entered [] = false
tells_entered (replica_quarantined m ∷ es) = true
tells_entered (_ ∷ es) = tells_entered es

abbrev pub tells_cleared : List ErrorEvent → Bool
tells_cleared [] = false
tells_cleared (replica_quarantine_cleared m ∷ es) = true
tells_cleared (_ ∷ es) = tells_cleared es
