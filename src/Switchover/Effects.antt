-- ===== src/Switchover/Effects.antt =====
-- The interfaces that the switchover is given (engine.go: PXCManager, ReplicationInspector,
-- ReplicationController, ProxySQLManager, ProgressReporter). Each call is an event of a trace, with
-- how it ended; the environment answers a call by all that went before it, so it may be any at all.
use mysql_keeper.Prelude.{String, List, [], ◌∷◌, Bool, ◌⊎◌}
use mysql_keeper.Prelude.Int.{ℤ}
use mysql_keeper.Go.Time.{Duration}
use mysql_keeper.Go.Error.{Message, Error, Outcome, Result, ok, err, done}
use mysql_keeper.Pxc.Gtid.{GtidSnapshot}
use mysql_keeper.Pxc.Replication.{ReplicationStatus}

pub data Phase : Type 0 where
  pre_flight fence promote routing reverse_replica verify finished : Phase

-- The former source is local, the new source remote.
pub data Side : Type 0 where
  local remote : Side

-- proxysql.RoutingConfig and proxysql.BlackholeConfig.
pub record RoutingConfig : Type 0 where
  pub old_writer_host : String
  pub old_writer_port : ℤ
  pub new_writer_host : String
  pub new_writer_port : ℤ
  pub read_write_hostgroup : ℤ
  pub read_only_hostgroup : ℤ

pub record BlackholeConfig : Type 0 where
  pub target_host : String
  pub target_port : ℤ
  pub blackhole_hostgroup : ℤ

pub data Call : Type 0 where
  -- PXCManager
  is_writable set_read_only set_read_write : Side → Call
  -- ReplicationInspector
  get_gtid_snapshot : Side → Call
  missing_gtids : Side → String → Call
  wait_for_gtid : Side → String → Duration → Call
  get_replication_status : Side → String → Call
  probe_reachable : Side → Duration → Call
  -- ReplicationController
  stop_replica reset_replica_all : Side → String → Call
  -- ProxySQLManager
  apply_failover_routing rollback_routing : RoutingConfig → Call
  blackhole : BlackholeConfig → Call
  -- ProgressReporter
  on_phase_start on_phase_complete : Phase → Call
  on_phase_error : Phase → Error → Call
  -- the wait between PreFlight and Fence: an error when the context is done first
  drain : Duration → Call

-- A call with how it ended; the newest event comes first in a trace.
abbrev pub Event : Type 0
Event = Call × Outcome

abbrev pub Trace : Type 0
Trace = List Event

-- The answers to the calls, by the results that they have, and strings.EqualFold and strings.TrimSpace.
pub record Env : Type 0 where
  pub outcome : Trace → Call → Outcome
  pub answer_bool : Trace → Call → Result Bool
  pub answer_text : Trace → Call → Result String
  pub answer_snapshot : Trace → Call → Result GtidSnapshot
  pub answer_status : Trace → Call → Result ReplicationStatus
  pub equal_fold : String → String → Bool
  pub trim_space : Message → Message

abbrev pub M : Type 0 → Type 0
M A = Trace → A × Trace

abbrev pub pure : {A : Type 0} → A → M A
pure a t = (a, t)

infixl 5 ◌>>=◌ ◌>>◌
abbrev pub ◌>>=◌ : {A B : Type 0} → M A → (A → M B) → M B
◌>>=◌ m f t = let (a, t') = m t in f a t'

abbrev pub ◌>>◌ : {A B : Type 0} → M A → M B → M B
m >> k = m >>= λ _. k

abbrev pub ending : {A : Type 0} → Result A → Outcome
ending (ok a) = done
ending (err e) = err e

module _ (env : Env) where
  abbrev pub act : Call → M Outcome
  act c t = let o = env.outcome t c in (o, (c, o) ∷ t)

  abbrev pub ask_bool : Call → M (Result Bool)
  ask_bool c t = let r = env.answer_bool t c in (r, (c, ending r) ∷ t)

  abbrev pub ask_text : Call → M (Result String)
  ask_text c t = let r = env.answer_text t c in (r, (c, ending r) ∷ t)

  abbrev pub ask_snapshot : Call → M (Result GtidSnapshot)
  ask_snapshot c t = let r = env.answer_snapshot t c in (r, (c, ending r) ∷ t)

  abbrev pub ask_status : Call → M (Result ReplicationStatus)
  ask_status c t = let r = env.answer_status t c in (r, (c, ending r) ∷ t)

-- Some event of the trace has the property, which may look at all that went before it.
abbrev pub Happened : (Call → Outcome → Trace → Type 0) → Trace → Type 0
Happened P [] = ⊥
Happened P ((c, o) ∷ t) = P c o t ⊎ Happened P t
