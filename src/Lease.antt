-- ===== src/Lease.antt =====
-- The leader lease: internal/pxc/leader_lease.go, which keeps one row of the table keeper.leader,
-- and internal/switchover/lease.go, which reads the peer's row before a promotion. The row is the
-- state; each SQL statement succeeds or fails as an argument says, and its effect on the row stands
-- when the transaction commits. There are two clocks: the controller's `now`, and the server's, by
-- which NOW(6) is written.
pub mod Outcomes
pub mod Exclusion
mod Tests
use mysql_keeper.Prelude.{
  String, List, [], ◌∷◌, Bool, true, false, Option, none, some, if◌then◌else◌, str_eq, ◌||◌,
}
use mysql_keeper.Prelude.Int.{ℤ, pos, ◌+ℤ◌, ltb_ℤ, wrap64}
use mysql_keeper.Go.Time.{Time, Duration, sub}
use mysql_keeper.Go.Error.{
  text, quoted, number, span, moment, detailed, Message, Error, lease_held_elsewhere,
  peer_lease_fresh, raised, wrapped, is_no_rows, Outcome, Result, ok, err,
}

pub record LeaderLease : Type 0 where
  pub owner : String
  pub epoch : ℤ
  pub acquired_at : Time
  pub heartbeat_at : Time

-- `LeaderLease{}`; its instants are the zero time, of which nothing is used.
abbrev pub no_lease : LeaderLease
no_lease = record { owner = ""; epoch = pos 0; acquired_at = pos 0; heartbeat_at = pos 0 }

abbrev pub expired : LeaderLease → Time → Duration → Bool
expired l now ttl = ltb_ℤ ttl (sub now l.heartbeat_at)

-- The row that the schema seeds: '1970-01-01 00:00:01' is one second after the origin.
abbrev pub seed : Time → LeaderLease
seed db_now = record {
  owner = "";
  epoch = pos 0;
  acquired_at = db_now;
  heartbeat_at = pos 1000000000;
}

-- `INSERT IGNORE`: a row that is there stays.
abbrev pub insert_ignore : Time → Option LeaderLease → Option LeaderLease
insert_ignore db_now none = some (seed db_now)
insert_ignore db_now (some l) = some l

-- How the statements of EnsureLeaderLeaseSchema end.
pub record SchemaFaults : Type 0 where
  pub open_db : Outcome
  pub create_database : Outcome
  pub create_table : Outcome
  pub seed_row : Outcome

unfoldable pub ensure_leader_lease_schema :
    SchemaFaults → Time → Option LeaderLease → Outcome × Option LeaderLease
ensure_leader_lease_schema f db_now row = elim f.open_db [
  | err e ↦ (err e, row)
  | ok _ ↦ elim f.create_database [
    | err e ↦ (err (wrapped (text "create keeper db" ∷ []) e), row)
    | ok _ ↦ elim f.create_table [
      | err e ↦ (err (wrapped (text "create keeper.leader" ∷ []) e), row)
      | ok _ ↦ elim f.seed_row [
        | err e ↦ (err (wrapped (text "seed keeper.leader" ∷ []) e), row)
        | ok _ ↦ (ok tt, insert_ignore db_now row)
      ]
    ]
  ]
]

-- How the statements of runAcquireOrRenew end. The first SELECT answers sql.ErrNoRows by itself
-- where there is no row.
pub record LeaseFaults : Type 0 where
  pub begin : Outcome
  pub select : Outcome
  pub lazy_seed : Outcome
  pub select_again : Outcome
  pub update : Outcome
  pub commit : Outcome

-- What a call returns, with the row that it leaves: on an error the lease is the one beside it.
pub record Acquired : Type 0 where
  pub lease : LeaderLease
  pub error : Option Error
  pub row : Option LeaderLease

-- A failure rolls the transaction back.
abbrev failed : Option LeaderLease → Message → Error → Acquired
failed row m e = record { lease = no_lease; error = some (wrapped m e); row = row }

-- COMMIT, on the row as it was and as it is to be.
commit_step : LeaseFaults → Option LeaderLease → LeaderLease → LeaderLease → Acquired
commit_step f row row' result = elim f.commit [
  | err e ↦ failed row (text "commit lease write" ∷ []) e
  | ok _ ↦ record { lease = result; error = none; row = some row' }
]

-- The `switch` on the row that was read.
decide_lease :
    LeaseFaults → String → Duration → Time → Time → Option LeaderLease → LeaderLease → Acquired
unfolding commit_step
decide_lease f owner_id ttl now db_now row current =
    let available = str_eq current.owner "" || expired current now ttl in
    let new_epoch = wrap64 (current.epoch +ℤ pos 1) in
    if str_eq current.owner owner_id
    then elim f.update [
      | err e ↦ failed row (text "renew lease" ∷ []) e
      | ok _ ↦
          commit_step f row (record current { heartbeat_at = db_now })
            (record {
              owner = owner_id;
              epoch = current.epoch;
              acquired_at = current.acquired_at;
              heartbeat_at = now;
            })
    ]
    else if available
    then elim f.update [
      | err e ↦ failed row (text "take over lease" ∷ []) e
      | ok _ ↦
          commit_step f row
            (record {
              owner = owner_id;
              epoch = new_epoch;
              acquired_at = db_now;
              heartbeat_at = db_now;
            })
            (record { owner = owner_id; epoch = new_epoch; acquired_at = now; heartbeat_at = now })
    ]
    else record { lease = current; error = some lease_held_elsewhere; row = row }

-- After the first SELECT.
read_step : LeaseFaults → String → Duration → Time → Time → Option LeaderLease → Acquired
unfolding decide_lease
read_step f owner_id ttl now db_now (some current) =
    decide_lease f owner_id ttl now db_now (some current) current
read_step f owner_id ttl now db_now none = elim f.lazy_seed [
  | err e ↦ failed none (text "lazy seed keeper.leader" ∷ []) e
  | ok _ ↦ elim f.select_again [
    | err e ↦ failed none (text "select keeper.leader" ∷ []) e
    | ok _ ↦ decide_lease f owner_id ttl now db_now none (seed db_now)
  ]
]

-- The read, with the lazy seed for a table without a row.
unfoldable pub run_acquire_or_renew :
    LeaseFaults → String → Duration → Time → Time → Option LeaderLease → Acquired
unfolding read_step
run_acquire_or_renew f owner_id ttl now db_now row = elim f.begin [
  | err e ↦ failed row (text "begin tx" ∷ []) e
  | ok _ ↦ elim f.select [
    | err e ↦ failed row (text "select keeper.leader" ∷ []) e
    | ok _ ↦ read_step f owner_id ttl now db_now row
  ]
]

unfoldable pub acquire_or_renew_lease :
    LeaseFaults → String → Duration → Time → Time → Option LeaderLease → Acquired
unfolding run_acquire_or_renew
acquire_or_renew_lease f owner_id ttl now db_now row =
    if str_eq owner_id ""
    then record {
      lease = no_lease;
      error = some (raised (text "ownerID must not be empty" ∷ []));
      row = row;
    }
    else run_acquire_or_renew f owner_id ttl now db_now row

-- CheckPeerLease, by the answer of GetLeaderLease on the peer, `none` where there is no tracker.
unfoldable pub check_peer_lease :
    Option (Result LeaderLease) → Time → Duration → String → Option Error
check_peer_lease none now ttl self_owner_id = none
check_peer_lease (some (err e)) now ttl self_owner_id =
    if is_no_rows e then none else some (wrapped (text "read peer lease" ∷ []) e)
check_peer_lease (some (ok lease)) now ttl self_owner_id =
    if str_eq lease.owner self_owner_id
    then none
    else if expired lease now ttl
    then none
    else some (
        detailed peer_lease_fresh (
          text ": owner="
          ∷ quoted lease.owner
          ∷ text " epoch="
          ∷ number lease.epoch
          ∷ text " heartbeat="
          ∷ moment lease.heartbeat_at
          ∷ text " (ttl="
          ∷ span ttl
          ∷ text ")"
          ∷ []))

-- AcquireLeaseOnSource; `none` is a nil tracker.
unfoldable pub acquire_lease_on_source :
    Option (SchemaFaults × LeaseFaults)
    → String
    → Duration
    → Time
    → Time
    → Option LeaderLease
    → Acquired
unfolding ensure_leader_lease_schema acquire_or_renew_lease
acquire_lease_on_source none self_owner_id ttl now db_now row = record {
  lease = no_lease;
  error = some (raised (text "no source lease tracker provided" ∷ []));
  row = row;
}
acquire_lease_on_source (some (s, f)) self_owner_id ttl now db_now row =
    let (schema, row') = ensure_leader_lease_schema s db_now row in
    let a = acquire_or_renew_lease f self_owner_id ttl now db_now row' in
    elim schema [
      | err e ↦ failed row' (text "ensure keeper.leader schema" ∷ []) e
      | ok _ ↦ elim a.error [
        | none ↦ a
        | some e ↦ record a { error = some (wrapped (text "acquire/renew lease" ∷ []) e) }
      ]
    ]
