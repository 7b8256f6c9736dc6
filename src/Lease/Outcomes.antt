-- ===== src/Lease/Outcomes.antt =====
-- What a call for the lease does, on every branch.
use mysql_keeper.Prelude.{String, ◌≡◌, ◌≢◌, ◌⊎◌, ◌↔◌, Option, none, some, true, arith, eq_iff}
use mysql_keeper.Prelude.Int.{pos, ◌+ℤ◌, ◌<ℤ◌, wrap64}
use mysql_keeper.Go.Time.{Time, Duration, sub}
use mysql_keeper.Go.Error.{Error, lease_held_elsewhere, ok, err, is_no_rows}
use mysql_keeper.Lease.{
  LeaderLease, LeaseFaults, Acquired, seed, no_lease, decide_lease, acquire_or_renew_lease,
  check_peer_lease,
}

-- The row that a call reads: the seed where there was none.
abbrev pub row_read : Time → Option LeaderLease → LeaderLease
row_read db_now none = seed db_now
row_read db_now (some l) = l

-- Nobody holds the lease, or its heartbeat is older than the ttl.
abbrev pub IsAvailable : LeaderLease → Time → Duration → Type 0
IsAvailable l now ttl = (l.owner ≡ "") ⊎ (ttl <ℤ sub now l.heartbeat_at)

-- The heartbeat is renewed, and nothing else of the row changes.
abbrev pub IsRenewed : LeaderLease → String → Time → Acquired → Type 0
IsRenewed current owner_id db_now a =
    (a.error ≡ none)
    × (a.row ≡ some (record current { heartbeat_at = db_now }))
    × (a.lease.owner ≡ owner_id)
    × (a.lease.epoch ≡ current.epoch)

-- The caller is the new owner, at the next epoch.
abbrev pub IsTaken : LeaderLease → String → Time → Acquired → Type 0
IsTaken current owner_id db_now a =
    (a.error ≡ none)
    × (a.row
        ≡ some (record {
          owner = owner_id;
          epoch = wrap64 (current.epoch +ℤ pos 1);
          acquired_at = db_now;
          heartbeat_at = db_now;
        }))
    × (a.lease.owner ≡ owner_id)
    × (a.lease.epoch ≡ wrap64 (current.epoch +ℤ pos 1))

-- Another owner holds the lease: the caller is told so, and sees the row.
abbrev pub IsRefused : LeaderLease → Option LeaderLease → Acquired → Type 0
IsRefused current row a =
    (a.error ≡ some lease_held_elsewhere) × (a.row ≡ row) × (a.lease ≡ current)

-- A statement failed: an error, no lease, and the row as it was.
abbrev pub IsFailed : Option LeaderLease → Acquired → Type 0
IsFailed row a =
    (a.error ≢ none) × (a.error ≢ some lease_held_elsewhere) × (a.row ≡ row) × (a.lease ≡ no_lease)

-- The three cases of the row that is read.
abbrev pub Outcomes :
    LeaderLease → String → Duration → Time → Time → Option LeaderLease → Acquired → Type 0
Outcomes current owner_id ttl now db_now row a =
    ((current.owner ≡ owner_id) × IsRenewed current owner_id db_now a)
    ⊎ ((current.owner ≢ owner_id) × IsAvailable current now ttl × IsTaken current owner_id db_now a)
    ⊎ ((current.owner ≢ owner_id) × ¬ (IsAvailable current now ttl) × IsRefused current row a)
    ⊎ IsFailed row a

module _ (f : LeaseFaults) (owner_id : String) (ttl : Duration) (now db_now : Time) where
  decide_lease-Outcomes :
      (row : Option LeaderLease) (current : LeaderLease)
      → Outcomes current owner_id ttl now db_now row
          (decide_lease f owner_id ttl now db_now row current)
  unfolding decide_lease
  decide_lease-Outcomes row current =
      ground (arith, eq_iff current.owner "", eq_iff current.owner owner_id)

  -- A call by a named owner does one of four things by the row that it reads, or by the seed where
  -- there is none: it renews its own lease, takes an available one at the next epoch, is refused a
  -- held one that it is shown, or fails and leaves the row as it was.
  pub acquire-Outcomes :
      (row : Option LeaderLease)
      → owner_id ≢ ""
      → Outcomes
          (row_read db_now row)
          owner_id
          ttl
          now
          db_now
          row
          (acquire_or_renew_lease f owner_id ttl now db_now row)
  unfolding acquire_or_renew_lease
  acquire-Outcomes none named =
      ground (arith, eq_iff owner_id "", decide_lease-Outcomes none (seed db_now))
  acquire-Outcomes (some l) named =
      ground (arith, eq_iff owner_id "", decide_lease-Outcomes (some l) l)

-- No statement fails.
abbrev pub HasNoFault : LeaseFaults → Type 0
HasNoFault f =
    (f.begin ≡ ok tt)
    × (f.select ≡ ok tt)
    × (f.lazy_seed ≡ ok tt)
    × (f.select_again ≡ ok tt)
    × (f.update ≡ ok tt)
    × (f.commit ≡ ok tt)

module _ (f : LeaseFaults) (owner_id : String) (ttl : Duration) (now db_now : Time) where
  decide_lease-no_fault :
      (row : Option LeaderLease) (current : LeaderLease)
      → HasNoFault f
      → ((decide_lease f owner_id ttl now db_now row current).error ≡ none)
        ↔ ((current.owner ≡ owner_id) ⊎ IsAvailable current now ttl)
  unfolding decide_lease
  decide_lease-no_fault row current clean =
      ground (arith, eq_iff current.owner "", eq_iff current.owner owner_id)

  -- Where no statement fails, a named owner gets the lease exactly when it has it already or it is
  -- available, that is, without an owner or with a heartbeat older than the time to live.
  pub acquire-no_fault :
      (row : Option LeaderLease)
      → owner_id ≢ ""
      → HasNoFault f
      → ((acquire_or_renew_lease f owner_id ttl now db_now row).error ≡ none)
        ↔ (((row_read db_now row).owner ≡ owner_id) ⊎ IsAvailable (row_read db_now row) now ttl)
  unfolding acquire_or_renew_lease
  acquire-no_fault none named clean =
      ground (arith, eq_iff owner_id "", decide_lease-no_fault none (seed db_now))
  acquire-no_fault (some l) named clean =
      ground (arith, eq_iff owner_id "", decide_lease-no_fault (some l) l)

  -- For a named controller and a row with an owner, the gate before a promotion is open exactly
  -- when a call for that lease with no failing statement, at the same time and with the same time
  -- to live, would get it.
  pub peer_gate_agrees :
      (l : LeaderLease)
      → owner_id ≢ ""
      → l.owner ≢ ""
      → HasNoFault f
      → (check_peer_lease (some (ok l)) now ttl owner_id ≡ none)
        ↔ ((acquire_or_renew_lease f owner_id ttl now db_now (some l)).error ≡ none)
  unfolding check_peer_lease
  peer_gate_agrees l named owned clean =
      ground (arith, eq_iff l.owner owner_id, acquire-no_fault (some l))

-- The gate before a promotion is open without a tracker, and where the peer's row cannot be read it
-- is open exactly when the error is sql.ErrNoRows, wrapped or not.
pub peer_gate_unread :
    (now : Time) (ttl : Duration) (self : String) (e : Error)
    → (check_peer_lease none now ttl self ≡ none)
      × ((check_peer_lease (some (err e)) now ttl self ≡ none) ↔ (is_no_rows e ≡ true))
unfolding check_peer_lease
peer_gate_unread now ttl self e = ground arith
