-- ===== src/Lease/Exclusion.antt =====
-- The lease over a sequence of calls by any controllers: it excludes, and its epoch is a fencing
-- token.
use mysql_keeper.Prelude.{String, ◌≡◌, ◌≢◌, refl, List, [], ◌∷◌, Option, none, some, arith, All}
use mysql_keeper.Prelude.Int.{ℤ, pos, negsuc, ◌+ℤ◌, ◌≤ℤ◌, wrap64, wrap64_self, InInt64}
use mysql_keeper.Go.Time.{Time, Duration}
use mysql_keeper.Lease.{LeaderLease, LeaseFaults, Acquired, acquire_or_renew_lease}
use mysql_keeper.Lease.Outcomes.{IsAvailable, acquire-Outcomes}

-- One call: who makes it, when, and how its statements end.
pub record Call : Type 0 where
  pub faults : LeaseFaults
  pub owner_id : String
  pub ttl : Duration
  pub now : Time
  pub db_now : Time

abbrev pub answer : Call → Option LeaderLease → Acquired
answer c row = acquire_or_renew_lease c.faults c.owner_id c.ttl c.now c.db_now row

unfoldable pub after_calls : List Call → Option LeaderLease → Option LeaderLease
after_calls [] row = row
after_calls (c ∷ cs) row = after_calls cs (answer c row).row

-- A call by another named owner, before the lease's time to live is over.
abbrev pub IsIntruder : LeaderLease → Call → Type 0
IsIntruder l c = (c.owner_id ≢ "") × (l.owner ≢ c.owner_id) × ¬ (IsAvailable l c.now c.ttl)

intruder_step :
    (l : LeaderLease) (c : Call)
    → IsIntruder l c
    → ((answer c (some l)).row ≡ some l) × ((answer c (some l)).error ≢ none)
intruder_step l c h =
    ground (arith, acquire-Outcomes c.faults c.owner_id c.ttl c.now c.db_now (some l) h.0)

-- While a lease has an owner and is fresh by the clocks and times to live of those who ask, named
-- controllers other than its owner do not get it: after any sequence of their calls, however their
-- statements end, the row is unchanged and the next such call is answered by an error.
pub fresh_lease_excludes :
    (l : LeaderLease) (cs : List Call) (c : Call)
    → All (IsIntruder l) cs
    → IsIntruder l c
    → (after_calls cs (some l) ≡ some l) × ((answer c (after_calls cs (some l))).error ≢ none)
unfolding after_calls
fresh_lease_excludes l [] c h k = (refl, (intruder_step l c k).1)
fresh_lease_excludes l (d ∷ cs) c h k =
    rw ((intruder_step l d h.0).0) (fresh_lease_excludes l cs c h.1 k)

abbrev pub owner_of : Option LeaderLease → String
owner_of none = ""
owner_of (some l) = l.owner

abbrev pub epoch_of : Option LeaderLease → ℤ
epoch_of none = pos 0
epoch_of (some l) = l.epoch

-- A named caller, at an epoch that a BIGINT can still count up.
pub data Step : Option LeaderLease → Option LeaderLease → Type 0 where
  call :
      (c : Call) {row row' : Option LeaderLease}
      → c.owner_id ≢ ""
      → InInt64 (epoch_of row)
      → epoch_of row ≢ pos 9223372036854775807
      → row' ≡ (answer c row).row
      → Step row row'

pub data Reach (row : Option LeaderLease) : Option LeaderLease → Type 0 where
  here : Reach row row
  next : {row' row'' : Option LeaderLease} → Reach row row' → Step row' row'' → Reach row row''

-- The epoch never falls, and while it stays the owner stays.
abbrev pub IsFenced : Option LeaderLease → Option LeaderLease → Type 0
IsFenced row row' =
    (epoch_of row ≤ℤ epoch_of row') × (epoch_of row ≡ epoch_of row' → owner_of row ≡ owner_of row')

-- The next epoch is a BIGINT, above this one.
room_above :
    (e : ℤ)
    → InInt64 e
    → e ≢ pos 9223372036854775807
    → InInt64 (e +ℤ pos 1) × (e ≤ℤ e +ℤ pos 1) × (e ≢ e +ℤ pos 1)
unfolding ◌+ℤ◌
room_above (pos n) h k = ground arith
room_above (negsuc n) h k = ground arith

next_epoch :
    (e : ℤ)
    → InInt64 e
    → e ≢ pos 9223372036854775807
    → (e ≤ℤ wrap64 (e +ℤ pos 1)) × (e ≢ wrap64 (e +ℤ pos 1))
next_epoch e h k =
    let room = room_above e h k in rw (wrap64_self (e +ℤ pos 1) room.0) (room.1, room.2)

module _ (c : Call) (named : c.owner_id ≢ "") where
  answer-IsFenced :
      (row : Option LeaderLease)
      → InInt64 (epoch_of row)
      → epoch_of row ≢ pos 9223372036854775807
      → IsFenced row (answer c row).row
  answer-IsFenced none fits room = ground (
    arith,
    acquire-Outcomes c.faults c.owner_id c.ttl c.now c.db_now none named,
    next_epoch (pos 0),
  )
  answer-IsFenced (some l) fits room = ground (
    arith,
    acquire-Outcomes c.faults c.owner_id c.ttl c.now c.db_now (some l) named,
    next_epoch l.epoch,
  )

Step-IsFenced : {row row' : Option LeaderLease} → Step row row' → IsFenced row row'
Step-IsFenced (call c {row} {row'} named fits room e) = rw e (answer-IsFenced c named row fits room)

-- Over any sequence of calls for the lease by named owners, each at an epoch that a BIGINT can
-- still count up, the epoch never falls, and two rows of the sequence with the same epoch have the
-- same owner: the epoch is a fencing token.
pub epoch_fences : {row row' : Option LeaderLease} → Reach row row' → IsFenced row row'
epoch_fences {row} here = (omega arith, λ e. refl)
epoch_fences (next r s) = ground (arith, epoch_fences r, Step-IsFenced s)
