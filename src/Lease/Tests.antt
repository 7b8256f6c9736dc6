-- ===== src/Lease/Tests.antt =====
-- The lease of two controllers, on concrete clocks.
use mysql_keeper.Prelude.{
  String, ◌≡◌, ◌≢◌, ◌↔◌, refl, [], ◌∷◌, none, some, arith, inl, inr, str_neq,
}
use mysql_keeper.Prelude.Int.{pos, ◌-ℤ◌, ◌+ℤ◌, wrap}
use mysql_keeper.Go.Time.{sub}
use mysql_keeper.Go.Error.{ok, done}
use mysql_keeper.Lease.{LeaderLease, LeaseFaults, acquire_or_renew_lease, check_peer_lease}
use mysql_keeper.Lease.Outcomes.{
  Outcomes, IsAvailable, HasNoFault, acquire-Outcomes, peer_gate_agrees,
}
use mysql_keeper.Lease.Exclusion.{
  Call, answer, after_calls, IsIntruder, fresh_lease_excludes, IsFenced, here, next, call,
  epoch_fences,
}

abbrev no_fault : LeaseFaults
no_fault = record {
  begin = done;
  select = done;
  lazy_seed = done;
  select_again = done;
  update = done;
  commit = done;
}

-- The lease of "dc", refreshed at 100 s.
abbrev held : LeaderLease
held = record {
  owner = "dc";
  epoch = pos 7;
  acquired_at = pos 50000000000;
  heartbeat_at = pos 100000000000;
}

-- "dr" asks at 110 s, with a time to live of 30 s.
abbrev rival : Call
rival = record {
  faults = no_fault;
  owner_id = "dr";
  ttl = pos 30000000000;
  now = pos 110000000000;
  db_now = pos 110000000000;
}

-- It asks again at 200 s.
abbrev late_rival : Call
late_rival = record rival { now = pos 200000000000; db_now = pos 200000000000 }

abbrev dr : String
dr = "dr"

dr-named : dr ≢ ""
dr-named = str_neq dr "" refl

rival_takes :
    ((answer late_rival (some held)).row
      ≡ some (record {
        owner = "dr";
        epoch = pos 8;
        acquired_at = pos 200000000000;
        heartbeat_at = pos 200000000000;
      }))
unfolding acquire_or_renew_lease sub ◌-ℤ◌ wrap ◌+ℤ◌
rival_takes = refl

acquire-Outcomes_example :
    Outcomes held "dr"
      (pos 30000000000)
      (pos 200000000000)
      (pos 200000000000)
      (some held)
      (answer late_rival (some held))
acquire-Outcomes_example =
    acquire-Outcomes no_fault "dr" (pos 30000000000) (pos 200000000000) (pos 200000000000)
      (some held) dr-named

no_fault-clean : HasNoFault no_fault
no_fault-clean = (refl, refl, refl, refl, refl, refl)

peer_gate_agrees_example :
    (check_peer_lease (some (ok held)) (pos 110000000000) (pos 30000000000) "dr" ≡ none)
    ↔ ((answer rival (some held)).error ≡ none)
peer_gate_agrees_example =
    peer_gate_agrees no_fault "dr" (pos 30000000000) (pos 110000000000) (pos 110000000000) held
      dr-named (str_neq held.owner "" refl) no_fault-clean

held-fresh : ¬ (IsAvailable held rival.now rival.ttl)
unfolding sub ◌-ℤ◌
held-fresh (inl p) = absurd (str_neq held.owner "" refl p)
held-fresh (inr q) = omega arith

rival-IsIntruder : IsIntruder held rival
unfolding sub ◌-ℤ◌
rival-IsIntruder = (dr-named, str_neq held.owner dr refl, held-fresh)

fresh_lease_excludes_example :
    (after_calls (rival ∷ []) (some held) ≡ some held)
    × ((answer rival (after_calls (rival ∷ []) (some held))).error ≢ none)
fresh_lease_excludes_example =
    fresh_lease_excludes held (rival ∷ []) rival (rival-IsIntruder, tt) rival-IsIntruder

-- From the fresh lease to the one that "dr" took.
epoch_fences_example : IsFenced (some held) (answer late_rival (some held)).row
epoch_fences_example =
    epoch_fences
      (next here (call late_rival dr-named (omega arith, omega arith) (λ p. ground arith) refl))
