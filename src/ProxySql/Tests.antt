-- ===== src/ProxySql/Tests.antt =====
-- Two instances, and how their statements end.
use mysql_keeper.Prelude.{◌≡◌, ◌≢◌, refl, [], ◌∷◌, false, arith, inl, str_neq, is_empty, All}
use mysql_keeper.Prelude.Int.{pos}
use mysql_keeper.Go.Error.{done, err, foreign}
use mysql_keeper.Switchover.Effects.{RoutingConfig, BlackholeConfig}
use mysql_keeper.ProxySql.Table.{Instance, Table, online, update_server}
use mysql_keeper.ProxySql.Manager.{
  Faults, Server, on_all, prepare_one, apply_failover_routing, rollback_routing,
}
use mysql_keeper.ProxySql.Manager.Atomic.{
  runtimes, IsRouted, AreDifferent, prepare_failure-keeps_runtime, apply-IsRouted,
}
use mysql_keeper.ProxySql.Manager.Blackhole.{blackhole_key, blackhole}
use mysql_keeper.ProxySql.Manager.Blackhole.Fenced.{
  IsTwice, IsFenced, blackhole-collides, blackhole-IsFenced,
}

abbrev no_fault : Faults
no_fault = record {
  dial = done;
  ping = done;
  demote = done;
  promote = done;
  add_reader = done;
  update = done;
  insert = done;
  load = done;
  save = done;
}

abbrev flip : RoutingConfig
flip = record {
  old_writer_host = "dc";
  old_writer_port = pos 3306;
  new_writer_host = "dr";
  new_writer_port = pos 3306;
  read_write_hostgroup = pos 10;
  read_only_hostgroup = pos 20;
}

-- Writes go to "dc", and reads too.
abbrev both_groups : Table
both_groups =
    online (record { hostgroup_id = pos 10; hostname = "dc"; port = pos 3306 })
    ∷ online (record { hostgroup_id = pos 20; hostname = "dc"; port = pos 3306 })
    ∷ []

abbrev instance_with : Table → Instance
instance_with t = record { host = "proxy"; port = pos 6032; memory = t; runtime = t; disk = t }

abbrev fine : Server
fine = (no_fault, instance_with both_groups)

-- The second instance does not answer.
abbrev broken : Server
broken = (record no_fault { ping = err (foreign "timeout") }, instance_with both_groups)

abbrev one_group : Server
one_group = (
  no_fault,
  instance_with (online (record { hostgroup_id = pos 10; hostname = "dc"; port = pos 3306 }) ∷ []),
)

one_fails : is_empty (on_all (prepare_one flip) (fine ∷ broken ∷ [])).0 ≡ false
unfolding on_all prepare_one
one_fails = refl

prepare_failure-keeps_runtime_example :
    (runtimes (apply_failover_routing flip (fine ∷ broken ∷ [])).1 ≡ runtimes (fine ∷ broken ∷ []))
    × ((apply_failover_routing flip (fine ∷ broken ∷ [])).0 ≢ done)
prepare_failure-keeps_runtime_example =
    prepare_failure-keeps_runtime flip (fine ∷ broken ∷ []) one_fails

flip-AreDifferent : AreDifferent flip
flip-AreDifferent = inl (str_neq flip.old_writer_host flip.new_writer_host refl)

flip-works : (apply_failover_routing flip (fine ∷ fine ∷ [])).0 ≡ done
unfolding apply_failover_routing on_all
flip-works = refl

apply-IsRouted_example :
    All (λ s. IsRouted flip s.1.runtime) (apply_failover_routing flip (fine ∷ fine ∷ [])).1
apply-IsRouted_example = apply-IsRouted flip (fine ∷ fine ∷ []) flip-AreDifferent flip-works

abbrev fence : BlackholeConfig
fence = record { target_host = "dc"; target_port = pos 3306; blackhole_hostgroup = pos 0 }

dc-IsTwice : IsTwice (blackhole_key fence) fine.1.memory
dc-IsTwice = omega arith

-- The target is in the write and in the read hostgroup, and the fence fails.
blackhole-collides_example : (blackhole fence (fine ∷ [])).0 ≢ done
blackhole-collides_example = blackhole-collides fence fine [] dc-IsTwice

fence-works : (blackhole fence (one_group ∷ [])).0 ≡ done
unfolding blackhole on_all update_server
fence-works = refl

blackhole-IsFenced_example :
    All (λ s. IsFenced (blackhole_key fence) s.1) (blackhole fence (one_group ∷ [])).1
blackhole-IsFenced_example = blackhole-IsFenced fence (one_group ∷ []) fence-works

rollback-works : (rollback_routing flip (fine ∷ [])).0 ≡ done
unfolding rollback_routing apply_failover_routing on_all
rollback-works = refl
