-- ===== src/ProxySql/Manager/Blackhole.antt =====
-- Blackhole: the target goes to an unrouted hostgroup on every instance.
pub mod Fenced
use mysql_keeper.Prelude.{
  String, List, [], ◌∷◌, ◌++◌, Bool, true, false, Option, none, some, if◌then◌else◌, length, str_eq,
}
use mysql_keeper.Prelude.Int.{ℤ, pos, eqb_ℤ}
use mysql_keeper.Go.Error.{text, number, Error, foreign, raised, wrapped, Outcome, ok, err, done}
use mysql_keeper.Switchover.Effects.{BlackholeConfig}
use mysql_keeper.ProxySql.Table.{
  Key, Table, Instance, insert_or_replace, update_server, offline, loaded,
}
use mysql_keeper.ProxySql.Manager.{Server, statement, on_all, printed_all}

abbrev pub blackhole_key : BlackholeConfig → Key
blackhole_key cfg = record {
  hostgroup_id =
      if eqb_ℤ cfg.blackhole_hostgroup (pos 0) then pos 9999 else cfg.blackhole_hostgroup;
  hostname = cfg.target_host;
  port = cfg.target_port;
}

-- What the UPDATE does where it reaches the server: it fails on a second row with the key.
updated : Option Table → Instance → Outcome × Instance
updated none i =
    (err (wrapped (text "update mysql_servers" ∷ []) (foreign "UNIQUE constraint failed")), i)
updated (some t) i = (done, record i { memory = t })

update_step : Key → Outcome → Outcome × Instance → Outcome × Instance
unfolding updated
update_step k o (err e, i) = (err e, i)
update_step k (err e) (ok _, i) = (err (wrapped (text "update mysql_servers" ∷ []) e), i)
update_step k (ok _) (ok _, i) = updated (update_server k i.memory) i

run_blackhole_steps : Key → Server → Outcome × Instance
unfolding update_step
run_blackhole_steps k (f, i) =
    statement f.save (text "SAVE MYSQL SERVERS TO DISK" ∷ []) (λ i. record i { disk = i.memory })
      (statement f.load (text "LOAD MYSQL SERVERS TO RUNTIME" ∷ [])
        (λ i. record i { runtime = loaded i.memory })
        (statement f.insert (text "insert blackhole row" ∷ [])
          (λ i. record i { memory = insert_or_replace (offline k) i.memory })
          (update_step k f.update (statement f.ping (text "ping" ∷ []) (λ i. i) (done, i)))))

blackhole_one : Key → Server → Outcome × Instance
unfolding run_blackhole_steps
blackhole_one k (f, i) = elim f.dial [
  | err e ↦ (err (wrapped (text "open admin" ∷ []) e), i)
  | ok _ ↦ run_blackhole_steps k (f, i)
]

reported : List Server → List Error × List Server → Outcome × List Server
reported servers ([], after) = (done, after)
reported servers (e ∷ es, after) = (
  err (
      raised (
        text "blackhole errors ("
        ∷ number (pos (length (e ∷ es)))
        ∷ text "/"
        ∷ number (pos (length servers))
        ∷ text " failed): "
        ∷ printed_all (e ∷ es))),
  after,
)

unfoldable pub blackhole : BlackholeConfig → List Server → Outcome × List Server
unfolding reported blackhole_one
blackhole cfg servers =
    if str_eq cfg.target_host ""
    then (err (raised (text "Blackhole: TargetHost must be set" ∷ [])), servers)
    else reported servers (on_all (blackhole_one (blackhole_key cfg)) servers)
