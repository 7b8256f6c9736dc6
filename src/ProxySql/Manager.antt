-- ===== src/ProxySql/Manager.antt =====
-- The manager's operations over all instances. Each statement succeeds or fails as an argument
-- says, for each instance; its effect on the instance is that of Table.
pub mod Atomic
pub mod Blackhole
use mysql_keeper.Prelude.{
  ℕ, ◌-◌, String, List, [], ◌∷◌, ◌++◌, Bool, true, false, not, Option, none, some, if◌then◌else◌,
  map, length, is_empty, str_eq,
}
use mysql_keeper.Prelude.Int.{ℤ, pos, eqb_ℤ}
use mysql_keeper.Go.Error.{
  text, number, Message, Error, foreign, raised, wrapped, printed, Outcome, ok, err, done,
}
use mysql_keeper.Switchover.Effects.{RoutingConfig, BlackholeConfig}
use mysql_keeper.ProxySql.Table.{
  Key, Instance, delete, insert_or_replace, update_server, online, offline, loaded,
}

-- How the statements on one instance end.
pub record Faults : Type 0 where
  pub dial : Outcome
  pub ping : Outcome
  pub demote : Outcome
  pub promote : Outcome
  pub add_reader : Outcome
  pub update : Outcome
  pub insert : Outcome
  pub load : Outcome
  pub save : Outcome

-- An instance, with how its statements will end.
abbrev pub Server : Type 0
Server = Faults × Instance

-- One statement: on an error the operation returns it with its text, else it goes on.
abbrev statement :
    Outcome → Message → (Instance → Instance) → Outcome × Instance → Outcome × Instance
statement (ok _) m effect (ok _, i) = (done, effect i)
statement (err e) m effect (ok _, i) = (err (wrapped m e), i)
statement o m effect (err e, i) = (err e, i)

abbrev old_key : RoutingConfig → Key
old_key cfg = record {
  hostgroup_id = cfg.read_write_hostgroup;
  hostname = cfg.old_writer_host;
  port = cfg.old_writer_port;
}

abbrev writer_key : RoutingConfig → Key
writer_key cfg = record {
  hostgroup_id = cfg.read_write_hostgroup;
  hostname = cfg.new_writer_host;
  port = cfg.new_writer_port;
}

abbrev reader_key : RoutingConfig → Key
reader_key cfg = record {
  hostgroup_id = cfg.read_only_hostgroup;
  hostname = cfg.new_writer_host;
  port = cfg.new_writer_port;
}

run_prepare_steps : RoutingConfig → Server → Outcome × Instance
run_prepare_steps cfg (f, i) =
    statement f.add_reader (text "add new writer to RO group" ∷ [])
      (λ i. record i { memory = insert_or_replace (online (reader_key cfg)) i.memory })
      (statement f.promote (text "promote new writer" ∷ [])
        (λ i. record i { memory = insert_or_replace (online (writer_key cfg)) i.memory })
        (statement f.demote (text "demote old writer" ∷ [])
          (λ i. record i { memory = delete (old_key cfg) i.memory })
          (statement f.ping (text "ping" ∷ []) (λ i. i) (done, i))))

-- The dial's own error is returned as it is.
unfoldable pub prepare_one : RoutingConfig → Server → Outcome × Instance
unfolding run_prepare_steps
prepare_one cfg (f, i) = elim f.dial [ err e ↦ (err e, i) | ok _ ↦ run_prepare_steps cfg (f, i) ]

commit_one : Server → Outcome × Instance
commit_one (f, i) =
    statement f.save (text "SAVE MYSQL SERVERS TO DISK" ∷ []) (λ i. record i { disk = i.memory })
      (statement f.load (text "LOAD MYSQL SERVERS TO RUNTIME" ∷ [])
        (λ i. record i { runtime = loaded i.memory }) (done, i))

-- What one instance adds to the errors and to the instances after it.
abbrev pub collect :
    Server → Outcome × Instance → List Error × List Server → List Error × List Server
collect (f, i) (ok _, i') (errors, rest) = (errors, (f, i') ∷ rest)
collect (f, i) (err e, i') (errors, rest) = (
  wrapped (text "proxysql " ∷ text i.host ∷ text ":" ∷ number i.port ∷ []) e ∷ errors,
  (f, i') ∷ rest,
)

-- One operation on every instance, with the errors that it meets.
unfoldable pub on_all : (Server → Outcome × Instance) → List Server → List Error × List Server
on_all operate [] = ([], [])
on_all operate (s ∷ servers) = collect s (operate s) (on_all operate servers)

-- `%v` of a list of errors.
abbrev printed_all : List Error → Message
printed_all [] = []
printed_all (e ∷ es) = printed e ++ (text " " ∷ printed_all es)

commit_phase : ℕ → List Error × List Server → Outcome × List Server
commit_phase total ([], servers) = (done, servers)
commit_phase total (e ∷ es, servers) = (
  err (
      raised (
        text "commit phase failed on "
        ∷ number (pos (length (e ∷ es)))
        ∷ text "/"
        ∷ number (pos total)
        ∷ text " instances (committed="
        ∷ number (pos (total - length (e ∷ es)))
        ∷ text ", manual ProxySQL reconciliation required): "
        ∷ printed_all (e ∷ es))),
  servers,
)

prepare_phase : ℕ → List Error × List Server → Outcome × List Server
unfolding commit_phase commit_one
prepare_phase total ([], servers) = commit_phase total (on_all commit_one servers)
prepare_phase total (e ∷ es, servers) = (
  err (
      raised (
        text "prepare phase failed on "
        ∷ number (pos (length (e ∷ es)))
        ∷ text "/"
        ∷ number (pos total)
        ∷ text " instances (no runtime change applied): "
        ∷ printed_all (e ∷ es))),
  servers,
)

unfoldable pub apply_failover_routing : RoutingConfig → List Server → Outcome × List Server
unfolding prepare_phase prepare_one
apply_failover_routing cfg servers =
    prepare_phase (length servers) (on_all (prepare_one cfg) servers)

abbrev pub swapped : RoutingConfig → RoutingConfig
swapped cfg = record {
  old_writer_host = cfg.new_writer_host;
  old_writer_port = cfg.new_writer_port;
  new_writer_host = cfg.old_writer_host;
  new_writer_port = cfg.old_writer_port;
  read_write_hostgroup = cfg.read_write_hostgroup;
  read_only_hostgroup = cfg.read_only_hostgroup;
}

unfoldable pub rollback_routing : RoutingConfig → List Server → Outcome × List Server
rollback_routing cfg servers = apply_failover_routing (swapped cfg) servers
