-- ===== src/ProxySql/Manager/Atomic.antt =====
-- A routing change reaches no instance's runtime, or it is reported, or it is there on all of them.
use mysql_keeper.Prelude.{
  ℕ, ◌≡◌, ◌≢◌, ◌⊎◌, refl, sym, ◌∙◌, ap, List, [], ◌∷◌, false, none, some, arith, map, is_empty, All,
  inl, inr, Bool-cases, length,
}
use mysql_keeper.Go.Error.{Error, Outcome, ok, err, done}
use mysql_keeper.Switchover.Effects.{RoutingConfig}
use mysql_keeper.ProxySql.Table.{
  Key, Table, Instance, lookup, online, key_eq, insert_or_replace, delete, loaded,
}
use mysql_keeper.ProxySql.Table.Lookup.{
  lookup-delete, lookup-insert, lookup-insert_other, key_eq_iff, lookup-loaded-online,
  lookup-loaded-none,
}
use mysql_keeper.ProxySql.Manager.{
  Server, old_key, writer_key, reader_key, run_prepare_steps, prepare_one, commit_one, collect,
  on_all, prepare_phase, commit_phase, apply_failover_routing, rollback_routing, swapped,
}

-- The runtime tables of the instances.
abbrev pub runtimes : List Server → List Table
runtimes servers = map (λ s. s.1.runtime) servers

prepare_one-runtime :
    (cfg : RoutingConfig) (s : Server) → (prepare_one cfg s).1.runtime ≡ s.1.runtime
unfolding prepare_one run_prepare_steps
prepare_one-runtime cfg (f, i) = ground arith

collect-runtimes :
    (s : Server) (o : Outcome × Instance) (r : List Error × List Server) (servers : List Server)
    → o.1.runtime ≡ s.1.runtime
    → runtimes r.1 ≡ runtimes servers
    → runtimes (collect s o r).1 ≡ runtimes (s ∷ servers)
collect-runtimes (f, i) (ok x, i') (errors, rest) servers h k = rw (h, k) refl
collect-runtimes (f, i) (err e, i') (errors, rest) servers h k = rw (h, k) refl

prepare_all-runtimes :
    (cfg : RoutingConfig) (servers : List Server)
    → runtimes (on_all (prepare_one cfg) servers).1 ≡ runtimes servers
unfolding on_all
prepare_all-runtimes cfg [] = refl
prepare_all-runtimes cfg (s ∷ servers) =
    collect-runtimes s (prepare_one cfg s) (on_all (prepare_one cfg) servers) servers
      (prepare_one-runtime cfg s) (prepare_all-runtimes cfg servers)

prepare_phase-stops :
    (total : ℕ) (r : List Error × List Server)
    → is_empty r.0 ≡ false
    → ((prepare_phase total r).1 ≡ r.1) × ((prepare_phase total r).0 ≢ done)
unfolding prepare_phase
prepare_phase-stops total ([], servers) h = cc
prepare_phase-stops total (e ∷ es, servers) h = (refl, λ p. cc)

-- If preparing a routing change fails on some instance, no instance's runtime table changes, and an
-- error is returned.
pub prepare_failure-keeps_runtime :
    (cfg : RoutingConfig) (servers : List Server)
    → is_empty (on_all (prepare_one cfg) servers).0 ≡ false
    → (runtimes (apply_failover_routing cfg servers).1 ≡ runtimes servers)
      × ((apply_failover_routing cfg servers).0 ≢ done)
unfolding apply_failover_routing
prepare_failure-keeps_runtime cfg servers h =
    let (stopped, failed) =
      prepare_phase-stops (length servers) (on_all (prepare_one cfg) servers) h in
    (ap runtimes stopped ∙ prepare_all-runtimes cfg servers, failed)

-- Writes go to the new writer and not to the old one, and reads to the new one too.
abbrev pub IsRouted : RoutingConfig → Table → Type 0
IsRouted cfg t =
    (lookup (writer_key cfg) t ≡ some (online (writer_key cfg)))
    × (lookup (old_key cfg) t ≡ none)
    × (lookup (reader_key cfg) t ≡ some (online (reader_key cfg)))

-- The two writers are different servers.
abbrev pub AreDifferent : RoutingConfig → Type 0
AreDifferent cfg =
    (cfg.old_writer_host ≢ cfg.new_writer_host) ⊎ (cfg.old_writer_port ≢ cfg.new_writer_port)

old_writer-other :
    (cfg : RoutingConfig)
    → AreDifferent cfg
    → (key_eq (old_key cfg) (writer_key cfg) ≡ false)
      × (key_eq (old_key cfg) (reader_key cfg) ≡ false)
old_writer-other cfg d =
    ground
      (arith, key_eq_iff (old_key cfg) (writer_key cfg), key_eq_iff (old_key cfg) (reader_key cfg))

insert_same :
    (k l : Key) (t : Table) → k ≡ l → lookup k (insert_or_replace (online l) t) ≡ some (online k)
insert_same k l t e = rw e (lookup-insert (online l) t)

insert_twice :
    (k l : Key) (t : Table)
    → lookup k (insert_or_replace (online l) (insert_or_replace (online k) t)) ≡ some (online k)
insert_twice k l t = elim (Bool-cases (key_eq k l)) [
  | inl same ↦ insert_same k l (insert_or_replace (online k) t) ((key_eq_iff k l).0 same)
  | inr other ↦
      lookup-insert_other k (online l) (insert_or_replace (online k) t) other
      ∙ lookup-insert (online k) t
]

staged : RoutingConfig → Table → Table
staged cfg t =
    insert_or_replace (online (reader_key cfg))
      (insert_or_replace (online (writer_key cfg)) (delete (old_key cfg) t))

staged-IsRouted : (cfg : RoutingConfig) (t : Table) → AreDifferent cfg → IsRouted cfg (staged cfg t)
unfolding staged
staged-IsRouted cfg t d =
    let bare = delete (old_key cfg) t in
    let with_writer = insert_or_replace (online (writer_key cfg)) bare in
    let (not_writer, not_reader) = old_writer-other cfg d in
    (
      insert_twice (writer_key cfg) (reader_key cfg) bare,
      lookup-insert_other (old_key cfg) (online (reader_key cfg)) with_writer not_reader
          ∙ lookup-insert_other (old_key cfg) (online (writer_key cfg)) bare not_writer
          ∙ lookup-delete (old_key cfg) t,
      lookup-insert (online (reader_key cfg)) with_writer,
    )

prepare_one-staged :
    (cfg : RoutingConfig) (s : Server)
    → (prepare_one cfg s).0 ≡ done
    → (prepare_one cfg s).1.memory ≡ staged cfg s.1.memory
unfolding prepare_one run_prepare_steps staged
prepare_one-staged cfg (f, i) h = ground arith

commit_one-runtime :
    (s : Server) → (commit_one s).0 ≡ done → (commit_one s).1.runtime ≡ loaded s.1.memory
unfolding commit_one
commit_one-runtime (f, i) h = ground arith

-- An operation that brings about `Q` from `P`, on every instance where no error is met.
collect-All :
    (P Q : Instance → Type 0) (s : Server) (o : Outcome × Instance) (r : List Error × List Server)
    → (o.0 ≡ done → Q o.1)
    → (r.0 ≡ [] → All (λ s. Q s.1) r.1)
    → (collect s o r).0 ≡ []
    → All (λ s. Q s.1) (collect s o r).1
collect-All P Q (f, i) (ok tt, i') (errors, rest) h k none_met = (h refl, k none_met)
collect-All P Q (f, i) (err e, i') (errors, rest) h k none_met = absurd (cc)

pub on_all-All :
    (P Q : Instance → Type 0) (operate : Server → Outcome × Instance)
    → ((s : Server) → P s.1 → (operate s).0 ≡ done → Q (operate s).1)
    → (servers : List Server) → All (λ s. P s.1) servers
    → (on_all operate servers).0 ≡ []
    → All (λ s. Q s.1) (on_all operate servers).1
unfolding on_all
on_all-All P Q operate step [] all none_met = tt
on_all-All P Q operate step (s ∷ servers) all none_met =
    collect-All P Q s (operate s) (on_all operate servers) (step s all.0)
      (on_all-All P Q operate step servers all.1) none_met

pub All-anything : (servers : List Server) → All (λ s. Unit {0}) servers
All-anything [] = tt
All-anything (s ∷ servers) = (tt, All-anything servers)

commit_phase-done :
    (total : ℕ) (r : List Error × List Server)
    → (commit_phase total r).0 ≡ done
    → (r.0 ≡ []) × ((commit_phase total r).1 ≡ r.1)
unfolding commit_phase
commit_phase-done total ([], servers) h = (refl, refl)
commit_phase-done total (e ∷ es, servers) h = absurd (cc)

prepare_phase-done :
    (total : ℕ) (r : List Error × List Server)
    → (prepare_phase total r).0 ≡ done
    → (r.0 ≡ []) × (prepare_phase total r ≡ commit_phase total (on_all commit_one r.1))
unfolding prepare_phase
prepare_phase-done total ([], servers) h = (refl, refl)
prepare_phase-done total (e ∷ es, servers) h = absurd (cc)

loaded-IsRouted : (cfg : RoutingConfig) (t : Table) → IsRouted cfg t → IsRouted cfg (loaded t)
loaded-IsRouted cfg t (writer, old, reader) = (
  lookup-loaded-online (writer_key cfg) (writer_key cfg) t writer,
  lookup-loaded-none (old_key cfg) t old,
  lookup-loaded-online (reader_key cfg) (reader_key cfg) t reader,
)

commit_phase-IsRouted :
    (cfg : RoutingConfig) (total : ℕ) (servers : List Server)
    → All (λ s. IsRouted cfg s.1.memory) servers
    → (commit_phase total (on_all commit_one servers)).0 ≡ done
    → All (λ s. IsRouted cfg s.1.runtime) (commit_phase total (on_all commit_one servers)).1
commit_phase-IsRouted cfg total servers all fine =
    let (none_met, same) = commit_phase-done total (on_all commit_one servers) fine in
    rw same (
      on_all-All (λ i. IsRouted cfg i.memory) (λ i. IsRouted cfg i.runtime) commit_one
        (λ s p h. rw (commit_one-runtime s h) (loaded-IsRouted cfg s.1.memory p)) servers all
        none_met)

-- If ApplyFailoverRouting succeeds and the old and the new writer are different servers, then in
-- the runtime table of every instance the new writer is online in the write and in the read
-- hostgroup, and the old one is not in the write hostgroup.
pub apply-IsRouted :
    (cfg : RoutingConfig) (servers : List Server)
    → AreDifferent cfg
    → (apply_failover_routing cfg servers).0 ≡ done
    → All (λ s. IsRouted cfg s.1.runtime) (apply_failover_routing cfg servers).1
unfolding apply_failover_routing
apply-IsRouted cfg servers different fine =
    let prepared = on_all (prepare_one cfg) servers in
    let (none_met, same) = prepare_phase-done (length servers) prepared fine in
    let ready =
      on_all-All (λ i. Unit {0}) (λ i. IsRouted cfg i.memory) (prepare_one cfg)
        (λ s p h. rw (prepare_one-staged cfg s h) (staged-IsRouted cfg s.1.memory different))
        servers (All-anything servers) none_met in
    rw same (commit_phase-IsRouted cfg (length servers) prepared.1 ready (rw same at fine))

swapped-AreDifferent : (cfg : RoutingConfig) → AreDifferent cfg → AreDifferent (swapped cfg)
swapped-AreDifferent cfg (inl hosts) = inl (λ p. hosts (sym p))
swapped-AreDifferent cfg (inr ports) = inr (λ p. ports (sym p))

-- If RollbackRouting succeeds for two different writers, then in the runtime table of every
-- instance the old writer is online again in the write and in the read hostgroup, and the new one
-- is not in the write hostgroup.
pub rollback-IsRouted :
    (cfg : RoutingConfig) (servers : List Server)
    → AreDifferent cfg
    → (rollback_routing cfg servers).0 ≡ done
    → All (λ s. IsRouted (swapped cfg) s.1.runtime) (rollback_routing cfg servers).1
unfolding rollback_routing
rollback-IsRouted cfg servers different fine =
    apply-IsRouted (swapped cfg) servers (swapped-AreDifferent cfg different) fine
