-- ===== src/ProxySql/Manager/Blackhole/Fenced.antt =====
-- What a blackhole fence establishes, and when it cannot be raised.
use mysql_keeper.Prelude.{
  ◌≤◌, ◌≡◌, ◌≢◌, refl, ap, ◌∙◌, List, [], ◌∷◌, true, false, none, some, arith, map, keep, length,
  All, inl, inr, Bool-cases, str_eq, eq_iff,
}
use mysql_keeper.Go.Error.{Error, Outcome, ok, err, done}
use mysql_keeper.Switchover.Effects.{BlackholeConfig}
use mysql_keeper.ProxySql.Table.{
  Key, Row, Table, Instance, same_server, key_eq, lookup, loaded, offline, update_server,
  insert_or_replace, moved,
}
use mysql_keeper.ProxySql.Table.Lookup.{
  lookup-insert, lookup-insert_other, key_eq_iff, lookup-loaded-none, lookup-loaded-offline,
}
use mysql_keeper.ProxySql.Manager.{Server, on_all, collect}
use mysql_keeper.ProxySql.Manager.Atomic.{on_all-All, All-anything}
use mysql_keeper.ProxySql.Manager.Blackhole.{
  blackhole_key, blackhole, blackhole_one, run_blackhole_steps, update_step, updated, reported,
}

-- Two rows of the table are for the server.
abbrev pub IsTwice : Key → Table → Type 0
IsTwice k t = 2 ≤ length (keep (λ r. same_server k r.key) t)

blackhole_one-collides :
    (k : Key) (s : Server)
    → IsTwice k s.1.memory
    → ((blackhole_one k s).0 ≢ done) × ((blackhole_one k s).1 ≡ s.1)
unfolding blackhole_one run_blackhole_steps update_step updated update_server
blackhole_one-collides k (f, i) h = ground arith

collect-failed :
    (s : Server) (o : Outcome × Instance) (r : List Error × List Server)
    → o.0 ≢ done
    → (collect s o r).0 ≢ []
collect-failed (f, i) (ok tt, i') (errors, rest) h = absurd (h refl)
collect-failed (f, i) (err e, i') (errors, rest) h = λ p. cc

reported-failed :
    (servers : List Server) (r : List Error × List Server)
    → r.0 ≢ []
    → (reported servers r).0 ≢ done
unfolding reported
reported-failed servers ([], after) h = absurd (h refl)
reported-failed servers (e ∷ es, after) h = λ p. cc

-- If on the first instance the target stands in two rows of the table, in two hostgroups, then
-- Blackhole returns an error, however the statements would end by themselves.
pub blackhole-collides :
    (cfg : BlackholeConfig) (s : Server) (servers : List Server)
    → IsTwice (blackhole_key cfg) s.1.memory
    → (blackhole cfg (s ∷ servers)).0 ≢ done
unfolding blackhole on_all
blackhole-collides cfg s servers twice = elim (Bool-cases (str_eq cfg.target_host "")) [
  | inl empty ↦ simp (empty) (λ p. cc)
  | inr named ↦ simp (named) (
      reported-failed (s ∷ servers)
        (collect s (blackhole_one (blackhole_key cfg) s)
          (on_all (blackhole_one (blackhole_key cfg)) servers))
        (collect-failed s (blackhole_one (blackhole_key cfg) s)
          (on_all (blackhole_one (blackhole_key cfg)) servers)
          ((blackhole_one-collides (blackhole_key cfg) s twice).0)))
]

-- In the table the server is offline in its hostgroup and in no other one, and in use it is in none.
abbrev pub IsFenced : Key → Instance → Type 0
IsFenced k i =
    (lookup k i.memory ≡ some (offline k))
    × ((l : Key) → same_server l k ≡ true → key_eq l k ≡ false → lookup l i.memory ≡ none)
    × ((l : Key) → same_server l k ≡ true → lookup l i.runtime ≡ none)

same_server-sym : (k l : Key) → same_server l k ≡ true → same_server k l ≡ true
same_server-sym k l h = ground (arith, eq_iff l.hostname k.hostname, eq_iff k.hostname l.hostname)

-- A row of another server keeps its key, and its key is not one of this server.
unmoved-other :
    (k l : Key) (r : Row)
    → same_server l k ≡ true
    → same_server k r.key ≡ false
    → key_eq l r.key ≡ false
unmoved-other k l r same apart = elim (Bool-cases (key_eq l r.key)) [
  | inr miss ↦ miss
  | inl hit ↦ cc (ap (same_server k) ((key_eq_iff l r.key).0 hit), same_server-sym k l same, apart)
]

moved-other :
    (k l : Key) (r : Row)
    → same_server l k ≡ true
    → key_eq l k ≡ false
    → key_eq l (moved k r).key ≡ false
moved-other k l r same other = elim (Bool-cases (same_server k r.key)) [
  | inl hit ↦ simp (hit) other
  | inr miss ↦ simp (miss) (unmoved-other k l r same miss)
]

lookup-moved :
    (k l : Key) (t : Table)
    → same_server l k ≡ true
    → key_eq l k ≡ false
    → lookup l (map (moved k) t) ≡ none
unfolding lookup
lookup-moved k l [] same other = refl
lookup-moved k l (r ∷ t) same other =
    simp (moved-other k l r same other) (lookup-moved k l t same other)

fenced : Key → Table → Table
fenced k t = insert_or_replace (offline k) (map (moved k) t)

fenced_elsewhere :
    (k : Key) (t : Table) (l : Key)
    → same_server l k ≡ true
    → key_eq l k ≡ false
    → lookup l (fenced k t) ≡ none
unfolding fenced
fenced_elsewhere k t l same other =
    lookup-insert_other l (offline k) (map (moved k) t) other ∙ lookup-moved k l t same other

-- In no hostgroup is the server in use.
fenced_unused :
    (k : Key) (t : Table) (l : Key) → same_server l k ≡ true → lookup l (loaded (fenced k t)) ≡ none
unfolding fenced
fenced_unused k t l same = elim (Bool-cases (key_eq l k)) [
  | inl hit ↦ rw ((key_eq_iff l k).0 hit) (lookup-loaded-offline k (map (moved k) t))
  | inr other ↦ lookup-loaded-none l (fenced k t) (fenced_elsewhere k t l same other)
]

blackhole_one-fenced :
    (k : Key) (s : Server)
    → (blackhole_one k s).0 ≡ done
    → ((blackhole_one k s).1.memory ≡ fenced k s.1.memory)
      × ((blackhole_one k s).1.runtime ≡ loaded (fenced k s.1.memory))
unfolding blackhole_one run_blackhole_steps update_step updated update_server fenced
blackhole_one-fenced k (f, i) h = ground arith

blackhole_one-IsFenced :
    (k : Key) (s : Server) → (blackhole_one k s).0 ≡ done → IsFenced k (blackhole_one k s).1
unfolding fenced
blackhole_one-IsFenced k s h =
    let (staged, used) = blackhole_one-fenced k s h in
    (
      rw staged (lookup-insert (offline k) (map (moved k) s.1.memory)),
      λ l same other. rw staged (fenced_elsewhere k s.1.memory l same other),
      λ l same. rw used (fenced_unused k s.1.memory l same),
    )

reported-done :
    (servers : List Server) (r : List Error × List Server)
    → (reported servers r).0 ≡ done
    → (r.0 ≡ []) × ((reported servers r).1 ≡ r.1)
unfolding reported
reported-done servers ([], after) h = (refl, refl)
reported-done servers (e ∷ es, after) h = absurd (cc)

-- If Blackhole succeeds, then on every instance the target is in the table in the blackhole
-- hostgroup alone, OFFLINE_HARD, without connections or weight, and in the runtime table, which
-- leaves out what is OFFLINE_HARD, it is in no hostgroup.
pub blackhole-IsFenced :
    (cfg : BlackholeConfig) (servers : List Server)
    → (blackhole cfg servers).0 ≡ done
    → All (λ s. IsFenced (blackhole_key cfg) s.1) (blackhole cfg servers).1
unfolding blackhole
blackhole-IsFenced cfg servers fine = elim (Bool-cases (str_eq cfg.target_host "")) [
  | inl empty ↦ absurd (cc (empty))
  | inr named ↦
      let k = blackhole_key cfg in
      let (none_met, same) =
        reported-done servers (on_all (blackhole_one k) servers) (simp (named) at fine) in
      simp (named) (
        rw same (
          on_all-All (λ i. Unit {0}) (λ i. IsFenced k i) (blackhole_one k)
            (λ s p h. blackhole_one-IsFenced k s h) servers (All-anything servers) none_met))
]
