-- ===== src/ProxySql/Table/Lookup.antt =====
-- What is found in the table after each statement.
use mysql_keeper.Prelude.{
  str_eq, ◌≡◌, ◌↔◌, refl, ◌∙◌, [], ◌∷◌, ◌++◌, true, false, Option, none, some, arith, eq_iff,
  Bool-cases, inl, inr,
}
use mysql_keeper.Prelude.Int.{eq_of_parts}
use mysql_keeper.ProxySql.Table.{
  Key, Row, Table, key_eq, lookup, delete, insert_or_replace, loaded, online, offline,
}

pub key_eq_iff : (k l : Key) → (key_eq k l ≡ true) ↔ (k ≡ l)
key_eq_iff k l = ground (
  arith,
  eq_iff k.hostname l.hostname,
  eq_of_parts k.hostgroup_id l.hostgroup_id,
  eq_of_parts k.port l.port,
)

pub lookup-delete : (k : Key) (t : Table) → lookup k (delete k t) ≡ none
unfolding lookup delete
lookup-delete k [] = refl
lookup-delete k (r ∷ t) = ground (arith, lookup-delete k t)

key_eq_refl : (k : Key) → key_eq k k ≡ true
key_eq_refl k = (key_eq_iff k k).1 refl

lookup-delete_other :
    (k l : Key) (t : Table) → key_eq k l ≡ false → lookup k (delete l t) ≡ lookup k t
unfolding lookup delete
lookup-delete_other k l [] h = refl
lookup-delete_other k l (r ∷ t) h =
    ground
      (arith, lookup-delete_other k l t h, key_eq_iff k r.key, key_eq_iff l r.key, key_eq_refl l)

-- A row at the end is found where no other one is.
lookup-append :
    (k : Key) (t : Table) (r : Row)
    → lookup k t ≡ none
    → lookup k (t ++ (r ∷ [])) ≡ lookup k (r ∷ [])
unfolding lookup
lookup-append k [] r h = refl
lookup-append k (s ∷ t) r h = ground (arith, lookup-append k t r)

lookup-append_other :
    (k : Key) (t : Table) (r : Row) → key_eq k r.key ≡ false → lookup k (t ++ (r ∷ [])) ≡ lookup k t
unfolding lookup
lookup-append_other k [] r h = ground arith
lookup-append_other k (s ∷ t) r h = ground (arith, lookup-append_other k t r h)

pub lookup-insert : (r : Row) (t : Table) → lookup r.key (insert_or_replace r t) ≡ some r
unfolding insert_or_replace lookup
lookup-insert r t =
    lookup-append r.key (delete r.key t) r (lookup-delete r.key t)
    ∙ ground (arith, key_eq_refl r.key)

pub lookup-insert_other :
    (k : Key) (r : Row) (t : Table)
    → key_eq k r.key ≡ false
    → lookup k (insert_or_replace r t) ≡ lookup k t
unfolding insert_or_replace
lookup-insert_other k r t h =
    lookup-append_other k (delete r.key t) r h ∙ lookup-delete_other k r.key t h

some_same : {a b : Row} → ◌≡◌ {A = Option Row} (some a) (some b) → a ≡ b
some_same h = cc

-- What is found in use: a row that is not OFFLINE_HARD, and nothing where there was nothing.
pub lookup-loaded-online :
    (k l : Key) (t : Table) → lookup k t ≡ some (online l) → lookup k (loaded t) ≡ some (online l)
unfolding lookup loaded
lookup-loaded-online k l [] h = cc
lookup-loaded-online k l (r ∷ t) h = elim (Bool-cases (key_eq k r.key)) [
  | inl hit ↦
      let found : ◌≡◌ {A = Option Row} (some r) (some (online l)) = simp (hit) at h in
      let up : str_eq r.status "OFFLINE_HARD" ≡ false = rw (some_same found) refl in
      simp (up, hit) found
  | inr miss ↦ ground (arith, lookup-loaded-online k l t)
]

pub lookup-loaded-none : (k : Key) (t : Table) → lookup k t ≡ none → lookup k (loaded t) ≡ none
unfolding lookup loaded
lookup-loaded-none k [] h = refl
lookup-loaded-none k (r ∷ t) h = ground (arith, lookup-loaded-none k t)

loaded-append : (t : Table) (k : Key) → loaded (t ++ (offline k ∷ [])) ≡ loaded t
unfolding loaded
loaded-append [] k = refl
loaded-append (r ∷ t) k = ground (arith, loaded-append t k)

-- A row that is put OFFLINE_HARD is not in use.
pub lookup-loaded-offline :
    (k : Key) (t : Table) → lookup k (loaded (insert_or_replace (offline k) t)) ≡ none
unfolding insert_or_replace
lookup-loaded-offline k t =
    rw (loaded-append (delete k t) k) (lookup-loaded-none k (delete k t) (lookup-delete k t))
