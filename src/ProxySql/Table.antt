-- ===== src/ProxySql/Table.antt =====
-- The table mysql_servers of one instance, in the three places that ProxySQL keeps it, and the
-- statements of manager.go on it. Its primary key is (hostgroup_id, hostname, port).
pub mod Lookup
use mysql_keeper.Prelude.{
  String, List, [], ◌∷◌, ◌++◌, Bool, true, false, not, ◌&&◌, Option, none, some, if◌then◌else◌, map,
  keep, str_eq, length, leb,
}
use mysql_keeper.Prelude.Int.{ℤ, pos, eqb_ℤ}

pub record Key : Type 0 where
  pub hostgroup_id : ℤ
  pub hostname : String
  pub port : ℤ

pub record Row : Type 0 where
  pub key : Key
  pub status : String
  pub max_connections : ℤ
  pub weight : ℤ

abbrev pub Table : Type 0
Table = List Row

abbrev pub same_server : Key → Key → Bool
same_server k l = str_eq k.hostname l.hostname && eqb_ℤ k.port l.port

abbrev pub key_eq : Key → Key → Bool
key_eq k l = eqb_ℤ k.hostgroup_id l.hostgroup_id && same_server k l

unfoldable pub lookup : Key → Table → Option Row
lookup k [] = none
lookup k (r ∷ t) = let rest = lookup k t in if key_eq k r.key then some r else rest

-- DELETE … WHERE hostgroup_id = ? AND hostname = ? AND port = ?
unfoldable pub delete : Key → Table → Table
delete k t = keep (λ r. not (key_eq k r.key)) t

-- INSERT OR REPLACE: the row takes the place of one with its key.
unfoldable pub insert_or_replace : Row → Table → Table
unfolding delete
insert_or_replace r t = delete r.key t ++ (r ∷ [])

-- The row that the manager inserts for a writer, and the one for a blackholed server.
abbrev pub online : Key → Row
online k = record { key = k; status = "ONLINE"; max_connections = pos 1000; weight = pos 1 }

abbrev pub offline : Key → Row
offline k = record { key = k; status = "OFFLINE_HARD"; max_connections = pos 0; weight = pos 0 }

-- UPDATE … SET hostgroup_id = ?, max_connections = 0, status = 'OFFLINE_HARD' WHERE hostname = ?
-- AND port = ?. Two rows of the server would have one key: then the statement fails.
abbrev pub moved : Key → Row → Row
moved k r =
    if same_server k r.key
    then record r { key = k; status = "OFFLINE_HARD"; max_connections = pos 0 }
    else r

unfoldable pub update_server : Key → Table → Option Table
update_server k t =
    if leb (length (keep (λ r. same_server k r.key) t)) 1 then some (map (moved k) t) else none

-- LOAD MYSQL SERVERS TO RUNTIME: what comes to be in use. ProxySQL leaves out the servers that are
-- OFFLINE_HARD, as internal/proxysql/integration_test.go says.
unfoldable pub loaded : Table → Table
loaded t = keep (λ r. not (str_eq r.status "OFFLINE_HARD")) t

-- What an instance holds: the table that statements change, the one in use, and the one on disk.
pub record Instance : Type 0 where
  pub host : String
  pub port : ℤ
  pub memory : Table
  pub runtime : Table
  pub disk : Table
