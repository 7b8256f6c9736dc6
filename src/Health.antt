-- ===== src/Health.antt =====
-- internal/health: one snapshot of a cluster. What the servers answer (the PXC resource, the MySQL
-- queries, the ProxySQL probes) is an argument; the checkers are functions of the answers.
pub mod Answered
pub mod Laws
mod Tests
use mysql_keeper.Prelude.{
  ℕ, String, List, [], ◌∷◌, ◌++◌, Bool, true, false, Option, none, some, if◌then◌else◌, str_eq, not,
  is_empty,
}
use mysql_keeper.Prelude.Int.{ℤ, pos, ltb_ℤ, eqb_ℤ, ◌+ℤ◌, wrap32}
use mysql_keeper.Go.Time.{Time}
use mysql_keeper.Go.Error.{
  Message, text, quoted, number, Error, printed, Outcome, Result, ok, err, annotate, ◌>>=◌, ◌>>◌,
}

pub data WritableState : Type 0 where
  writable_unknown writable_no writable_yes : WritableState

-- `w == WritableYes` and its like.
abbrev pub writable_eq : WritableState → WritableState → Bool
writable_eq writable_unknown writable_unknown = true
writable_eq writable_no writable_no = true
writable_eq writable_yes writable_yes = true
writable_eq _ _ = false

abbrev pub writable_text : WritableState → String
writable_text writable_no = "ReadOnly"
writable_text writable_yes = "ReadWrite"
writable_text writable_unknown = "Unknown"

pub record ClusterHealth : Type 0 where
  pub healthy : Bool
  pub pxc_state : String
  pub pxc_ready_nodes : ℤ
  pub wsrep_cluster_size : ℤ
  pub wsrep_cluster_status : String
  pub writable : WritableState
  pub is_writable : Bool
  pub proxysql_healthy : ℤ
  pub checked_at : Time
  pub message : Message

-- The answers of one MySQL server to `checkMySQL`, in the order of the calls. `scan` is
-- fmt.Sscanf with "%d" into an int32.
pub record MysqlAnswers : Type 0 where
  pub opened : Outcome
  pub ping : Outcome
  pub cluster_size : Result String
  pub scan : String → Result ℤ
  pub cluster_status : Result String
  pub read_only : Result ℤ

unfoldable pub check_mysql : MysqlAnswers → Result (ℤ × String × Bool)
check_mysql a = do
  annotate (text "open MySQL connection" ∷ []) a.opened
  annotate (text "ping MySQL" ∷ []) a.ping
  size_text ← annotate (text "query wsrep_cluster_size" ∷ []) a.cluster_size
  size ← annotate (text "parse wsrep_cluster_size " ∷ quoted size_text ∷ []) (a.scan size_text)
  status ← annotate (text "query wsrep_cluster_status" ∷ []) a.cluster_status
  read_only ← annotate (text "query @@read_only" ∷ []) a.read_only
  ok (size, status, eqb_ℤ read_only (pos 0))

-- What a PXCChecker asks: the resource's state and ready nodes when it has a Kubernetes client,
-- and the MySQL server.
pub record PxcAnswers : Type 0 where
  pub crd : Option (Result (String × ℤ))
  pub mysql : MysqlAnswers

-- The snapshot that `Check` starts from.
abbrev fresh : Time → ClusterHealth
fresh now = record {
  healthy = true;
  pxc_state = "";
  pxc_ready_nodes = pos 0;
  wsrep_cluster_size = pos 0;
  wsrep_cluster_status = "";
  writable = writable_unknown;
  is_writable = false;
  proxysql_healthy = pos 0;
  checked_at = now;
  message = [];
}

abbrev unhealthy : ClusterHealth → Message → ClusterHealth
unhealthy h m = record h { healthy = false; message = m }

mysql_step : ClusterHealth → Result (ℤ × String × Bool) → ClusterHealth
mysql_step h (err e) = record h {
  healthy = false;
  writable = writable_unknown;
  is_writable = false;
  message = text "MySQL unreachable: " ∷ printed e;
}
mysql_step h (ok (size, status, is_writable)) =
    let g = record h {
      wsrep_cluster_size = size;
      wsrep_cluster_status = status;
      writable = if is_writable then writable_yes else writable_no;
      is_writable = is_writable;
    } in
    if not (str_eq status "Primary")
    then unhealthy g (text "wsrep_cluster_status=" ∷ quoted status ∷ text " (not Primary)" ∷ [])
    else if ltb_ℤ size (pos 2)
    then unhealthy g (text "wsrep_cluster_size=" ∷ number size ∷ text " (< 2, quorum lost)" ∷ [])
    else g

-- The answer of `checkPXCCRD`: `none` when the resource stands in no way of the MySQL queries.
crd_step : ClusterHealth → Result (String × ℤ) → ClusterHealth × Bool
crd_step h (err e) = (unhealthy h (text "PXC CRD check failed: " ∷ printed e), false)
crd_step h (ok (state, ready)) =
    let g = record h { pxc_state = state; pxc_ready_nodes = ready } in
    if not (str_eq state "ready")
    then (
      unhealthy g (text "PXC state is " ∷ quoted state ∷ text " (expected 'ready')" ∷ []),
      false,
    )
    else if ltb_ℤ ready (pos 2)
    then (
      unhealthy g (text "PXC ready nodes " ∷ number ready ∷ text " < 2 (quorum lost)" ∷ []),
      false,
    )
    else (g, true)

abbrev continue_if : ClusterHealth × Bool → Result (ℤ × String × Bool) → ClusterHealth
continue_if (h, true) mysql = mysql_step h mysql
continue_if (h, false) mysql = h

pxc_result : Time → Option (Result (String × ℤ)) → Result (ℤ × String × Bool) → ClusterHealth
unfolding mysql_step crd_step
pxc_result now none mysql = mysql_step (fresh now) mysql
pxc_result now (some crd) mysql = continue_if (crd_step (fresh now) crd) mysql

unfoldable pub pxc_check : Time → PxcAnswers → ClusterHealth
unfolding pxc_result
pxc_check now a = pxc_result now a.crd (check_mysql a.mysql)

-- One ProxySQL admin endpoint: opened, pinged, and asked for `SELECT 1`.
pub record ProxyAnswers : Type 0 where
  pub opened : Outcome
  pub ping : Outcome
  pub select_one : Outcome

check_one : ProxyAnswers → Bool
check_one a = elim (a.opened >> a.ping >> a.select_one) [ ok _ ↦ true | err _ ↦ false ]

unfoldable pub proxysql_check : List ProxyAnswers → ℤ
unfolding check_one
proxysql_check [] = pos 0
proxysql_check (a ∷ rest) =
    let count = proxysql_check rest in if check_one a then wrap32 (count +ℤ pos 1) else count

-- The ProxySQL half of a Checker: it counts against `minProxySQL`.
proxysql_step : ClusterHealth → ℤ → ℤ → ClusterHealth
proxysql_step h count min_proxysql =
    let g = record h { proxysql_healthy = count } in
    let m : Message =
      text "ProxySQL healthy instances "
      ∷ number count
      ∷ text " < required "
      ∷ number min_proxysql
      ∷ [] in
    if ltb_ℤ count min_proxysql
    then record g {
      healthy = false;
      message = if is_empty h.message then m else h.message ++ (text "; " ∷ m);
    }
    else g

-- A Checker: the PXC answers, and for a local cluster the ProxySQL answers with `minProxySQL`.
unfoldable pub check : Time → PxcAnswers → Option (List ProxyAnswers × ℤ) → ClusterHealth
unfolding pxc_check proxysql_step
check now a none = pxc_check now a
check now a (some (proxies, min_proxysql)) =
    proxysql_step (pxc_check now a) (proxysql_check proxies) min_proxysql
