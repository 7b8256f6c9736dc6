-- ===== src/Switchover/Engine/Phases.antt =====
-- engine.go: Config and the six phases.
pub mod Writing
pub mod Unasked
use mysql_keeper.Prelude.{
  String, List, [], ◌∷◌, Bool, true, false, ◌&&◌, not, if◌then◌else◌, Option, none, some, map,
  str_eq,
}
use mysql_keeper.Prelude.Int.{ℤ, pos}
use mysql_keeper.Go.Time.{Duration}
use mysql_keeper.Go.Error.{
  text, number, Message, Error, raised, wrapped, wrapped_both, Outcome, Result, ok, err, done,
  annotate,
}
use mysql_keeper.Switchover.Effects.{
  Env, M, pure, ◌>>=◌, ◌>>◌, act, ask_bool, local, remote, RoutingConfig, BlackholeConfig,
  is_writable, set_read_only, set_read_write, probe_reachable, stop_replica, reset_replica_all,
  apply_failover_routing, blackhole,
}
use mysql_keeper.Switchover.PreFlight.Result.{PreFlight, PreFlightResult, is_ok, summary}
use mysql_keeper.Switchover.PreFlight.Run.{run}

pub record ReverseReplicationSource : Type 0 where
  pub host : String
  pub port : ℤ
  pub user : String
  pub password : String
  pub ssl : Bool

-- Config: an interface is there or nil, so it is a flag; LocalPXC is always there. The fence's
-- deadline is part of how SetReadOnly ends, and Reason, AttemptID are logged only.
pub record Config : Type 0 where
  pub remote_pxc : Bool
  pub local_inspector : Bool
  pub remote_inspector : Bool
  pub remote_replication : Bool
  pub local_replication : Bool
  pub local_proxysql : Bool
  pub routing : RoutingConfig
  pub blackhole_fence : BlackholeConfig
  pub local_replication_channel : String
  pub remote_replication_channel : String
  pub reverse_replication_source : Option ReverseReplicationSource
  pub min_binlog_retention_seconds : ℤ
  pub catchup_timeout : Duration
  pub drain_timeout : Duration
  pub allow_data_loss_failover : Bool
  pub local_replica_quarantined : Bool
  pub local_quarantine_reason : Message

-- The literal PreFlight{…} of phasePreFlight.
abbrev pub preflight_of : Config → PreFlight
preflight_of cfg = record {
  remote_pxc = cfg.remote_pxc;
  local_inspector = cfg.local_inspector;
  remote_inspector = cfg.remote_inspector;
  channel = cfg.remote_replication_channel;
  catchup_timeout = cfg.catchup_timeout;
  min_binlog_retention_second = cfg.min_binlog_retention_seconds;
  allow_data_loss_failover = cfg.allow_data_loss_failover;
  local_replica_quarantined = cfg.local_replica_quarantined;
  local_quarantine_reason = cfg.local_quarantine_reason;
}

-- Whether the checks let the switchover go on.
pub verdict : PreFlightResult → Outcome
verdict res =
    if not (is_ok res) then err (raised (text "preflight failed: " ∷ summary res)) else done

module _ (env : Env) (cfg : Config) where
  unfoldable pub phase_pre_flight : M (PreFlightResult × Outcome)
  unfolding verdict
  phase_pre_flight = do res ← run env (preflight_of cfg); pure (res, verdict res)

  -- `ok, _ := ProbeReachable(…)`: an error comes with false.
  answered : Result Bool → Bool
  answered (ok b) = b
  answered (err e) = false

  -- `reachable`, which stays false without an inspector.
  probe : M Bool
  unfolding answered
  probe =
      if not cfg.local_inspector
      then pure false
      else do found ← ask_bool env (probe_reachable local (pos 2000000000)); pure (answered found)

  blackholed : Error → Outcome → Outcome
  blackholed sql_err (ok _) = done
  blackholed sql_err (err e) = err (
      wrapped_both (text "local unreachable and ProxySQL blackhole fence failed: sqlErr=" ∷ [])
        sql_err (text " blackholeErr=" ∷ []) e)

  -- After the SQL fence failed.
  escalate : Error → Bool → M Outcome
  unfolding blackholed
  escalate sql_err true = pure (
      err (
        wrapped (text "local cluster is reachable but SQL fence failed — refusing to promote" ∷ [])
          sql_err))
  escalate sql_err false =
      if not cfg.local_proxysql
      then pure (
          err
            (wrapped (text "local unreachable and no ProxySQL blackhole configured" ∷ []) sql_err))
      else do moved ← act env (blackhole cfg.blackhole_fence); pure (blackholed sql_err moved)

  fence_by : Outcome → M Outcome
  unfolding escalate probe
  fence_by (ok _) = pure done
  fence_by (err e) = do reachable ← probe; escalate e reachable

  unfoldable pub phase_fence : M Outcome
  unfolding fence_by
  phase_fence = do fenced ← act env (set_read_only local); fence_by fenced

  -- STOP and RESET on the new source; their errors are logged only.
  clear_upstream : M Outcome
  clear_upstream =
      if not (cfg.remote_replication && not (str_eq cfg.remote_replication_channel ""))
      then pure done
      else do
        act env (stop_replica remote cfg.remote_replication_channel)
        act env (reset_replica_all remote cfg.remote_replication_channel)
        pure done

  promoted : Outcome → M Outcome
  unfolding clear_upstream
  promoted (ok _) = clear_upstream
  promoted (err e) = pure (err (wrapped (text "set remote read_only=OFF" ∷ []) e))

  unfoldable pub phase_promote : M Outcome
  unfolding promoted
  phase_promote = do opened ← act env (set_read_write remote); promoted opened

  -- `none` when LocalProxySQL is nil: the method call panics.
  unfoldable pub phase_routing : M (Option Outcome)
  phase_routing =
      if not cfg.local_proxysql
      then pure none
      else do applied ← act env (apply_failover_routing cfg.routing); pure (some applied)

  reset_former : Outcome → M Outcome
  reset_former (err e) = pure (err (wrapped (text "stop former-source replication channel" ∷ []) e))
  reset_former (ok _) = do
    cleared ← act env (reset_replica_all local cfg.local_replication_channel)
    pure (annotate (text "reset former-source replication channel" ∷ []) cleared)

  reverse_from : Option ReverseReplicationSource → M Outcome
  unfolding reset_former
  reverse_from none = pure (
      err (
        raised (
          text "no reverse replication source configured (will be set up on next reconcile)" ∷ [])))
  reverse_from (some src) =
      if not cfg.local_replication
      then pure (err (raised (text "no local replication controller available" ∷ [])))
      else do
        stopped ← act env (stop_replica local cfg.local_replication_channel)
        reset_former stopped

  unfoldable pub phase_reverse_replica : M Outcome
  unfolding reverse_from
  phase_reverse_replica = reverse_from cfg.reverse_replication_source

-- What phaseVerify makes of the new source's answer.
abbrev verified : Result Bool → Outcome
verified (err e) = err (wrapped (text "post-verify read @@read_only on new source" ∷ []) e)
verified (ok false) = err (raised (text "post-verify: new source is still read_only=ON" ∷ []))
verified (ok true) = done

unfoldable pub phase_verify : Env → M Outcome
phase_verify env = do writable ← ask_bool env (is_writable remote); pure (verified writable)
