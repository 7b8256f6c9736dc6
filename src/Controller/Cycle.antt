-- ===== src/Controller/Cycle.antt =====
-- clusterswitchpolicy_controller.go: what a cycle does beside the decision. The condition
-- SplitBrainSafe (updateSplitBrainCondition), the tables of the keeper (ensureKeeperSchema) and the
-- heartbeat of the lease (heartbeatLeaderLease); buildComponents has made a handle on both databases.
-- And replication_metrics.go: the measurement of the GTID lag (observeGTIDLag).
pub mod Quiet
use Prim.Native.String.{◌++◌ as ◌+++◌}
use mysql_keeper.Prelude.{
  Option, none, some, String, List, [], ◌∷◌, Bool, true, false, ◌&&◌, ◌||◌, not, if◌then◌else◌,
  str_eq,
}
use mysql_keeper.Prelude.Int.{ℤ, negsuc}
use mysql_keeper.Go.Time.{Time}
use mysql_keeper.Go.Error.{text, Message, Outcome, Result, ok, err}
use mysql_keeper.Api.{ClusterSwitchPolicy}
use mysql_keeper.Api.Status.{Condition, GtidLagStatus}
use mysql_keeper.Health.{ClusterHealth, WritableState, writable_eq, writable_yes, writable_no}
use mysql_keeper.Switchover.Effects.{Side, local, remote}
use mysql_keeper.Controller.Client.{
  Kube, World, R, pure, ◌>>=◌, ◌>>◌, act, ensure_keeper_schema, ensure_leader_lease_schema,
  acquire_or_renew_lease,
}
use mysql_keeper.Controller.LeaseTtl.{lease_ttl}
use mysql_keeper.Controller.Attempt.{controller_owner_id}

abbrev split_brain : Bool → String → Message → Time → Condition
split_brain status reason message now = record {
  kind = "SplitBrainSafe";
  status = status;
  reason = reason;
  message = message;
  last_transition_time = now;
}

unfoldable pub split_brain_condition : Time → WritableState → WritableState → Condition
split_brain_condition now l r =
    if writable_eq l writable_yes && writable_eq r writable_yes
    then split_brain false "BothWritable" (text "CRITICAL: both clusters are read_only=OFF" ∷ [])
        now
    else if writable_eq l writable_no && writable_eq r writable_no
    then split_brain false "BothReadOnly"
        (text "Both clusters are read_only=ON — auto-failover suppressed" ∷ []) now
    else split_brain true "Normal"
        (text "Exactly one cluster is writable or state is being determined" ∷ []) now

unfoldable pub update_split_brain_condition :
    Kube → Time → ClusterHealth → ClusterHealth → ClusterSwitchPolicy → ClusterSwitchPolicy
unfolding split_brain_condition
update_split_brain_condition kube now local_h remote_h policy = record policy {
  status = record policy.status {
    conditions =
        kube.set_status_condition policy.status.conditions
          (split_brain_condition now local_h.writable remote_h.writable);
  };
}

abbrev pub schema_key : String → Side → String
schema_key uid local = uid +++ "/local"
schema_key uid remote = uid +++ "/remote"

-- `schemaEnsured.Load`
abbrev pub is_stored : String → List String → Bool
is_stored key [] = false
is_stored key (k ∷ ks) = str_eq k key || is_stored key ks

store : String → R Unit
store key w = (tt, record w { schema_ensured = key ∷ w.schema_ensured })

module _ (kube : Kube) where
  lease_made : String → Outcome → R Unit
  unfolding store
  lease_made key (ok _) = store key
  lease_made key (err e) = pure tt

  keeper_made : Side → String → Outcome → R Unit
  unfolding lease_made
  keeper_made side key (err e) = pure tt
  keeper_made side key (ok _) = do
    made ← act kube (ensure_leader_lease_schema side)
    lease_made key made

  make_schema : Side → String → R Unit
  unfolding keeper_made
  make_schema side key = do made ← act kube (ensure_keeper_schema side); keeper_made side key made

  -- One side: nothing where it is not writable, or was done before.
  unfoldable pub ensure_schema_on : Side → WritableState → String → R Unit
  unfolding make_schema
  ensure_schema_on side state key w =
      if writable_eq state writable_yes && not (is_stored key w.schema_ensured)
      then make_schema side key w
      else (tt, w)

  unfoldable pub ensure_schemas : ClusterHealth → ClusterHealth → ClusterSwitchPolicy → R Unit
  unfolding ensure_schema_on
  ensure_schemas local_h remote_h policy =
      ensure_schema_on local local_h.writable (schema_key policy.metadata.uid local)
      >> ensure_schema_on remote remote_h.writable (schema_key policy.metadata.uid remote)

  ignored : Outcome → R Unit
  ignored o = pure tt

  -- A failure is logged only.
  unfoldable pub heartbeat_leader_lease : ClusterHealth → ClusterSwitchPolicy → R Unit
  unfolding ignored
  heartbeat_leader_lease local_h policy =
      if not (writable_eq local_h.writable writable_yes)
      then pure tt
      else act kube (acquire_or_renew_lease (controller_owner_id policy) (lease_ttl policy))
        >>= ignored

-- What observeGTIDLag asks: GetExecutedGTID of the local cluster, MissingGTIDs of the remote one,
-- whether it can tell the lag in seconds, and the lag of a channel.
pub record LagAnswers : Type 0 where
  pub has_inspectors : Bool
  pub executed : Result String
  pub missing : String → Result String
  pub lag_seconds : Option (String → Result ℤ)

-- The channel of the other direction, where it is named.
abbrev pub remote_channel : ClusterSwitchPolicy → String
remote_channel policy =
    if str_eq policy.spec.peer_replication_channel_name ""
    then policy.spec.replication_channel_name
    else policy.spec.peer_replication_channel_name

abbrev known_lag : Result ℤ → ℤ
known_lag (ok n) = n
known_lag (err e) = negsuc 0

lag_of : Option (String → Result ℤ) → String → ℤ
lag_of none channel = negsuc 0
lag_of (some query) channel = known_lag (query channel)

-- gtidLagStatusFor of what was measured, `count` being CountGTIDTransactions; `none` where nothing
-- was.
measured_missing :
    (String → ℤ)
    → LagAnswers
    → ClusterSwitchPolicy
    → Time
    → String
    → Result String
    → Option GtidLagStatus
unfolding lag_of
measured_missing count a policy now local_gtid (err e) = none
measured_missing count a policy now local_gtid (ok set) = some (record {
  missing_transactions = count set;
  lag_seconds = lag_of a.lag_seconds (remote_channel policy);
  measured_at = now;
  local_gtid_executed = local_gtid;
  remote_gtid_missing = set;
})

measured_local :
    (String → ℤ) → LagAnswers → ClusterSwitchPolicy → Time → Result String → Option GtidLagStatus
unfolding measured_missing
measured_local count a policy now (err e) = none
measured_local count a policy now (ok local_gtid) =
    measured_missing count a policy now local_gtid (a.missing local_gtid)

unfoldable pub observe_gtid_lag :
    (String → ℤ) → LagAnswers → ClusterSwitchPolicy → Time → Option GtidLagStatus
unfolding measured_local
observe_gtid_lag count a policy now =
    if str_eq policy.spec.replication_channel_name "" || not a.has_inspectors
    then none
    else measured_local count a policy now a.executed
