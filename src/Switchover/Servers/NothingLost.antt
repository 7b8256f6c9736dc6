-- ===== src/Switchover/Servers/NothingLost.antt =====
-- A whole switchover on two servers that keep what MySQL documents: what it needs before it changes
-- anything.
use mysql_keeper.Prelude.{String, ◌≡◌, ◌≢◌, [], false, Bool-cases, inl, inr}
use mysql_keeper.Prelude.Int.{ℤ}
use mysql_keeper.Go.Time.{Duration}
use mysql_keeper.Switchover.Effects.{
  Env, Side, Trace, act, local, remote, pre_flight, on_phase_start,
}
use mysql_keeper.Switchover.PreFlight.Result.{is_ok}
use mysql_keeper.Switchover.PreFlight.Checks.{
  check_remote_reachable_read_only, check_remote_replication_running,
}
use mysql_keeper.Switchover.PreFlight.Run.{run}
use mysql_keeper.Switchover.Writers.{changed}
use mysql_keeper.Switchover.Engine.{execute}
use mysql_keeper.Switchover.Engine.Phases.{Config, preflight_of, phase_pre_flight}
use mysql_keeper.Switchover.Engine.Phases.Unasked.{HoldsOverCalls}
use mysql_keeper.Switchover.Engine.Safety.Held.{execute-holds}
use mysql_keeper.Switchover.Engine.Safety.Endings.{execute-refused}
use mysql_keeper.Switchover.Servers.{Cluster, pxc_env}
use mysql_keeper.Switchover.Servers.CaughtUp.{GtidServers, run-has_all}

module _ {Txn : Type 0} {Has : Side → Trace → Txn → Type 0} {Denotes : String → Txn → Type 0}
    (cluster : Side → Cluster) (servers : GtidServers Txn Has Denotes cluster)
    (seconds_of : Duration → ℤ) (calls : Env) (cfg : Config) where
  abbrev env : Env
  env = pxc_env seconds_of cluster calls

  kept_has : (s : Side) (x : Txn) → HoldsOverCalls (λ t u. Has s t x → Has s u x)
  kept_has s x = record {
    stay = λ t h. h;
    join = λ a b h. b (a h);
    step = λ c o t q h. servers.grows s (c, o) t x h;
  }

  -- For a switchover that is given SQL managers on both sides: if data loss is not allowed and the
  -- switchover makes any call that changes a cluster, its replication or its routing, then every
  -- transaction that the local server had executed when its snapshot was read in the checks has
  -- been executed by the remote server when the switchover ends. The servers are taken to keep what
  -- MySQL documents: a set of executed transactions only grows; gtid_executed, read, stands for at
  -- least those executed; the empty set for none; GTID_SUBTRACT is not NULL, and empty only if
  -- every transaction of the set has been executed; and a wait that returns 0 ends with all of them
  -- executed.
  pub execute-has_all :
      cfg.allow_data_loss_failover ≡ false
      → changed (execute env cfg []).1 ≢ []
      → (let p = preflight_of cfg in
          let t0 = (act env (on_phase_start pre_flight) []).1 in
          let t1 = (check_remote_reachable_read_only env p t0).1 in
          let t2 = (check_remote_replication_running env p t1).1 in
          (x : Txn) → Has local t2 x → Has remote (execute env cfg []).1 x)
  unfolding phase_pre_flight
  execute-has_all strict moved x has =
      let p = preflight_of cfg in
      let t0 = (act env (on_phase_start pre_flight) []).1 in
      elim (Bool-cases (is_ok (run env p t0).0)) [
        | inl fine ↦
            execute-holds (kept_has remote x) env cfg
              (run-has_all cluster servers seconds_of calls p t0 strict fine x has)
        | inr bad ↦ absurd (moved (execute-refused env cfg bad).0)
      ]
