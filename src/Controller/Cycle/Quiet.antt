-- ===== src/Controller/Cycle/Quiet.antt =====
-- The side work of a cycle runs no switchover.
use mysql_keeper.Prelude.{arith, String}
use mysql_keeper.Api.{ClusterSwitchPolicy}
use mysql_keeper.Health.{ClusterHealth, WritableState}
use mysql_keeper.Switchover.Effects.{Side, local, remote}
use mysql_keeper.Controller.Client.{Kube, Keeps}
use mysql_keeper.Controller.Cycle.{
  ensure_schema_on, ensure_schemas, heartbeat_leader_lease, make_schema, keeper_made, lease_made,
  store, ignored, schema_key,
}

ensure_schema-Keeps :
    (kube : Kube) (side : Side) (state : WritableState) (key : String)
    → Keeps (ensure_schema_on kube side state key)
unfolding ensure_schema_on make_schema keeper_made lease_made store
ensure_schema-Keeps kube side state key w h = ground (arith, h)

pub ensure_schemas-Keeps :
    (kube : Kube) (l r : ClusterHealth) (p : ClusterSwitchPolicy)
    → Keeps (ensure_schemas kube l r p)
unfolding ensure_schemas
ensure_schemas-Keeps kube l r p w h =
    ensure_schema-Keeps kube remote r.writable (schema_key p.metadata.uid remote) _
      (ensure_schema-Keeps kube local l.writable (schema_key p.metadata.uid local) w h)

pub heartbeat-Keeps :
    (kube : Kube) (l : ClusterHealth) (p : ClusterSwitchPolicy)
    → Keeps (heartbeat_leader_lease kube l p)
unfolding heartbeat_leader_lease ignored
heartbeat-Keeps kube l p w h = ground (arith, h)
