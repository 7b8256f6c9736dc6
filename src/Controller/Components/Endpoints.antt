-- ===== src/Controller/Components/Endpoints.antt =====
-- resolveProxySQLEndpoints, resolveProxySQLBySelector and proxySQLPodReady.
use mysql_keeper.Prelude.{
  String, List, [], ◌∷◌, Bool, false, not, ◌||◌, none, some, if◌then◌else◌, str_eq,
}
use mysql_keeper.Prelude.Int.{ℤ, pos, eqb_ℤ}
use mysql_keeper.Go.Error.{text, raised, Result, ok, err, annotate, ◌>>=◌}
use mysql_keeper.Api.{ClusterSwitchPolicy}
use mysql_keeper.Api.Spec.{ProxySqlEndpoint, ProxySqlSelectorConfig}
use mysql_keeper.Controller.Components.Secrets.{KubeReads, Pod, PodCondition, read_secret}

-- proxysql.Endpoint and health.ProxySQLEndpointInfo.
pub record Endpoint : Type 0 where
  pub host : String
  pub port : ℤ
  pub username : String
  pub password : String

abbrev pub port_or_default : ℤ → ℤ
port_or_default port = if eqb_ℤ port (pos 0) then pos 6032 else port

unfoldable pub proxysql_pod_ready : List PodCondition → Bool
proxysql_pod_ready [] = false
proxysql_pod_ready (c ∷ cs) =
    let rest = proxysql_pod_ready cs in
    if str_eq c.kind "Ready" then str_eq c.status "True" else rest

abbrev pub is_usable : Pod → Bool
is_usable pod =
    if not (str_eq pod.phase "Running") || str_eq pod.pod_ip ""
    then false
    else proxysql_pod_ready pod.conditions

unfoldable pub pod_endpoints : String × String → ℤ → List Pod → List Endpoint
unfolding proxysql_pod_ready
pod_endpoints (u, p) port [] = []
pod_endpoints (u, p) port (pod ∷ pods) =
    let rest = pod_endpoints (u, p) port pods in
    if is_usable pod
    then record { host = pod.pod_ip; port = port; username = u; password = p } ∷ rest
    else rest

module _ (kube : KubeReads) where
  -- The static list, with the credentials of each.
  static_endpoints : List ProxySqlEndpoint → Result (List Endpoint)
  unfolding read_secret
  static_endpoints [] = ok []
  static_endpoints (ep ∷ eps) =
      let rest = static_endpoints eps in
      annotate (text "ProxySQL creds for " ∷ text ep.host ∷ [])
        (read_secret kube ep.credentials_secret_ref)
      >>= λ credentials. rest >>= λ others. ok (
          record {
            host = ep.host;
            port = port_or_default ep.admin_port;
            username = credentials.0;
            password = credentials.1;
          }
          ∷ others)

  unfoldable pub resolve_by_selector : ProxySqlSelectorConfig → Result (List Endpoint)
  unfolding read_secret pod_endpoints
  resolve_by_selector cfg = do
    pods ←
        annotate
          (text "list ProxySQL pods (selector="
            ∷ text (kube.print_labels cfg.match_labels)
            ∷ text ")"
            ∷ [])
          (kube.list_pods cfg)
    credentials ←
        annotate (text "ProxySQL selector creds" ∷ []) (read_secret kube cfg.credentials_secret_ref)
    ok (pod_endpoints credentials (port_or_default cfg.admin_port) pods)

  -- The list for the manager and for the checker are the same.
  unfoldable pub resolve_proxysql_endpoints : ClusterSwitchPolicy → Result (List Endpoint)
  unfolding resolve_by_selector static_endpoints
  resolve_proxysql_endpoints policy = elim policy.spec.proxysql_selector [
    | some cfg ↦ resolve_by_selector cfg
    | none ↦ elim policy.spec.proxysql [
      | [] ↦ err (
          raised (
            text "spec.proxySQL and spec.proxySQLSelector are both unset; at least one is required"
            ∷ []))
      | ep ∷ eps ↦ static_endpoints (ep ∷ eps)
    ]
  ]
