-- ===== src/Controller/Components/Build.antt =====
-- buildComponents, buildMANOClient and buildRemoteKubeClient. The two MANO managers share one client,
-- and so one token.
use mysql_keeper.Prelude.{String, List, [], ◌∷◌, Option, none, some, if◌then◌else◌}
use mysql_keeper.Prelude.Int.{ℤ, pos, eqb_ℤ}
use mysql_keeper.Go.Time.{Duration}
use mysql_keeper.Go.Error.{Message, text, number, raised, Result, ok, err, annotate, ◌>>=◌, ◌>>◌}
use mysql_keeper.Api.{ClusterSwitchPolicy}
use mysql_keeper.Api.Spec.{SecretRef, MySqlEndpointConfig, ManoConfig, RemoteKubeApiConfig}
use mysql_keeper.Mano.{Client}
use mysql_keeper.Mano.Manager.{PxcManager}
use mysql_keeper.Controller.Components.Secrets.{KubeReads, read_secret, read_secret_key}
use mysql_keeper.Controller.Components.Endpoints.{Endpoint, resolve_proxysql_endpoints}

-- rest.Config; without CA data it is insecure.
pub record RestConfig : Type 0 where
  pub host : String
  pub bearer_token : String
  pub ca_data : Option String

-- What a pxc.Manager patches: the API of its own cluster, or that of the remote one.
pub data KubeTarget : Type 0 where
  own_cluster : KubeTarget
  remote_cluster : RestConfig → KubeTarget

-- NewManager and NewRemoteManagerWithKubeAPI, which take the same parameters, and NewRemoteManager.
pub data SqlManager : Type 0 where
  with_api : Message → Duration → KubeTarget → String → String → String → ℤ → SqlManager
  sql_only : Message → Duration → SqlManager

-- switchover.PXCManager: by SQL and the resource, or by MANO, with the interval of the polls and the
-- data source of its reads.
pub data PxcControl : Type 0 where
  by_sql : SqlManager → PxcControl
  by_mano : PxcManager → Duration → Message → Duration → PxcControl

-- componentSet. The inspectors, replication controllers and schema handles are the two SQL managers.
pub record ComponentSet : Type 0 where
  pub local_dsn : Message
  pub remote_dsn : Message
  pub endpoints : List Endpoint
  pub local_sql : SqlManager
  pub remote_sql : SqlManager
  pub local_pxc : PxcControl
  pub remote_pxc : PxcControl

abbrev pub new_client : String → String → Client
new_client base_url token = record {
  base_url = base_url;
  static_token = token;
  cached_token = "";
  token_expiry = pos 0;
}

-- The username and the password go into a header only.
abbrev pub new_client_with_credentials : String → String × String → Client
new_client_with_credentials base_url credentials = record {
  base_url = base_url;
  static_token = "";
  cached_token = "";
  token_expiry = pos 0;
}

abbrev pub dsn_of : String × String → MySqlEndpointConfig → Message
dsn_of (user, pass) cfg =
    text user
    ∷ text ":"
    ∷ text pass
    ∷ text "@tcp("
    ∷ text cfg.host
    ∷ text ":"
    ∷ number cfg.port
    ∷ text ")/?parseTime=true&loc=Local"
    ∷ []

-- The configured time, or the default where it is zero.
abbrev pub duration_or : Duration → Duration → Duration
duration_or fallback d = if eqb_ℤ d (pos 0) then fallback else d

module _ (kube : KubeReads) where
  unfoldable pub build_mano_client : ManoConfig → Result Client
  unfolding read_secret_key read_secret
  build_mano_client cfg = elim cfg.credentials_secret_ref [
    | some ref ↦
        annotate (text "read MANO credentials" ∷ []) (read_secret kube ref) >>= λ credentials.
        ok (new_client_with_credentials cfg.host credentials)
    | none ↦ elim cfg.token_secret_ref [
      | some ref ↦
          annotate (text "read MANO token" ∷ []) (read_secret_key kube ref "token") >>= λ token.
          ok (new_client cfg.host token)
      | none ↦
          err (
            raised (text "MANO config requires either tokenSecretRef or credentialsSecretRef" ∷ []))
    ]
  ]

  ca_of : Option SecretRef → Result (Option String)
  unfolding read_secret_key
  ca_of none = ok none
  ca_of (some ref) =
      annotate (text "read remote k8s CA cert" ∷ []) (read_secret_key kube ref "ca.crt") >>= λ ca.
      ok (some ca)

  -- Without a CA the remote API's certificate is not verified.
  unfoldable pub build_remote_kube_client : RemoteKubeApiConfig → Result RestConfig
  unfolding read_secret_key ca_of
  build_remote_kube_client cfg = do
    token ←
        annotate (text "read remote k8s token" ∷ [])
          (read_secret_key kube cfg.token_secret_ref "token")
    ca ← ca_of cfg.ca_secret_ref
    annotate (text "add PXC scheme" ∷ []) kube.add_to_scheme
    annotate (text "create remote k8s client" ∷ []) kube.new_client
    ok (record { host = cfg.host; bearer_token = token; ca_data = ca })

  mano_controls : ManoConfig → Message → Message → Duration → Result (PxcControl × PxcControl)
  unfolding build_mano_client
  mano_controls cfg local_dsn remote_dsn timeout =
      let interval = duration_or (pos 5000000000) cfg.poll_interval in
      let limit = duration_or (pos 300000000000) cfg.poll_timeout in
      annotate (text "build MANO client" ∷ []) (build_mano_client cfg) >>= λ client. ok (
        by_mano
            (record {
              mano = client;
              cnf_name = cfg.local_cnf_name;
              vdu_name = cfg.local_vdu_name;
              poll_timeout = limit;
            })
            interval local_dsn timeout,
        by_mano
            (record {
              mano = client;
              cnf_name = cfg.remote_cnf_name;
              vdu_name = cfg.remote_vdu_name;
              poll_timeout = limit;
            })
            interval remote_dsn timeout,
      )

  remote_control :
      ClusterSwitchPolicy
      → Message
      → Duration
      → SqlManager
      → Option RemoteKubeApiConfig
      → Result PxcControl
  unfolding build_remote_kube_client
  remote_control policy dsn timeout sql none = ok (by_sql sql)
  remote_control policy dsn timeout sql (some cfg) =
      annotate (text "build remote k8s client" ∷ []) (build_remote_kube_client cfg) >>= λ rest. ok (
        by_sql (
          with_api dsn timeout (remote_cluster rest) cfg.pxc_namespace cfg.pxc_name
            policy.spec.replication_channel_name policy.spec.switchover.crd_apply_retries))

  controls :
      ClusterSwitchPolicy
      → Message
      → Message
      → Duration
      → SqlManager
      → SqlManager
      → Option ManoConfig
      → Result (PxcControl × PxcControl)
  unfolding mano_controls remote_control
  controls policy local_dsn remote_dsn timeout local_sql remote_sql (some cfg) =
      mano_controls cfg local_dsn remote_dsn timeout
  controls policy local_dsn remote_dsn timeout local_sql remote_sql none =
      remote_control policy remote_dsn timeout remote_sql policy.spec.remote_kube_api >>= λ r.
      ok (by_sql local_sql, r)

  unfoldable pub build_components : ClusterSwitchPolicy → Result ComponentSet
  unfolding read_secret resolve_proxysql_endpoints controls
  build_components policy = do
    let spec = policy.spec
    let timeout = spec.health_check.mysql_check_timeout
    local_credentials ←
        annotate (text "local MySQL credentials" ∷ [])
          (read_secret kube spec.local_mysql.credentials_secret_ref)
    let local_dsn = dsn_of local_credentials spec.local_mysql
    remote_credentials ←
        annotate (text "remote MySQL credentials" ∷ [])
          (read_secret kube spec.remote_mysql.credentials_secret_ref)
    let remote_dsn = dsn_of remote_credentials spec.remote_mysql
    eps ← resolve_proxysql_endpoints kube policy
    let local_sql =
        with_api local_dsn timeout own_cluster spec.pxc_namespace spec.pxc_name
          spec.replication_channel_name spec.switchover.crd_apply_retries
    let remote_sql = sql_only remote_dsn timeout
    pair ← controls policy local_dsn remote_dsn timeout local_sql remote_sql spec.mano
    ok (record {
      local_dsn = local_dsn;
      remote_dsn = remote_dsn;
      endpoints = eps;
      local_sql = local_sql;
      remote_sql = remote_sql;
      local_pxc = pair.0;
      remote_pxc = pair.1;
    })
