-- ===== src/Controller/Components/Tests.antt =====
-- A selector that finds one ready pod and one that is not.
use mysql_keeper.Prelude.{[], ◌∷◌}
use mysql_keeper.Prelude.Int.{pos}
use mysql_keeper.Go.Error.{ok, done}
use mysql_keeper.Api.Spec.{ProxySqlSelectorConfig}
use mysql_keeper.Controller.Samples.{secret}
use mysql_keeper.Controller.Components.Secrets.{KubeReads, Pod}
use mysql_keeper.Controller.Components.Endpoints.{Endpoint}

abbrev ready : Pod
ready = record {
  phase = "Running";
  pod_ip = "10.0.0.1";
  conditions = record { kind = "Ready"; status = "True" } ∷ [];
}

abbrev unready : Pod
unready = record ready { conditions = [] }

abbrev kube : KubeReads
kube = record {
  get_secret = λ ns n. ok (("username", "admin") ∷ ("password", "x") ∷ []);
  print_labels = λ l. "map[app:proxysql]";
  list_pods = λ cfg. ok (unready ∷ ready ∷ []);
  add_to_scheme = done;
  new_client = done;
}

abbrev selector : ProxySqlSelectorConfig
selector = record {
  namespace = "db";
  match_labels = ("app", "proxysql") ∷ [];
  admin_port = pos 0;
  credentials_secret_ref = secret;
}

abbrev only : Endpoint
only = record { host = "10.0.0.1"; port = pos 6032; username = "admin"; password = "x" }
