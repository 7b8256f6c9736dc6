-- ===== src/Controller/Components/Secrets.antt =====
-- readSecretKey and readSecret, and what the Kubernetes API answers.
use mysql_keeper.Prelude.{String, List, [], ◌∷◌, Option, none, some, if◌then◌else◌, str_eq}
use mysql_keeper.Go.Error.{Message, text, quoted, raised, Outcome, Result, ok, err, annotate, ◌>>=◌}
use mysql_keeper.Api.Spec.{SecretRef, ProxySqlSelectorConfig}

-- A condition of a pod, and the parts of a pod that are read.
pub record PodCondition : Type 0 where
  pub kind : String
  pub status : String

pub record Pod : Type 0 where
  pub phase : String
  pub pod_ip : String
  pub conditions : List PodCondition

-- The data of a secret by namespace and name, the pods of a selector, how fmt prints its labels, and how the client of the
-- remote cluster is set up: pxc.AddToScheme and client.New.
pub record KubeReads : Type 0 where
  pub get_secret : String → String → Result (List (String × String))
  pub print_labels : List (String × String) → String
  pub list_pods : ProxySqlSelectorConfig → Result (List Pod)
  pub add_to_scheme : Outcome
  pub new_client : Outcome

abbrev pub lookup : String → List (String × String) → Option String
lookup key [] = none
lookup key ((k, v) ∷ rest) = if str_eq k key then some v else lookup key rest

abbrev pub namespace_of : SecretRef → String
namespace_of ref = if str_eq ref.namespace "" then "mysql-keeper-system" else ref.namespace

abbrev secret_name : SecretRef → Message
secret_name ref = text (namespace_of ref) ∷ text "/" ∷ text ref.name ∷ []

module _ (kube : KubeReads) where
  secret_data : SecretRef → Result (List (String × String))
  secret_data ref =
      annotate (text "get Secret " ∷ secret_name ref) (kube.get_secret (namespace_of ref) ref.name)

  key_of : SecretRef → String → Option String → Result String
  key_of ref key (some v) = ok v
  key_of ref key none = err (
      raised (
        text "Secret "
        ∷ text (namespace_of ref)
        ∷ text "/"
        ∷ text ref.name
        ∷ text " missing "
        ∷ quoted key
        ∷ text " key"
        ∷ []))

  unfoldable pub read_secret_key : SecretRef → String → Result String
  unfolding secret_data key_of
  read_secret_key ref key = secret_data ref >>= λ data_of. key_of ref key (lookup key data_of)

  missing : SecretRef → String → Option String → Result String
  missing ref key (some v) = ok v
  missing ref key none = err (
      raised (
        text "Secret "
        ∷ text (namespace_of ref)
        ∷ text "/"
        ∷ text ref.name
        ∷ text " missing '"
        ∷ text key
        ∷ text "' key"
        ∷ []))

  -- The username and the password.
  unfoldable pub read_secret : SecretRef → Result (String × String)
  unfolding secret_data missing
  read_secret ref = do
    data_of ← secret_data ref
    u ← missing ref "username" (lookup "username" data_of)
    p ← missing ref "password" (lookup "password" data_of)
    ok (u, p)
