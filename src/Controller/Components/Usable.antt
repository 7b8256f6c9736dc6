-- ===== src/Controller/Components/Usable.antt =====
-- Which pods a selector gives as endpoints.
use mysql_keeper.Prelude.{◌≡◌, ◌≢◌, ◌⊎◌, String, List, [], ◌∷◌, map}
use mysql_keeper.Go.Error.{ok}
use mysql_keeper.Api.Spec.{ProxySqlSelectorConfig}
use mysql_keeper.Controller.Components.Secrets.{KubeReads, Pod, PodCondition}
use mysql_keeper.Controller.Components.Endpoints.{Endpoint}

abbrev pub hosts : List Endpoint → List String
hosts eps = map (λ e. e.host) eps

-- The first condition Ready of a pod is True.
abbrev pub IsReady : List PodCondition → Type 0
IsReady [] = ⊥
IsReady (c ∷ cs) = ((c.kind ≡ "Ready") × (c.status ≡ "True")) ⊎ ((c.kind ≢ "Ready") × IsReady cs)

-- A pod that is in the phase Running, has an address, and is ready.
abbrev pub IsServing : Pod → Type 0
IsServing p = (p.phase ≡ "Running") × (p.pod_ip ≢ "") × IsReady p.conditions

-- The addresses of the serving pods, in their order, and no other ones.
abbrev pub AreServing : List Pod → List String → Type 0
AreServing [] ips = ips ≡ []
AreServing (p ∷ pods) ips =
    (IsServing p × (rest : List String) × (ips ≡ p.pod_ip ∷ rest) × AreServing pods rest)
    ⊎ (¬ (IsServing p) × AreServing pods ips)

-- The pods that were listed, and the endpoints that they give.
abbrev pub IsUsable : KubeReads → ProxySqlSelectorConfig → List Endpoint → Type 0
IsUsable kube cfg eps =
    (pods : List Pod) × (kube.list_pods cfg ≡ ok pods) × AreServing pods (hosts eps)
