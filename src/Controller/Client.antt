-- ===== src/Controller/Client.antt =====
-- What the reconciler does to the world, in order: the patches that it sends to the Kubernetes API,
-- its calls of the two databases, and the switchover that it runs. A patch is made of the object as
-- it was and as it is to be (client.MergeFrom); the API answers with an object, which the client
-- decodes into the policy in hand, or with an error. The environment answers by all that went before.
use mysql_keeper.Prelude.{String, List, [], ◌∷◌, Bool, true, false, ◌≡◌}
use mysql_keeper.Go.Time.{Duration}
use mysql_keeper.Go.Error.{Outcome, Result, ok, err, done}
use mysql_keeper.Api.{ClusterSwitchPolicy}
use mysql_keeper.Api.Status.{Condition}
use mysql_keeper.Switchover.Effects.{Side}
use mysql_keeper.Switchover.Engine.Phases.{Config}

-- r.Patch and r.Status().Patch.
pub data Target : Type 0 where
  object status : Target

pub data Action : Type 0 where
  patch : Target → ClusterSwitchPolicy → ClusterSwitchPolicy → Action
  ensure_keeper_schema ensure_leader_lease_schema : Side → Action
  acquire_or_renew_lease : String → Duration → Action
  execute_switchover : Config → Action

abbrev pub Log : Type 0
Log = List (Action × Outcome)

pub record Kube : Type 0 where
  pub answer_patch :
      Log → Target → ClusterSwitchPolicy → ClusterSwitchPolicy → Result ClusterSwitchPolicy
  pub outcome : Log → Action → Outcome
  -- controllerutil.ContainsFinalizer, AddFinalizer and RemoveFinalizer, on the list of finalizers,
  -- and meta.SetStatusCondition
  pub contains_finalizer : List String → String → Bool
  pub add_finalizer : List String → String → List String
  pub remove_finalizer : List String → String → List String
  pub set_status_condition : List Condition → Condition → List Condition

-- The state of the reconciler: its log, and the keys of schemaEnsured.
pub record World : Type 0 where
  pub log : Log
  pub schema_ensured : List String

abbrev pub R : Type 0 → Type 0
R A = World → A × World

abbrev pub pure : {A : Type 0} → A → R A
pure a w = (a, w)

infixl 5 ◌>>=◌ ◌>>◌
abbrev pub ◌>>=◌ : {A B : Type 0} → R A → (A → R B) → R B
◌>>=◌ m f w = let (a, w') = m w in f a w'

abbrev pub ◌>>◌ : {A B : Type 0} → R A → R B → R B
m >> k = m >>= λ _. k

abbrev pub ending : Result ClusterSwitchPolicy → Outcome
ending (ok p) = done
ending (err e) = err e

abbrev pub note : Action → Outcome → World → World
note a o w = record w { log = (a, o) ∷ w.log }

module _ (kube : Kube) where
  abbrev pub send :
      Target → ClusterSwitchPolicy → ClusterSwitchPolicy → R (Result ClusterSwitchPolicy)
  send t base desired w =
      let r = kube.answer_patch w.log t base desired in
      (r, note (patch t base desired) (ending r) w)

  abbrev pub act : Action → R Outcome
  act a w = let o = kube.outcome w.log a in (o, note a o w)

-- The policy in hand after a patch: what the API answered, or what was sent.
abbrev pub in_hand : ClusterSwitchPolicy → Result ClusterSwitchPolicy → ClusterSwitchPolicy
in_hand sent (ok p) = p
in_hand sent (err e) = sent

-- ctrl.Result: the zero value, Requeue: true, and RequeueAfter.
pub data Requeue : Type 0 where
  no_requeue requeue : Requeue
  requeue_after : Duration → Requeue

-- Every action of the log has the property, which may look at all that went before it.
abbrev pub Always : (Action → Outcome → Log → Type 0) → Log → Type 0
Always P [] = Unit
Always P ((a, o) ∷ l) = P a o l × Always P l

abbrev pub is_run : Action → Bool
is_run (execute_switchover _) = true
is_run _ = false

-- No switchover is run.
abbrev pub NoRun : Log → Type 0
NoRun = Always λ a o l. is_run a ≡ false

-- An action that runs none before it, and none after it.
abbrev pub Keeps : {A : Type 0} → R A → Type 0
Keeps m = (w : World) → NoRun w.log → NoRun (m w).1.log
