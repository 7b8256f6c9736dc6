-- ===== src/Api.antt =====
-- api/v1alpha1/clusterswitchpolicy_types.go: the ClusterSwitchPolicy resource. Fields keep their
-- order and names; int32 and int64 are integers, times and durations nanoseconds, a pointer is an
-- Option, and a string that the resource's schema restricts to an enumeration is a data type.
pub mod Spec
pub mod Status
use mysql_keeper.Prelude.{String, List, Option}
use mysql_keeper.Go.Time.{Time}
use Spec.{ClusterSwitchPolicySpec}
use Status.{ClusterSwitchPolicyStatus}

-- The parts of the object's metadata that the controller reads. An annotation that is absent
-- reads as "".
pub record ObjectMeta : Type 0 where
  pub namespace : String
  pub name : String
  pub uid : String
  pub clear_quarantine : String  -- annotations["mysql.keeper.io/clear-quarantine"]
  pub recover_degraded : String  -- annotations["mysql.keeper.io/recover-degraded"]
  pub finalizers : List String
  pub deletion_timestamp : Option Time

pub record ClusterSwitchPolicy : Type 0 where
  pub metadata : ObjectMeta
  pub spec : ClusterSwitchPolicySpec
  pub status : ClusterSwitchPolicyStatus
