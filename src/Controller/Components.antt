-- ===== src/Controller/Components.antt =====
-- buildComponents of clusterswitchpolicy_controller.go, and what it calls: the secrets, the ProxySQL
-- endpoints, and the managers that a switchover drives. The Kubernetes API answers a Get of a secret
-- and a List of pods; what the libraries construct from a configuration is left as that.
pub mod Secrets
pub mod Endpoints
pub mod Build
pub mod Usable
mod Tests
