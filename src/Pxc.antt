-- ===== src/Pxc.antt =====
-- internal/pxc: the operations on one MySQL cluster.
pub mod Gtid
pub mod GtidSet
pub mod Replication
pub mod Manager
pub mod Skip
pub mod Db
pub mod Inspector
pub mod Channel
pub mod Crd
