-- ===== src/ProxySql.antt =====
-- internal/proxysql/manager.go: the routing of the ProxySQL instances. `Table` is mysql_servers, as
-- the statements of the manager change it, and `Manager` the manager's operations.
pub mod Table
pub mod Manager
mod Tests
