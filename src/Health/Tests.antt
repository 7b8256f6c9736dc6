-- ===== src/Health/Tests.antt =====
-- Snapshots of concrete answers.
use mysql_keeper.Prelude.{◌≡◌, ◌↔◌, refl, List, [], ◌∷◌, Option, none, some, true}
use mysql_keeper.Prelude.Int.{ℤ, pos, wrap, ◌+ℤ◌}
use mysql_keeper.Go.Error.{ok, done}
use mysql_keeper.Health.{
  writable_unknown, writable_no, writable_yes, MysqlAnswers, PxcAnswers, ProxyAnswers, check_mysql,
  check, proxysql_check,
}
use mysql_keeper.Health.Answered.{IsMysqlReady, IsProxyReady, AnswersWritable}
use mysql_keeper.Health.Laws.{IsCrdReady, check-healthy_iff, check-writable}

-- A server of three nodes that is read-only.
abbrev replica : MysqlAnswers
replica = record {
  opened = done;
  ping = done;
  cluster_size = ok "3";
  scan = λ s. ok (pos 3);
  cluster_status = ok "Primary";
  read_only = ok (pos 1);
}

abbrev answers : PxcAnswers
answers = record { crd = some (ok ("ready", pos 3)); mysql = replica }

-- The same server behind a resource that is initializing.
abbrev initializing : PxcAnswers
initializing = record { crd = some (ok ("initializing", pos 3)); mysql = replica }

abbrev proxy : ProxyAnswers
proxy = record { opened = done; ping = done; select_one = done }

abbrev proxies : Option (List ProxyAnswers × ℤ)
proxies = some (proxy ∷ [], pos 1)

replica-writable : (check (pos 0) answers proxies).writable ≡ writable_no
unfolding check proxysql_check wrap ◌+ℤ◌ check_mysql
replica-writable = refl

-- MySQL was not asked.
initializing-writable : (check (pos 0) initializing proxies).writable ≡ writable_unknown
unfolding check proxysql_check wrap ◌+ℤ◌
initializing-writable = refl

check-healthy_iff_example :
    ((check (pos 0) answers proxies).healthy ≡ true)
    ↔ (IsCrdReady answers.crd × IsMysqlReady replica × IsProxyReady proxies)
check-healthy_iff_example = check-healthy_iff (pos 0) answers proxies

check-writable_example :
    ((check (pos 0) initializing none).writable ≡ writable_yes)
    ↔ (IsCrdReady initializing.crd × AnswersWritable replica)
check-writable_example = (check-writable (pos 0) initializing none).0
