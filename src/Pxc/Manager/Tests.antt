-- ===== src/Pxc/Manager/Tests.antt =====
-- A manager with a client that keeps failing, and one without.
use mysql_keeper.Prelude.{◌≡◌, refl, [], ◌∷◌, true, false, some}
use mysql_keeper.Prelude.Int.{pos}
use mysql_keeper.Go.Error.{ok, err, done, foreign, no_rows}
use mysql_keeper.Pxc.Manager.{
  Env, Manager, Channel, set_read_only, set_read_write, crd_first, close_by_sql, open_by_sql,
  patch_is_source, got_crd, to_patch, patched, verify, waited, look, observed, observe, with_source,
  attempted, opened, set_flags, then_do, crd_follows, stop_inbound, verify_write, verified,
  open_flags, checked_wsrep,
}
use mysql_keeper.Pxc.Manager.Closed.{IsClosed, set_read_only-IsClosed}
use mysql_keeper.Pxc.Manager.Opened.{IsOpened, set_read_write-IsOpened}

abbrev manager : Manager
manager = record {
  dsn = "keeper@tcp(haproxy:3306)/";
  has_client = true;
  pxc_namespace = "db";
  pxc_name = "pxc";
  channel_name = "dr-to-dc";
  crd_apply_retries = pos 2;
}

-- The resource cannot be read, and the server has no Galera status.
abbrev env : Env
env = record {
  outcome = λ t op. done;
  read_crd = λ t. err (foreign "connection refused");
  read_wsrep = λ t. err no_rows;
}

-- The operator keeps the value that was patched.
abbrev demoted : Channel
demoted = record { name = "dr-to-dc"; is_source = false }

abbrev kept : Env
kept = record env { read_crd = λ t. ok (some (demoted ∷ [])) }

kept-closed : (set_read_only kept manager []).0 ≡ done
unfolding set_read_only crd_first close_by_sql patch_is_source got_crd to_patch patched verify
    waited look observed observe with_source attempted
kept-closed = refl

set_read_only-IsClosed_example : IsClosed manager (set_read_only kept manager []).1
set_read_only-IsClosed_example = set_read_only-IsClosed kept manager kept-closed

env-opened : (set_read_write env manager []).0 ≡ done
unfolding set_read_write crd_first open_by_sql patch_is_source got_crd attempted opened set_flags
    then_do crd_follows stop_inbound verify_write verified open_flags checked_wsrep
env-opened = refl

set_read_write-IsOpened_example : IsOpened manager (set_read_write env manager []).1
set_read_write-IsOpened_example = set_read_write-IsOpened env manager env-opened
