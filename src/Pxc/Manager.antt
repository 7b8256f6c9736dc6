-- ===== src/Pxc/Manager.antt =====
-- internal/pxc/manager.go: opening and closing one cluster, by its Kubernetes resource or by SQL. A
-- call is an event of a trace, with what it answered; the environment answers by all that went
-- before.
pub mod Confirmed
pub mod Kept
pub mod Closed
pub mod Opened
mod Tests
use mysql_keeper.Prelude.{
  ℕ, zero, suc, String, List, [], ◌∷◌, Bool, true, false, not, ◌&&◌, Option, none, some,
  if◌then◌else◌, str_eq,
}
use mysql_keeper.Prelude.Int.{ℤ, pos, pos_part, ltb_ℤ, eqb_ℤ}
use mysql_keeper.Prelude.State.{State, pure, ◌>>=◌, ◌>>◌}
use mysql_keeper.Go.Error.{
  Message, text, quoted, flag, Error, raised, wrapped, Outcome, Result, ok, err, done, is_no_rows,
}

-- spec.replication.channels[i] of the PerconaXtraDBCluster.
pub record Channel : Type 0 where
  pub name : String
  pub is_source : Bool

-- The resource, as far as it is read: spec.replication, which may be nil.
abbrev pub Crd : Type 0
Crd = Option (List Channel)

pub record Manager : Type 0 where
  pub dsn : String
  pub has_client : Bool
  pub pxc_namespace : String
  pub pxc_name : String
  pub channel_name : String
  pub crd_apply_retries : ℤ

-- What is called for its outcome: the patch of the channels, the wait before a look, openDB, the
-- statements, and the two operations on the replica.
pub data Op : Type 0 where
  patch_crd : List Channel → Op
  wait open_db verify_probe : Op
  set_super_read_only set_read_only_flag : Bool → Op
  stop_replica reset_replica_all : Op

pub data Event : Type 0 where
  did : Op → Outcome → Event
  crd_read : Result Crd → Event
  wsrep_read : Result String → Event

abbrev pub Trace : Type 0
Trace = List Event

pub record Env : Type 0 where
  pub outcome : Trace → Op → Outcome
  pub read_crd : Trace → Result Crd
  pub read_wsrep : Trace → Result String

abbrev pub M : Type 0 → Type 0
M A = State Trace A

-- The first channel of the name gets the value; `none` where there is no such channel.
unfoldable pub with_source : String → Bool → List Channel → Option (List Channel)
with_source name value [] = none
with_source name value (c ∷ cs) =
    let rest = with_source name value cs in
    if str_eq c.name name
    then some (record c { is_source = value } ∷ cs)
    else elim rest [ none ↦ none | some ds ↦ some (c ∷ ds) ]

-- One look at the channels: whether the value was seen, else what was observed last.
unfoldable pub observe : String → Bool → List Channel → Bool → Option Bool
observe name wanted [] last = some last
observe name wanted (c ∷ cs) last =
    let skipped = observe name wanted cs last in
    let seen = observe name wanted cs c.is_source in
    if not (str_eq c.name name)
    then skipped
    else if (if c.is_source then wanted else not wanted)
    then none
    else seen

on_off : Bool → String
on_off true = "ON"
on_off false = "OFF"

module _ (env : Env) (m : Manager) where
  abbrev pub act : Op → M Outcome
  act op t = let o = env.outcome t op in (o, did op o ∷ t)

  abbrev pub get_crd : M (Result Crd)
  get_crd t = let r = env.read_crd t in (r, crd_read r ∷ t)

  abbrev pub get_wsrep : M (Result String)
  get_wsrep t = let r = env.read_wsrep t in (r, wsrep_read r ∷ t)

  observed : (Bool → M Outcome) → Option Bool → M Outcome
  observed again none = pure done
  observed again (some last) = again last

  look : (Bool → M Outcome) → Bool → Bool → Result Crd → M Outcome
  unfolding observed
  look again wanted last (err e) = again last
  look again wanted last (ok none) =
      pure (err (raised (text "spec.replication disappeared during verify" ∷ [])))
  look again wanted last (ok (some cs)) = observed again (observe m.channel_name wanted cs last)

  waited : (Bool → M Outcome) → Bool → Bool → Outcome → M Outcome
  unfolding look
  waited again wanted last (err e) = pure (err e)
  waited again wanted last (ok _) = get_crd >>= look again wanted last

  -- The looks after the patch, `n` of them left.
  verify : Bool → ℕ → Bool → M Outcome
  unfolding waited
  verify wanted zero last = pure (
      err (
        raised (
          text "CRD isSource did not stick after 5 verifications: wanted="
          ∷ flag wanted
          ∷ text " observed="
          ∷ flag last
          ∷ text " (operator may be reverting)"
          ∷ [])))
  verify wanted (suc n) last = act wait >>= waited (verify wanted n) wanted last

  patched : Bool → Outcome → M Outcome
  unfolding verify
  patched wanted (err e) = pure (err (wrapped (text "patch PerconaXtraDBCluster" ∷ []) e))
  patched wanted (ok _) = verify wanted 5 false

  to_patch : Bool → Option (List Channel) → M Outcome
  unfolding patched
  to_patch wanted none = pure (
      err (
        raised (
          text "replication channel "
          ∷ quoted m.channel_name
          ∷ text " not found in PerconaXtraDBCluster "
          ∷ text m.pxc_namespace
          ∷ text "/"
          ∷ text m.pxc_name
          ∷ [])))
  to_patch wanted (some cs) = act (patch_crd cs) >>= patched wanted

  got_crd : Bool → Result Crd → M Outcome
  unfolding to_patch
  got_crd wanted (err e) = pure (err (wrapped (text "get PerconaXtraDBCluster" ∷ []) e))
  got_crd wanted (ok none) = pure (
      err (
        raised (
          text "spec.replication is nil in PerconaXtraDBCluster "
          ∷ text m.pxc_namespace
          ∷ text "/"
          ∷ text m.pxc_name
          ∷ [])))
  got_crd wanted (ok (some cs)) = to_patch wanted (with_source m.channel_name wanted cs)

  patch_is_source : Bool → M Outcome
  unfolding got_crd
  patch_is_source wanted = get_crd >>= got_crd wanted

  -- The attempts by the resource, `n` of them left: whether one worked.
  attempted : M Bool → Outcome → M Bool
  attempted again (ok _) = pure true
  attempted again (err e) = again

  pub crd_first : Bool → ℕ → M Bool
  unfolding patch_is_source attempted
  crd_first wanted zero = pure false
  crd_first wanted (suc n) = patch_is_source wanted >>= attempted (crd_first wanted n)

  set_message : String → Bool → Message
  unfolding on_off
  set_message name on = text "SET GLOBAL " ∷ text name ∷ text "=" ∷ text (on_off on) ∷ []

  -- A statement that ends the function with its error, else the next one.
  then_do : Message → M Outcome → Outcome → M Outcome
  then_do message next (err e) = pure (err (wrapped message e))
  then_do message next (ok _) = next

  opened : M Outcome → Outcome → M Outcome
  opened next (err e) = pure (err e)
  opened next (ok _) = next

  -- The two statements, the second one with its error wrapped as well.
  set_flags : Bool → M Outcome → M Outcome
  unfolding then_do set_message
  set_flags on next =
      act (set_super_read_only on)
      >>= then_do (set_message "super_read_only" on)
          (act (set_read_only_flag on) >>= then_do (set_message "read_only" on) next)

  exec_read_only : Bool → M Outcome
  unfolding opened set_flags
  exec_read_only on = act open_db >>= opened (set_flags on (pure done))

  -- The last step by SQL: the resource follows as well as it can.
  pub crd_follows : Bool → M Outcome
  unfolding patch_is_source
  crd_follows wanted =
      if m.has_client && eqb_ℤ m.crd_apply_retries (pos 0)
      then patch_is_source wanted >> pure done
      else pure done

  closed : Outcome → M Outcome
  unfolding crd_follows
  closed (err e) = pure (err e)
  closed (ok _) = crd_follows false

  close_by_sql : Bool → M Outcome
  unfolding exec_read_only closed
  close_by_sql true = pure done
  close_by_sql false = exec_read_only true >>= closed

  abbrev has_crd_first : Bool
  has_crd_first = m.has_client && ltb_ℤ (pos 0) m.crd_apply_retries

  unfoldable pub set_read_only : M Outcome
  unfolding crd_first close_by_sql
  set_read_only =
      if has_crd_first
      then crd_first false (pos_part m.crd_apply_retries) >>= close_by_sql
      else close_by_sql false

  -- Inbound replication stops, as well as it can.
  pub stop_inbound : M Outcome
  stop_inbound =
      if str_eq m.channel_name ""
      then pure done
      else act stop_replica >> act reset_replica_all >> pure done

  verify_write : M Outcome
  unfolding opened then_do
  verify_write =
      act open_db
      >>= opened (act verify_probe >>= then_do (text "write probe failed" ∷ []) (pure done))

  verified : Outcome → M Outcome
  unfolding set_read_only stop_inbound crd_follows
  verified (err e) =
      set_read_only
      >> pure (err (wrapped (text "write verification failed after promotion" ∷ []) e))
  verified (ok _) = stop_inbound >> crd_follows true

  open_flags : M Outcome
  unfolding set_flags verify_write verified
  open_flags = set_flags false (verify_write >>= verified)

  -- A server without Galera has no such status, and passes.
  checked_wsrep : Result String → M Outcome
  unfolding open_flags
  checked_wsrep (err e) =
      if is_no_rows e
      then open_flags
      else pure (err (wrapped (text "query wsrep_cluster_status" ∷ []) e))
  checked_wsrep (ok status) =
      if not (str_eq status "Primary")
      then pure (
          err (
            raised (
              text "cannot promote: wsrep_cluster_status="
              ∷ quoted status
              ∷ text " (must be 'Primary')"
              ∷ [])))
      else open_flags

  open_by_sql : Bool → M Outcome
  unfolding checked_wsrep opened stop_inbound
  open_by_sql true = stop_inbound
  open_by_sql false = act open_db >>= opened (get_wsrep >>= checked_wsrep)

  unfoldable pub set_read_write : M Outcome
  unfolding crd_first open_by_sql
  set_read_write =
      if has_crd_first
      then crd_first true (pos_part m.crd_apply_retries) >>= open_by_sql
      else open_by_sql false
