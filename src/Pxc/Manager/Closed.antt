-- ===== src/Pxc/Manager/Closed.antt =====
-- A cluster that was closed with no error has been so by its resource or by SQL.
use mysql_keeper.Prelude.{
  if◌then◌else◌, ◌≡◌, refl, ◌⊎◌, inl, inr, [], Bool, true, false, arith, ◌&&◌,
}
use mysql_keeper.Prelude.Int.{pos, pos_part, ltb_ℤ}
use mysql_keeper.Prelude.State.{◌>>=◌}
use mysql_keeper.Go.Error.{Outcome, ok, err, done}
use mysql_keeper.Pxc.Manager.{
  Manager, Trace, Env, did, exec_read_only, opened, set_flags, then_do, set_message, closed,
  close_by_sql, crd_first, set_read_only, set_super_read_only, set_read_only_flag,
}
use mysql_keeper.Pxc.Manager.Confirmed.{Has, IsConfirmed, crd_first-IsConfirmed}
use mysql_keeper.Pxc.Manager.Kept.{crd_follows-Extends}

-- Both statements worked.
abbrev pub AreFlagsSet : Bool → Trace → Type 0
AreFlagsSet on t =
    Has (did (set_super_read_only on) done) t × Has (did (set_read_only_flag on) done) t

-- The resource was seen with isSource false, or MySQL was set read-only.
abbrev pub IsClosed : Manager → Trace → Type 0
IsClosed m t = IsConfirmed m.channel_name false t ⊎ AreFlagsSet true t

module _ (env : Env) (m : Manager) where
  closed-IsClosed :
      (o : Outcome) (t : Trace)
      → (o ≡ done → AreFlagsSet true t)
      → (closed env m o t).0 ≡ done
      → IsClosed m (closed env m o t).1
  unfolding closed
  closed-IsClosed (err e) t set h = absurd (ground arith)
  closed-IsClosed (ok _) t set h = inr (
    crd_follows-Extends env m false _ t (set refl).0,
    crd_follows-Extends env m false _ t (set refl).1,
  )

  exec_read_only-AreFlagsSet :
      (t : Trace)
      → (exec_read_only env m true t).0 ≡ done
      → AreFlagsSet true (exec_read_only env m true t).1
  unfolding exec_read_only opened set_flags then_do set_message
  exec_read_only-AreFlagsSet t h = ground arith

  close_by_sql-IsClosed :
      (b : Bool) (t : Trace)
      → (b ≡ true → IsClosed m t)
      → (close_by_sql env m b t).0 ≡ done
      → IsClosed m (close_by_sql env m b t).1
  unfolding close_by_sql
  close_by_sql-IsClosed true t before h = before refl
  close_by_sql-IsClosed false t before h =
      let step = exec_read_only env m true t in
      closed-IsClosed step.0 step.1 (exec_read_only-AreFlagsSet t) h

  close-IsClosed :
      (b : Bool) (t : Trace)
      → let f =
          if b
          then crd_first env m false (pos_part m.crd_apply_retries) >>= close_by_sql env m
          else close_by_sql env m false in
        (f t).0 ≡ done → IsClosed m (f t).1
  close-IsClosed true t h =
      let n = pos_part m.crd_apply_retries in
      let step = crd_first env m false n t in
      close_by_sql-IsClosed step.0 step.1 (λ p. inl (crd_first-IsConfirmed env m false n t p)) h
  close-IsClosed false t h = close_by_sql-IsClosed false t (λ p. absurd (ground arith)) h

  -- If a call that closes a cluster succeeds, then either a read of its resource has shown the
  -- channel with isSource false, or both statements that set MySQL read-only have worked, whatever
  -- else failed and however often the resource was tried.
  pub set_read_only-IsClosed :
      (set_read_only env m []).0 ≡ done → IsClosed m (set_read_only env m []).1
  unfolding set_read_only
  set_read_only-IsClosed h = close-IsClosed (m.has_client && ltb_ℤ (pos 0) m.crd_apply_retries) [] h
