-- ===== src/Pxc/Manager/Opened.antt =====
-- A cluster that was opened with no error has been so by its resource or by SQL.
use mysql_keeper.Prelude.{
  if◌then◌else◌, ◌≡◌, refl, ◌⊎◌, inl, inr, String, [], ◌∷◌, Bool, true, false, arith, Bool-cases,
  ◌&&◌, str_eq, eq_iff,
}
use mysql_keeper.Prelude.Int.{pos, pos_part, ltb_ℤ}
use mysql_keeper.Prelude.State.{◌>>=◌}
use mysql_keeper.Go.Error.{Message, Outcome, Result, ok, err, done, is_no_rows, Error}
use mysql_keeper.Pxc.Manager.{
  Manager, Event, Trace, Env, M, did, wsrep_read, act, crd_follows, opened, set_flags, then_do,
  set_message, crd_first, stop_inbound, verify_write, verified, open_flags, checked_wsrep,
  open_by_sql, set_read_write, get_wsrep, open_db, set_super_read_only, set_read_only_flag,
  verify_probe,
}
use mysql_keeper.Pxc.Manager.Confirmed.{Has, IsConfirmed, crd_first-IsConfirmed}
use mysql_keeper.Pxc.Manager.Kept.{Extends, crd_follows-Extends, stop_inbound-Extends}
use mysql_keeper.Pxc.Manager.Closed.{AreFlagsSet}

-- The server is in a primary component, or has no Galera status.
abbrev pub IsPrimary : Trace → Type 0
IsPrimary t =
    Has (wsrep_read (ok "Primary")) t
    ⊎ ((e : Error) × (is_no_rows e ≡ true) × Has (wsrep_read (err e)) t)

-- The resource was seen with isSource true; or a primary server was set writable, and took a write.
abbrev pub IsOpened : Manager → Trace → Type 0
IsOpened m t =
    IsConfirmed m.channel_name true t
    ⊎ (IsPrimary t × AreFlagsSet false t × Has (did verify_probe done) t)

primary_named : (status : String) → str_eq status "Primary" ≡ true → status ≡ "Primary"
primary_named status p = ground (arith, eq_iff status "Primary")

later-IsPrimary : (e : Event) (t : Trace) → IsPrimary t → IsPrimary (e ∷ t)
later-IsPrimary e t (inl seen) = inl (inr seen)
later-IsPrimary e t (inr (x, p, seen)) = inr (x, p, inr seen)

module _ (env : Env) (m : Manager) where
  IsPrimary-kept :
      {A : Type 0} (f : M A) (t : Trace) → Extends env m f → IsPrimary t → IsPrimary (f t).1
  IsPrimary-kept f t ext (inl seen) = inl (ext _ t seen)
  IsPrimary-kept f t ext (inr (e, p, seen)) = inr (e, p, ext _ t seen)

  -- What holds before a step that loses nothing holds after it.
  IsOpened-kept :
      {A : Type 0} (f : M A) (t : Trace) → Extends env m f → IsOpened m t → IsOpened m (f t).1
  IsOpened-kept f t ext (inl (cs, seen, shows)) = inl (cs, ext _ t seen, shows)
  IsOpened-kept f t ext (inr (primary, (super, flag), probe)) =
      inr (IsPrimary-kept f t ext primary, (ext _ t super, ext _ t flag), ext _ t probe)

  verified-IsOpened :
      (o : Outcome) (t : Trace)
      → (o ≡ done → IsOpened m t)
      → (verified env m o t).0 ≡ done
      → IsOpened m (verified env m o t).1
  unfolding verified
  verified-IsOpened (err e) t before h = absurd (ground arith)
  verified-IsOpened (ok _) t before h =
      IsOpened-kept (crd_follows env m true) (stop_inbound env m t).1
        (crd_follows-Extends env m true)
        (IsOpened-kept (stop_inbound env m) t (stop_inbound-Extends env m) (before refl))

  verify_write-Extends : Extends env m (verify_write env m)
  unfolding verify_write opened then_do
  verify_write-Extends e t h = ground (arith, h)

  verify_write-probe :
      (t : Trace)
      → (verify_write env m t).0 ≡ done
      → Has (did verify_probe done) (verify_write env m t).1
  unfolding verify_write opened then_do
  verify_write-probe t h = ground arith

  probe_step :
      (t : Trace)
      → IsPrimary t
      → AreFlagsSet false t
      → ((verify_write env m >>= verified env m) t).0 ≡ done
      → IsOpened m ((verify_write env m >>= verified env m) t).1
  probe_step t primary (super, flag) h =
      let step = verify_write env m t in
      verified-IsOpened step.0 step.1
        (λ p. inr (
          IsPrimary-kept (verify_write env m) t verify_write-Extends primary,
          (verify_write-Extends _ t super, verify_write-Extends _ t flag),
          verify_write-probe t p,
        ))
        h

  flag_step :
      (message : Message) (o : Outcome) (t : Trace)
      → IsPrimary t
      → Has (did (set_super_read_only false) done) t
      → let f = then_do env m message (verify_write env m >>= verified env m) o in
        (f (did (set_read_only_flag false) o ∷ t)).0 ≡ done
        → IsOpened m (f (did (set_read_only_flag false) o ∷ t)).1
  unfolding then_do
  flag_step message (err e) t primary super h = absurd (ground arith)
  flag_step message (ok _) t primary super h =
      probe_step (did (set_read_only_flag false) done ∷ t)
        (later-IsPrimary (did (set_read_only_flag false) done) t primary) (inr super, inl refl) h

  super_step :
      (message second : Message) (o : Outcome) (t : Trace)
      → IsPrimary t
      → let f =
          then_do env m message
            (act env m (set_read_only_flag false)
              >>= then_do env m second (verify_write env m >>= verified env m))
            o in
        (f (did (set_super_read_only false) o ∷ t)).0 ≡ done
        → IsOpened m (f (did (set_super_read_only false) o ∷ t)).1
  unfolding then_do
  super_step message second (err e) t primary h = absurd (ground arith)
  super_step message second (ok _) t primary h =
      let t1 = did (set_super_read_only false) done ∷ t in
      flag_step second (env.outcome t1 (set_read_only_flag false)) t1
        (later-IsPrimary (did (set_super_read_only false) done) t primary) (inl refl) h

  open_flags-IsOpened :
      (t : Trace) → IsPrimary t → (open_flags env m t).0 ≡ done → IsOpened m (open_flags env m t).1
  unfolding open_flags set_flags
  open_flags-IsOpened t primary h =
      super_step (set_message env m "super_read_only" false) (set_message env m "read_only" false)
        (env.outcome t (set_super_read_only false)) t primary h

  checked_wsrep-IsOpened :
      (r : Result String) (t : Trace)
      → Has (wsrep_read r) t
      → (checked_wsrep env m r t).0 ≡ done
      → IsOpened m (checked_wsrep env m r t).1
  unfolding checked_wsrep
  checked_wsrep-IsOpened (err e) t seen h = elim (Bool-cases (is_no_rows e)) [
    | inl p ↦ simp (p) (open_flags-IsOpened t (inr (e, p, seen)) (ground (arith, h)))
    | inr p ↦ absurd (ground (arith, h))
  ]
  checked_wsrep-IsOpened (ok status) t seen h = elim (Bool-cases (str_eq status "Primary")) [
    | inl p ↦
        simp (p)
          (open_flags-IsOpened t (inl (rw (primary_named status p) at seen)) (ground (arith, h)))
    | inr p ↦ absurd (ground (arith, h))
  ]

  opened-IsOpened :
      (o : Outcome) (t : Trace)
      → let f = opened env m (get_wsrep env m >>= checked_wsrep env m) o in
        (f t).0 ≡ done → IsOpened m (f t).1
  unfolding opened
  opened-IsOpened (err e) t h = absurd (ground arith)
  opened-IsOpened (ok _) t h =
      checked_wsrep-IsOpened (env.read_wsrep t) (wsrep_read (env.read_wsrep t) ∷ t) (inl refl) h

  open_by_sql-IsOpened :
      (b : Bool) (t : Trace)
      → (b ≡ true → IsOpened m t)
      → (open_by_sql env m b t).0 ≡ done
      → IsOpened m (open_by_sql env m b t).1
  unfolding open_by_sql
  open_by_sql-IsOpened true t before h =
      IsOpened-kept (stop_inbound env m) t (stop_inbound-Extends env m) (before refl)
  open_by_sql-IsOpened false t before h =
      let o = env.outcome t open_db in opened-IsOpened o (did open_db o ∷ t) h

  open-IsOpened :
      (b : Bool) (t : Trace)
      → let f =
          if b
          then crd_first env m true (pos_part m.crd_apply_retries) >>= open_by_sql env m
          else open_by_sql env m false in
        (f t).0 ≡ done → IsOpened m (f t).1
  open-IsOpened true t h =
      let step = crd_first env m true (pos_part m.crd_apply_retries) t in
      open_by_sql-IsOpened step.0 step.1
        (λ p. inl (crd_first-IsConfirmed env m true (pos_part m.crd_apply_retries) t p)) h
  open-IsOpened false t h = open_by_sql-IsOpened false t (λ p. absurd (ground arith)) h

  -- If a call that opens a cluster succeeds, then either a read of its resource has shown the
  -- channel with isSource true, or the server said that it is in a primary component or has no
  -- Galera status, both statements that set MySQL writable have worked, and so has the write probe.
  pub set_read_write-IsOpened :
      (set_read_write env m []).0 ≡ done → IsOpened m (set_read_write env m []).1
  unfolding set_read_write
  set_read_write-IsOpened h = open-IsOpened (m.has_client && ltb_ℤ (pos 0) m.crd_apply_retries) [] h
