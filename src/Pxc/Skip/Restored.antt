-- ===== src/Pxc/Skip/Restored.antt =====
-- What a skip leaves of the connection and of the applier, on every path.
use mysql_keeper.Prelude.{
  ◌≡◌, ◌∙◌, ◌≢◌, ◌⊎◌, inl, inr, String, [], ◌∷◌, arith, refl, Bool-cases, is_empty,
}
use mysql_keeper.Go.Error.{Message, text, wrapped, raised, Error, Outcome, ok, err, done}
use mysql_keeper.Pxc.Skip.Session.{automatic, assigned, running, session}
use mysql_keeper.Pxc.Skip.{
  valid_gtid_literal, ◌>>=◌, Bytes, Trace, Server, stop_replica, stop_slave, start_replica,
  start_slave, set_gtid_next, begin_transaction, commit_transaction, rollback_transaction,
  reset_gtid_next, quote_channel, skip_next_transaction, opened, run_skip, stop, stop_step,
  set_step, begin_step, commit_step, reset_step, restore_applier, reset_noted, start_noted,
  fallback_noted, start, first_try, second_try,
}

abbrev pub IsRestored : Trace → Type 0
IsRestored t = ((session t).gtid_next ≡ automatic) × ((session t).applier ≡ running)

-- The call succeeded exactly if it has committed the one empty transaction.
abbrev pub IsAnswered : Bytes → Outcome → Trace → Type 0
IsAnswered gtid r t =
    ((r ≡ done) × ((session t).skipped ≡ gtid ∷ [])) ⊎ ((r ≢ done) × ((session t).skipped ≡ []))

-- The applier runs, gtid_next is automatic, and the answer is right.
abbrev pub IsSkipped : Bytes → Outcome × Trace → Type 0
IsSkipped gtid end = IsRestored end.1 × IsAnswered gtid end.0 end.1

module _ (text_of : Bytes → String) (server : Server) (channel gtid : Bytes) where
  -- The cleanup commands work: the reset, and the start in one of its spellings.
  abbrev pub CanRestore : Type 0
  CanRestore =
      (t : Trace)
      → (server.exec t reset_gtid_next ≡ done)
        × ((server.exec t (start_replica (quote_channel channel)) ≡ done)
            ⊎ ((e : Error)
                → server.exec ((start_replica (quote_channel channel), err e) ∷ t)
                    (start_slave (quote_channel channel))
                  ≡ done))

  module _ (can : CanRestore) where
    slave_works :
        (e : Error) (t : Trace)
        → server.exec t (start_replica (quote_channel channel)) ≡ err e
        → server.exec
            ((start_replica (quote_channel channel), err e) ∷ t)
            (start_slave (quote_channel channel))
          ≡ done
    slave_works e t same = elim (can t).1 [
      | inl works ↦ absurd (ground arith)
      | inr works ↦ works e
    ]

    first_try-running :
        (m : Message) (o : Outcome) (t : Trace)
        → server.exec t (start_replica (quote_channel channel)) ≡ o
        → (session
            (first_try text_of server channel gtid
              (start_slave (quote_channel channel))
              m
              o
              ((start_replica (quote_channel channel), o) ∷ t)).1).applier
          ≡ running
    unfolding first_try second_try
    first_try-running m (ok _) t same = refl
    first_try-running m (err e) t same = simp (slave_works e t same) refl

    start_noted-running :
        (orig : Error) (o : Outcome) (t : Trace)
        → server.exec t (start_replica (quote_channel channel)) ≡ o
        → (session
            (start_noted text_of server channel gtid orig o
              ((start_replica (quote_channel channel), o) ∷ t)).1).applier
          ≡ running
    unfolding start_noted fallback_noted
    start_noted-running orig (ok _) t same = refl
    start_noted-running orig (err e) t same = simp (slave_works e t same) refl

    first_try-works :
        (m : Message) (o : Outcome) (t : Trace)
        → server.exec t (start_replica (quote_channel channel)) ≡ o
        → let end =
            first_try text_of server channel gtid
              (start_slave (quote_channel channel))
              m
              o
              ((start_replica (quote_channel channel), o) ∷ t) in
          (end.0 ≡ done) × ((session end.1).skipped ≡ (session t).skipped)
    unfolding first_try second_try
    first_try-works m (ok _) t same = (refl, refl)
    first_try-works m (err e) t same = simp (slave_works e t same) (refl, refl)

    -- Starting the applier leaves gtid_next as it was.
    first_try-gtid_next :
        (m : Message) (o : Outcome) (t : Trace)
        → (session
            (first_try text_of server channel gtid
              (start_slave (quote_channel channel))
              m
              o
              t).1).gtid_next
          ≡ (session t).gtid_next
    unfolding first_try second_try
    first_try-gtid_next m o t = ground arith

    start_noted-gtid_next :
        (orig : Error) (o : Outcome) (t : Trace)
        → (session (start_noted text_of server channel gtid orig o t).1).gtid_next
          ≡ (session t).gtid_next
    unfolding start_noted fallback_noted
    start_noted-gtid_next orig o t = ground arith

    restore_applier-IsRestored :
        (orig : Error) (t : Trace)
        → IsRestored (restore_applier text_of server channel gtid orig t).1
    unfolding restore_applier
    restore_applier-IsRestored orig t =
        let reset = server.exec t reset_gtid_next in
        let t1 = (reset_gtid_next, reset) ∷ t in
        let started = server.exec t1 (start_replica (quote_channel channel)) in
        (
          ground (
            arith,
            can t,
            start_noted-gtid_next (reset_noted text_of server channel gtid orig reset) started
                ((start_replica (quote_channel channel), started) ∷ t1),
          ),
          start_noted-running (reset_noted text_of server channel gtid orig reset) started t1 refl,
        )

    start_noted-fails :
        (orig : Error) (o : Outcome) (t : Trace)
        → ((start_noted text_of server channel gtid orig o t).0 ≢ done)
          × ((session (start_noted text_of server channel gtid orig o t).1).skipped
              ≡ (session t).skipped)
    unfolding start_noted fallback_noted
    start_noted-fails orig o t = ground arith

    restore_applier-IsSkipped :
        (orig : Error) (t : Trace)
        → (session t).skipped ≡ []
        → IsSkipped gtid (restore_applier text_of server channel gtid orig t)
    unfolding restore_applier
    restore_applier-IsSkipped orig t none_skipped =
        let reset = server.exec t reset_gtid_next in
        let t1 = (reset_gtid_next, reset) ∷ t in
        let started = server.exec t1 (start_replica (quote_channel channel)) in
        let fails =
          start_noted-fails (reset_noted text_of server channel gtid orig reset) started
            ((start_replica (quote_channel channel), started) ∷ t1) in
        (restore_applier-IsRestored orig t, inr (fails.0, ground (arith, fails.1)))

    reset_step-IsSkipped :
        (o : Outcome) (t : Trace)
        → server.exec t reset_gtid_next ≡ o
        → (session t).skipped ≡ gtid ∷ []
        → IsSkipped gtid (reset_step text_of server channel gtid o ((reset_gtid_next, o) ∷ t))
    unfolding reset_step start
    reset_step-IsSkipped (err e) t same committed = absurd (ground (arith, can t))
    reset_step-IsSkipped (ok _) t same committed =
        let t1 = (reset_gtid_next, done) ∷ t in
        let started = server.exec t1 (start_replica (quote_channel channel)) in
        let m = text "START REPLICA/SLAVE SQL_THREAD" ∷ [] in
        let works = first_try-works m started t1 refl in
        (
          (
            first_try-gtid_next m started ((start_replica (quote_channel channel), started) ∷ t1)
                ∙ ground arith,
            first_try-running m started t1 refl,
          ),
          inl (works.0, ground (arith, works.1)),
        )

    rolled_back :
        (o : Outcome) (t : Trace)
        → (session ((rollback_transaction, o) ∷ t)).skipped ≡ (session t).skipped
    rolled_back o t = ground arith

    commit_step-IsSkipped :
        (o : Outcome) (t : Trace)
        → (session t).gtid_next ≡ assigned gtid
        → (session t).skipped ≡ []
        → IsSkipped gtid (commit_step text_of server channel gtid o ((commit_transaction, o) ∷ t))
    unfolding commit_step
    commit_step-IsSkipped (err e) t here none_skipped =
        let t1 = (commit_transaction, err e) ∷ t in
        let undone = server.exec t1 rollback_transaction in
        restore_applier-IsSkipped
          (wrapped (text "commit empty txn for gtid " ∷ text (text_of gtid) ∷ []) e)
          ((rollback_transaction, undone) ∷ t1) (rolled_back undone t1 ∙ none_skipped)
    commit_step-IsSkipped (ok _) t here none_skipped =
        let t1 = (commit_transaction, done) ∷ t in
        reset_step-IsSkipped (server.exec t1 reset_gtid_next) t1 refl (ground arith)

    begin_step-IsSkipped :
        (o : Outcome) (t : Trace)
        → (session t).gtid_next ≡ assigned gtid
        → (session t).skipped ≡ []
        → IsSkipped gtid (begin_step text_of server channel gtid o ((begin_transaction, o) ∷ t))
    unfolding begin_step
    begin_step-IsSkipped (err e) t here none_skipped =
        restore_applier-IsSkipped (wrapped (text "BEGIN" ∷ []) e) ((begin_transaction, err e) ∷ t)
          none_skipped
    begin_step-IsSkipped (ok _) t here none_skipped =
        let t1 = (begin_transaction, done) ∷ t in
        commit_step-IsSkipped (server.exec t1 commit_transaction) t1 here none_skipped

    set_step-IsSkipped :
        (o : Outcome) (t : Trace)
        → (session t).skipped ≡ []
        → IsSkipped gtid (set_step text_of server channel gtid o ((set_gtid_next gtid, o) ∷ t))
    unfolding set_step
    set_step-IsSkipped (err e) t none_skipped =
        restore_applier-IsSkipped (wrapped (text "SET gtid_next" ∷ []) e)
          ((set_gtid_next gtid, err e) ∷ t) none_skipped
    set_step-IsSkipped (ok _) t none_skipped =
        let t1 = (set_gtid_next gtid, done) ∷ t in
        begin_step-IsSkipped (server.exec t1 begin_transaction) t1 refl none_skipped

    abbrev unstopped : Message
    unstopped = text "STOP REPLICA/SLAVE SQL_THREAD" ∷ []

    -- After the applier was stopped in its second spelling, or in neither.
    second_try-IsSkipped :
        (e : Error) (o : Outcome)
        → IsSkipped gtid (
            (second_try text_of server channel gtid unstopped e o
                >>= stop_step text_of server channel gtid)
              ((stop_slave (quote_channel channel), o)
                ∷ (stop_replica (quote_channel channel), err e)
                ∷ []))
    unfolding second_try stop_step
    second_try-IsSkipped e (err e2) = ((refl, refl), inr (ground arith, refl))
    second_try-IsSkipped e (ok _) =
        let t =
          (stop_slave (quote_channel channel), done)
          ∷ (stop_replica (quote_channel channel), err e)
          ∷ [] in
        set_step-IsSkipped (server.exec t (set_gtid_next gtid)) t refl

    first_try-IsSkipped :
        (o : Outcome)
        → IsSkipped gtid (
            (first_try text_of server channel gtid (stop_slave (quote_channel channel)) unstopped o
                >>= stop_step text_of server channel gtid)
              ((stop_replica (quote_channel channel), o) ∷ []))
    unfolding first_try stop_step
    first_try-IsSkipped (err e) = second_try-IsSkipped e (
        server.exec ((stop_replica (quote_channel channel), err e) ∷ [])
          (stop_slave (quote_channel channel)))
    first_try-IsSkipped (ok _) =
        let t = (stop_replica (quote_channel channel), done) ∷ [] in
        set_step-IsSkipped (server.exec t (set_gtid_next gtid)) t refl

    run_skip-IsSkipped : (o : Outcome) → IsSkipped gtid (run_skip text_of server channel gtid o [])
    unfolding run_skip stop
    run_skip-IsSkipped (err e) = ((refl, refl), inr (ground arith, refl))
    run_skip-IsSkipped (ok _) =
        first_try-IsSkipped (server.exec [] (stop_replica (quote_channel channel)))

    opened-IsSkipped : (o : Outcome) → IsSkipped gtid (opened text_of server channel gtid o [])
    unfolding opened
    opened-IsSkipped (err e) = ((refl, refl), inr (ground arith, refl))
    opened-IsSkipped (ok _) = run_skip-IsSkipped server.conn

    refused-IsSkipped : (m : Message) → IsSkipped gtid (err (raised m), [])
    refused-IsSkipped m = ((refl, refl), inr (ground arith, refl))

    -- If the reset of gtid_next works, and the start of the applier does in one of its two
    -- spellings, then a skip that starts with the applier running leaves gtid_next automatic and
    -- the applier running, whichever of the other statements fail; and it returns no error exactly
    -- if it has committed one empty transaction with the given GTID, and otherwise has committed
    -- none. A statement that fails is taken not to have changed anything.
    pub skip-IsSkipped : IsSkipped gtid (skip_next_transaction text_of server channel gtid [])
    unfolding skip_next_transaction
    skip-IsSkipped = elim (Bool-cases (is_empty channel)) [
      | inl e ↦ simp (e) (refused-IsSkipped _)
      | inr e ↦ elim (Bool-cases (is_empty gtid)) [
        | inl f ↦ simp (e, f) (refused-IsSkipped _)
        | inr f ↦ elim (Bool-cases (valid_gtid_literal gtid)) [
          | inl g ↦ simp (e, f, g) (opened-IsSkipped server.open_db)
          | inr g ↦ simp (e, f, g) (refused-IsSkipped _)
        ]
      ]
    ]
