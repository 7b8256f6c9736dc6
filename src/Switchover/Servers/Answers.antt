-- ===== src/Switchover/Servers/Answers.antt =====
-- What an answer of internal/pxc/gtid.go shows of the server that was asked.
use mysql_keeper.Prelude.{
  String, ◌≡◌, ◌⊎◌, inl, inr, refl, [], ◌∷◌, ap, ◌∙◌, Option, none, some, arith, str_eq, eq_iff,
  Bool-cases,
}
use mysql_keeper.Prelude.Int.{ℤ, pos}
use mysql_keeper.Go.Time.{Duration}
use mysql_keeper.Go.Error.{
  Message, text, Outcome, Result, ok, annotate, ◌>>=◌, ◌>>◌, chain-ok, annotate-ok,
}
use mysql_keeper.Pxc.Gtid.{GtidSnapshot}
use mysql_keeper.Pxc.Db.{Db, open_db, gtid_executed}
use mysql_keeper.Pxc.Inspector.{
  missing_gtids, missing_answer, wait_for_gtid, wait_answer, wait_budget, at_least_one,
  get_gtid_snapshot,
}

-- A connection, and one answer that is read.
opened_answer :
    {A B : Type 0} (o : Outcome) (m : Message) (r : Result A) (f : A → Result B) (b : B)
    → (o >> (annotate m r >>= f)) ≡ ok b
    → (a : A) × (r ≡ ok a) × (f a ≡ ok b)
opened_answer o m r f b h =
    let (_, _, rest) = chain-ok o (λ _. annotate m r >>= f) h in
    let (a, read, answered) = chain-ok (annotate m r) f rest in (a, annotate-ok m r read, answered)

empty_answer : (r : Option String) → ok (missing_answer r) ≡ ok "" → (r ≡ none) ⊎ (r ≡ some "")
unfolding missing_answer
empty_answer none h = inl refl
empty_answer (some s) h = inr (ground arith)

zero_answer : (budget : Duration) (r : Option ℤ) → wait_answer budget r ≡ ok tt → r ≡ some (pos 0)
unfolding wait_answer
zero_answer budget none h = cc
zero_answer budget (some n) h = ground arith

module _ (db : Db) (dsn : String) where
  -- That nothing is missing is said by an empty answer, or for a set that is empty.
  pub missing_gtids-none :
      (g : String)
      → missing_gtids db dsn g ≡ ok ""
      → (g ≡ "") ⊎ (db.gtid_subtract g ≡ ok none) ⊎ (db.gtid_subtract g ≡ ok (some ""))
  unfolding missing_gtids
  missing_gtids-none g h = elim (Bool-cases (str_eq g "")) [
    | inl empty ↦ inl ((eq_iff g "").0 empty)
    | inr more ↦
        let (r, asked, answered) =
          opened_answer (open_db db dsn) (text "GTID_SUBTRACT" ∷ []) (db.gtid_subtract g)
            (λ r. ok (missing_answer r)) "" (simp (more) at h) in
        inr (elim (empty_answer r answered) [ inl null ↦ inl (cc) | inr nothing ↦ inr (cc) ])
  ]

  pub wait_for_gtid-ended :
      (seconds_of : Duration → ℤ) (g : String) (budget : Duration)
      → wait_for_gtid db dsn seconds_of g budget ≡ ok tt
      → (g ≡ "") ⊎ ((n : ℤ) × (db.wait_for_executed_gtid_set g n ≡ ok (some (pos 0))))
  unfolding wait_for_gtid
  wait_for_gtid-ended seconds_of g budget h = elim (Bool-cases (str_eq g "")) [
    | inl empty ↦ inl ((eq_iff g "").0 empty)
    | inr more ↦
        let n = at_least_one (seconds_of (wait_budget budget)) in
        let (r, asked, answered) =
          opened_answer (open_db db dsn) (text "WAIT_FOR_EXECUTED_GTID_SET" ∷ [])
            (db.wait_for_executed_gtid_set g n) (wait_answer (wait_budget budget)) tt
            (simp (more) at h) in
        inr (n, asked ∙ ap ok (zero_answer (wait_budget budget) r answered))
  ]

  pub get_gtid_snapshot-executed :
      (l : GtidSnapshot)
      → get_gtid_snapshot db dsn ≡ ok l
      → db.text_variable gtid_executed ≡ ok l.executed
  unfolding get_gtid_snapshot open_db
  get_gtid_snapshot-executed l h = ground arith
