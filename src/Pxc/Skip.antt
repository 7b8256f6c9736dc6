-- ===== src/Pxc/Skip.antt =====
-- SkipNextTransaction of internal/pxc/replication.go: the statements that put an empty transaction in
-- the place of one that fails, on one connection, with the tests on what goes into their text. A
-- text is its bytes here. A statement is an event of a trace, with how it ended; the server answers
-- by all that went before.
pub mod Quoting
pub mod Session
pub mod Restored
mod Tests
use mysql_keeper.Prelude.{
  ℕ, String, List, [], ◌∷◌, ◌++◌, Bool, true, false, not, ◌&&◌, ◌||◌, if◌then◌else◌, leb, ltb, ◌==◌,
  length, is_empty,
}
use mysql_keeper.Go.Error.{
  Message, text, quoted, Error, printed, raised, wrapped, detailed, Outcome, ok, err, done,
}

abbrev pub Bytes : Type 0
Bytes = List ℕ

-- `c >= lo && c <= hi`
abbrev between : ℕ → ℕ → ℕ → Bool
between lo hi c = leb lo c && leb c hi

-- 0-9, a-f, A-F, ':' and '-'.
unfoldable pub valid_byte : ℕ → Bool
valid_byte c = between 48 57 c || between 97 102 c || between 65 70 c || (c == 58) || (c == 45)

unfoldable pub all_valid : Bytes → Bool
unfolding valid_byte
all_valid [] = true
all_valid (c ∷ cs) = if valid_byte c then all_valid cs else false

abbrev pub max_gtid_literal_length : ℕ
max_gtid_literal_length = 200

unfoldable pub valid_gtid_literal : Bytes → Bool
unfolding all_valid
valid_gtid_literal s =
    if is_empty s || ltb max_gtid_literal_length (length s) then false else all_valid s

-- A quote is 39, a backslash is 92; either is doubled.
unfoldable pub escaped : Bytes → Bytes
escaped [] = []
escaped (c ∷ cs) =
    let rest = escaped cs in
    if c == 39 then 39 ∷ 39 ∷ rest else if c == 92 then 92 ∷ 92 ∷ rest else c ∷ rest

unfoldable pub quote_channel : Bytes → Bytes
unfolding escaped
quote_channel name = 39 ∷ (escaped name ++ (39 ∷ []))

-- The statements; the first two and the last two are about the channel, in either spelling.
pub data Statement : Type 0 where
  stop_replica stop_slave start_replica start_slave : Bytes → Statement
  set_gtid_next : Bytes → Statement
  begin_transaction commit_transaction rollback_transaction reset_gtid_next : Statement

abbrev pub Trace : Type 0
Trace = List (Statement × Outcome)

-- The server, with the outcomes of openDB and of db.Conn.
pub record Server : Type 0 where
  pub open_db : Outcome
  pub conn : Outcome
  pub exec : Trace → Statement → Outcome

abbrev pub S : Type 0 → Type 0
S A = Trace → A × Trace

abbrev pure : {A : Type 0} → A → S A
pure a t = (a, t)

infixl 5 ◌>>=◌ ◌>>◌
abbrev pub ◌>>=◌ : {A B : Type 0} → S A → (A → S B) → S B
◌>>=◌ m f t = let (a, t') = m t in f a t'

abbrev pub ◌>>◌ : {A B : Type 0} → S A → S B → S B
m >> k = m >>= λ _. k

-- The embedded text of `SET gtid_next`, and the two names of one command.
abbrev both : Message → Error → Error → Error
both m e e2 = raised (m ++ (text ": " ∷ printed e) ++ (text " / " ∷ printed e2))

-- `text_of` is the string of the bytes.
module _ (text_of : Bytes → String) (server : Server) (channel gtid : Bytes) where
  abbrev pub exec : Statement → S Outcome
  exec s t = let o = server.exec t s in (o, (s, o) ∷ t)

  -- A command, and its older spelling where that fails.
  second_try : Message → Error → Outcome → S Outcome
  second_try m e (ok _) = pure done
  second_try m e (err e2) = pure (err (both m e e2))

  first_try : Statement → Message → Outcome → S Outcome
  unfolding second_try
  first_try fallback m (ok _) = pure done
  first_try fallback m (err e) = exec fallback >>= second_try m e

  stop : S Outcome
  unfolding first_try
  stop =
      exec (stop_replica (quote_channel channel))
      >>= first_try (stop_slave (quote_channel channel)) (text "STOP REPLICA/SLAVE SQL_THREAD" ∷ [])

  start : Message → S Outcome
  unfolding first_try
  start m =
      exec (start_replica (quote_channel channel))
      >>= first_try (start_slave (quote_channel channel)) m

  -- The cleanup, with what it adds to the error that it was called with.
  reset_noted : Error → Outcome → Error
  reset_noted orig (ok _) = orig
  reset_noted orig (err e) = detailed orig (text "; cleanup reset gtid_next failed: " ∷ printed e)

  fallback_noted : Error → Error → Outcome → S Outcome
  fallback_noted orig e (ok _) = pure (err orig)
  fallback_noted orig e (err e2) = pure (
      err (
        detailed orig
          (text "; cleanup START SQL_THREAD failed: " ∷ (printed e ++ (text " / " ∷ printed e2)))))

  start_noted : Error → Outcome → S Outcome
  unfolding fallback_noted
  start_noted orig (ok _) = pure (err orig)
  start_noted orig (err e) = exec (start_slave (quote_channel channel)) >>= fallback_noted orig e

  restore_applier : Error → S Outcome
  unfolding reset_noted start_noted
  restore_applier orig = do
    reset ← exec reset_gtid_next
    started ← exec (start_replica (quote_channel channel))
    start_noted (reset_noted orig reset) started

  reset_step : Outcome → S Outcome
  unfolding restore_applier start
  reset_step (err e) = restore_applier (wrapped (text "SET gtid_next AUTOMATIC" ∷ []) e)
  reset_step (ok _) = start (text "START REPLICA/SLAVE SQL_THREAD" ∷ [])

  commit_step : Outcome → S Outcome
  unfolding reset_step
  commit_step (err e) = do
    exec rollback_transaction
    restore_applier (wrapped (text "commit empty txn for gtid " ∷ text (text_of gtid) ∷ []) e)
  commit_step (ok _) = exec reset_gtid_next >>= reset_step

  begin_step : Outcome → S Outcome
  unfolding commit_step
  begin_step (err e) = restore_applier (wrapped (text "BEGIN" ∷ []) e)
  begin_step (ok _) = exec commit_transaction >>= commit_step

  set_step : Outcome → S Outcome
  unfolding begin_step
  set_step (err e) = restore_applier (wrapped (text "SET gtid_next" ∷ []) e)
  set_step (ok _) = exec begin_transaction >>= begin_step

  stop_step : Outcome → S Outcome
  unfolding set_step
  stop_step (err e) = pure (err e)
  stop_step (ok _) = exec (set_gtid_next gtid) >>= set_step

  run_skip : Outcome → S Outcome
  unfolding stop stop_step
  run_skip (err e) = pure (err (wrapped (text "acquire conn for skip" ∷ []) e))
  run_skip (ok _) = stop >>= stop_step

  opened : Outcome → S Outcome
  unfolding run_skip
  opened (err e) = pure (err e)
  opened (ok _) = run_skip server.conn

  unfoldable pub skip_next_transaction : S Outcome
  unfolding opened
  skip_next_transaction =
      if is_empty channel
      then pure (err (raised (text "channel name is empty" ∷ [])))
      else if is_empty gtid
      then pure (err (raised (text "gtid is empty" ∷ [])))
      else if not (valid_gtid_literal gtid)
      then pure (
          err (
            raised (
              text "gtid "
              ∷ quoted (text_of gtid)
              ∷ text " rejected: only [0-9a-fA-F:-] permitted"
              ∷ [])))
      else opened server.open_db
