-- ===== src/Pxc/Channel/Reported.antt =====
-- What GetReplicationLagSeconds and DetectWorkerErrors return.
use mysql_keeper.Prelude.{
  String, ◌≡◌, ◌≢◌, ◌⊎◌, inl, inr, refl, List, [], ◌∷◌, Option, none, some, false, map, arith,
  str_eq, eq_iff, Bool-cases,
}
use mysql_keeper.Prelude.Int.{ℤ, pos, negsuc, ◌≤ℤ◌}
use mysql_keeper.Go.Time.{Time}
use mysql_keeper.Go.Error.{
  Message, text, Result, ok, err, done, ◌>>=◌, annotate, chain-ok, annotate-ok,
}
use mysql_keeper.Pxc.Replication.{WorkerError}
use mysql_keeper.Pxc.Db.{Db, Rows, WorkerRow, open_db, eq_no_rows}
use mysql_keeper.Pxc.Channel.{
  named, retried, scanned, lag_error, get_replication_lag_seconds, worker_error, worker_errors,
  of_coordinator, string_of, detected, detect_worker_errors, of_workers,
}

-- A lag that is scanned is 0 or more, or -1 where there is none.
abbrev IsLag : Result ℤ → Type 0
IsLag r = (n : ℤ) × (r ≡ ok n) × (negsuc 0 ≤ℤ n)

lag_of : (lag : Option ℤ) → IsLag (lag_error lag done)
unfolding lag_error
lag_of none = (negsuc 0, refl, omega arith)
lag_of (some (pos n)) = (pos n, ground arith, omega arith)
lag_of (some (negsuc n)) = (pos 0, ground arith, omega arith)

again-IsLag : (r : Result (Option ℤ)) → IsLag (lag_error (scanned none r).0 (scanned none r).1)
unfolding lag_error
again-IsLag (ok n) = lag_of n
again-IsLag (err e) = (negsuc 0, refl, omega arith)

retried-IsLag :
    (first second : Result (Option ℤ))
    → IsLag (let (lag, o) = retried second (scanned none first) in lag_error lag o)
unfolding retried lag_error
retried-IsLag (ok n) second = lag_of n
retried-IsLag (err e) second = elim (Bool-cases (eq_no_rows e)) [
  | inl none_left ↦ simp (none_left) (negsuc 0, refl, omega arith)
  | inr other ↦ simp (other) (again-IsLag second)
]

not_empty : (s : String) → s ≢ "" → str_eq s "" ≡ false
not_empty s h = elim (Bool-cases (str_eq s "")) [
  | inl same ↦ absurd (h ((eq_iff s "").0 same))
  | inr other ↦ other
]

named-ok :
    {A : Type 0} (channel : String) {r : Result A} {a : A} → named channel r ≡ ok a → r ≡ ok a
unfolding named
named-ok channel h = ground arith

by_ok : {a b : List WorkerError} → ◌≡◌ {A = Result (List WorkerError)} (ok a) (ok b) → b ≡ a
by_ok h = cc

first_row :
    (now : Time) (channel : String) (r w : WorkerRow) (rest : List WorkerError)
    (rows : List WorkerRow) (ws : List WorkerError)
    → ◌≡◌ {A = Result WorkerRow} (ok r) (ok w)
    → ◌≡◌ {A = Result (List WorkerError)} (ok (worker_error now channel w ∷ rest)) (ok ws)
    → rest ≡ map (worker_error now channel) rows
    → ws ≡ map (worker_error now channel) (r ∷ rows)
first_row now channel r w rest rows ws same all shown = cc

-- Rows that are scanned without an error.
worker_errors-all :
    (now : Time) (channel : String) (rs : List (Result WorkerRow)) (ws : List WorkerError)
    → worker_errors now channel rs ≡ ok ws
    → (rows : List WorkerRow) × (rs ≡ map (λ r. ok r) rows)
      × (ws ≡ map (worker_error now channel) rows)
unfolding worker_errors
worker_errors-all now channel [] ws h = ([], refl, cc)
worker_errors-all now channel (err e ∷ rs) ws h = cc
worker_errors-all now channel (ok r ∷ rs) ws h =
    let (w, read, h1) =
      chain-ok (annotate (text "scan worker row" ∷ []) (ok r))
        (λ w. worker_errors now channel rs >>= λ rest. ok (worker_error now channel w ∷ rest)) h in
    let (rest, others, h2) =
      chain-ok (worker_errors now channel rs) (λ rest. ok (worker_error now channel w ∷ rest)) h1 in
    let (rows, scanned_rows, shown) = worker_errors-all now channel rs rest others in
    (r ∷ rows, rw scanned_rows refl, first_row now channel r w rest rows ws read h2 shown)

-- An entry shows the row of a worker; a timestamp that is NULL is the time of the look.
abbrev pub IsRow : Time → String → WorkerRow → WorkerError → Type 0
IsRow now channel r w =
    (w.channel ≡ channel)
    × (w.worker_id ≡ r.worker_id)
    × (w.errno ≡ r.last_error_number)
    × (w.message ≡ r.last_error_message)
    × (w.failed_gtid ≡ r.applying_transaction)
    × ((w.timestamp ≡ r.last_error_timestamp)
        ⊎ ((r.last_error_timestamp ≡ none) × (w.timestamp ≡ some now)))

-- The entries show the rows, one each and in their order.
abbrev pub AreRows : Time → String → List WorkerRow → List WorkerError → Type 0
AreRows now channel [] ws = ws ≡ []
AreRows now channel (r ∷ rows) ws =
    (w : WorkerError) × (rest : List WorkerError) × (ws ≡ w ∷ rest)
    × IsRow now channel r w
    × AreRows now channel rows rest

-- An entry shows the error of the coordinator, which names no worker and no transaction.
abbrev pub IsCoordinator : Time → String → ℤ → Option String → WorkerError → Type 0
IsCoordinator now channel errno message w =
    (w.channel ≡ channel)
    × (w.worker_id ≡ pos 0)
    × (w.errno ≡ errno)
    × (w.failed_gtid ≡ "")
    × (w.timestamp ≡ some now)
    × ((message ≡ some w.message) ⊎ ((message ≡ none) × (w.message ≡ "")))

-- The error of the coordinator, where there is one; that it cannot be read is none.
abbrev pub IsOfCoordinator : Time → String → Result (ℤ × Option String) → List WorkerError → Type 0
IsOfCoordinator now channel (err e) ws = ws ≡ []
IsOfCoordinator now channel (ok (errno, message)) ws =
    (w : WorkerError) × (ws ≡ w ∷ []) × IsCoordinator now channel errno message w

worker_error-IsRow :
    (now : Time) (channel : String) (r : WorkerRow)
    → IsRow now channel r (worker_error now channel r)
unfolding worker_error
worker_error-IsRow now channel r =
    (refl, refl, refl, refl, refl, stamped now r.last_error_timestamp)
  where
    stamped :
        (now : Time) (t : Option Time)
        → let shown : Option Time = some (elim t [ none ↦ now | some u ↦ u ]) in
          (shown ≡ t) ⊎ ((t ≡ none) × (shown ≡ some now))
    stamped now none = inr (refl, refl)
    stamped now (some u) = inl refl

map-AreRows :
    (now : Time) (channel : String) (rows : List WorkerRow)
    → AreRows now channel rows (map (worker_error now channel) rows)
map-AreRows now channel [] = refl
map-AreRows now channel (r ∷ rows) = (
  worker_error now channel r,
  _,
  refl,
  worker_error-IsRow now channel r,
  map-AreRows now channel rows,
)

shown_message : (m : Option String) → (m ≡ some (string_of m)) ⊎ ((m ≡ none) × (string_of m ≡ ""))
shown_message none = inr (refl, refl)
shown_message (some s) = inl refl

of_coordinator-IsOfCoordinator :
    (now : Time) (channel : String) (r : Result (ℤ × Option String))
    → IsOfCoordinator now channel r (of_coordinator now channel r)
unfolding of_coordinator
of_coordinator-IsOfCoordinator now channel (err e) = refl
of_coordinator-IsOfCoordinator now channel (ok (errno, message)) =
    (_, refl, (refl, refl, refl, refl, refl, shown_message message))

module _ (db : Db) (dsn channel : String) where
  pub lag-never_fails :
      channel ≢ ""
      → open_db db dsn ≡ done
      → (n : ℤ) × (get_replication_lag_seconds db dsn channel ≡ ok n) × (negsuc 0 ≤ℤ n)
  unfolding get_replication_lag_seconds named
  lag-never_fails name opened =
      let unnamed : str_eq channel "" ≡ false = not_empty channel name in
      rw (unnamed, named)
        (rw opened (retried-IsLag (db.lag_of_applied channel) (db.lag_of_queued channel)))

  -- The rows of the workers, all of them and in their order; or, where there is none, the error of
  -- the coordinator.
  abbrev pub AreReported : Time → List WorkerError → Type 0
  AreReported now ws =
      (answer : Rows WorkerRow) × (rows : List WorkerRow) × (db.status_by_worker channel
        ≡ ok answer)
      × (answer.rows ≡ map (λ r. ok r) rows)
      × (answer.final ≡ done)
      × (((rows ≢ []) × AreRows now channel rows ws)
          ⊎ ((rows ≡ []) × IsOfCoordinator now channel (db.coordinator_error channel) ws))

  fallback :
      (now : Time) (rows : List WorkerRow) (out ws : List WorkerError)
      → out ≡ map (worker_error now channel) rows
      → ◌≡◌ {A = Result (List WorkerError)} (ok (detected db dsn channel now out)) (ok ws)
      → ((rows ≢ []) × AreRows now channel rows ws)
        ⊎ ((rows ≡ []) × IsOfCoordinator now channel (db.coordinator_error channel) ws)
  unfolding detected
  fallback now [] out ws same h = inr (
    refl,
    rw (by_ok (rw (same, detected) at h))
        (of_coordinator-IsOfCoordinator now channel (db.coordinator_error channel)),
  )
  fallback now (r ∷ rows) out ws same h =
      inl (λ e. cc, rw (by_ok (rw (same, detected) at h)) (map-AreRows now channel (r ∷ rows)))

  abbrev m : Message
  m = text "read replication_applier_status_by_worker" ∷ []

  -- What DetectWorkerErrors returns without an error shows the rows of the workers, all of them and
  -- in their order, where each was scanned and the iteration ended well; or, where there is no such
  -- row, it is one entry with the error of the coordinator, or nothing if that cannot be read.
  pub detect_worker_errors-AreReported :
      (now : Time) (ws : List WorkerError)
      → detect_worker_errors db dsn channel now ≡ ok ws
      → AreReported now ws
  unfolding detect_worker_errors of_workers
  detect_worker_errors-AreReported now ws h =
      let (_, _, h1) =
        chain-ok (open_db db dsn)
          (λ _. annotate m (db.status_by_worker channel) >>= of_workers db dsn channel now)
          (named-ok channel h) in
      let (answer, read, h2) =
        chain-ok (annotate m (db.status_by_worker channel)) (of_workers db dsn channel now) h1 in
      let (out, scanned_out, h3) =
        chain-ok (worker_errors now channel answer.rows)
          (λ out. annotate (text "iterate worker rows" ∷ []) answer.final >>= λ _.
            ok (detected db dsn channel now out))
          h2 in
      let (_, ended, h4) =
        chain-ok (annotate (text "iterate worker rows" ∷ []) answer.final)
          (λ _. ok (detected db dsn channel now out)) h3 in
      let (rows, all, shown) = worker_errors-all now channel answer.rows out scanned_out in
      (
        answer,
        rows,
        annotate-ok m (db.status_by_worker channel) read,
        all,
        annotate-ok (text "iterate worker rows" ∷ []) answer.final ended,
        fallback now rows out ws shown h4,
      )
