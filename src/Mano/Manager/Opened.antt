-- ===== src/Mano/Manager/Opened.antt =====
-- What a call of SetReadWrite that succeeded shows.
use mysql_keeper.Prelude.{ℕ, ◌<◌, ◌≡◌, ◌≢◌, refl, String, true, Option, none, some, arith, eq_iff}
use mysql_keeper.Prelude.Int.{ℤ, pos}
use mysql_keeper.Go.Time.{Duration, add}
use mysql_keeper.Go.Error.{done, ok, err, Result, Outcome, ◌>>=◌}
use mysql_keeper.Mano.{ensure_token}
use mysql_keeper.Mano.Polling.{IsCompleted, poll-IsCompleted}
use mysql_keeper.Mano.Manager.{
  PxcManager, SourceAnswers, UpdateRequest, UpdateResponse, request_of, accepted, submit,
  poll_submitted, with_token, set_is_source, set_read_write, probed, verify_write,
}

-- The answer accepts the request, and names the operation.
abbrev pub Accepts : Result UpdateResponse → Type 0
Accepts (err _) = ⊥
Accepts (ok r) = (r.status_code ≡ pos 202) × (r.lcm_op_occ_id ≢ "")

-- The API took a request for this function and unit with the flag, and reported the operation as
-- completed in time.
abbrev pub IsApplied : ℕ → PxcManager → String → SourceAnswers → Type 0
IsApplied fuel m flag a =
    ((req : UpdateRequest) × (req.is_source ≡ flag)
      × (req.cnf_name ≡ m.cnf_name)
      × (req.vdu_name ≡ m.vdu_name)
      × Accepts (a.update req))
    × ((k : ℕ) × (k < fuel) × IsCompleted (add a.started m.poll_timeout) (a.rounds k))

accepted-Accepts : (r : Result UpdateResponse) (id : String) → (r >>= accepted) ≡ ok id → Accepts r
unfolding accepted
accepted-Accepts (err e) id h = ground arith
accepted-Accepts (ok r) id h = ground (arith, eq_iff r.lcm_op_occ_id "")

module _ (whole_seconds : Duration → ℤ) (fuel : ℕ) (m : PxcManager) (a : SourceAnswers) where
  submit-Accepts :
      (id : String)
      → submit whole_seconds m true a ≡ ok id
      → (req : UpdateRequest) × (req.is_source ≡ "true")
        × (req.cnf_name ≡ m.cnf_name)
        × (req.vdu_name ≡ m.vdu_name)
        × Accepts (a.update req)
  unfolding submit request_of
  submit-Accepts id h = (
    request_of whole_seconds m true,
    refl,
    refl,
    refl,
    ground (arith, accepted-Accepts (a.update (request_of whole_seconds m true)) id),
  )

  poll_submitted-IsApplied :
      (r : Result String)
      → submit whole_seconds m true a ≡ r
      → poll_submitted whole_seconds fuel m a r ≡ some done
      → IsApplied fuel m "true" a
  unfolding poll_submitted
  poll_submitted-IsApplied (err e) same h = absurd (ground arith)
  poll_submitted-IsApplied (ok id) same h = (
    submit-Accepts id same,
    poll-IsCompleted m.mano.base_url id m.poll_timeout a.rounds a.started fuel h,
  )

  with_token-IsApplied :
      (token : Result String)
      → with_token whole_seconds fuel m true a token ≡ some done
      → IsApplied fuel m "true" a
  unfolding with_token
  with_token-IsApplied (err e) h = absurd (ground arith)
  with_token-IsApplied (ok token) h =
      poll_submitted-IsApplied (submit whole_seconds m true a) refl h

  probed-done :
      (schema probe : Outcome) (o : Option Outcome)
      → probed whole_seconds schema probe o ≡ some done
      → (o ≡ some done) × (schema ≡ done) × (probe ≡ done)
  unfolding probed verify_write
  probed-done schema probe none h = absurd (ground arith)
  probed-done schema probe (some (err e)) h = absurd (ground arith)
  probed-done schema probe (some (ok t)) h = ground arith

  -- If a call that opens a cluster through the MANO API succeeds, then the API accepted a request
  -- for the manager's function and unit whose isSource is 'true', and named an operation, a poll
  -- that was not after the deadline reported the operation as COMPLETED, and both the schema of the
  -- keeper and the write probe succeeded.
  pub set_read_write-IsApplied :
      (schema probe : Outcome)
      → (set_read_write whole_seconds fuel m a schema probe).0 ≡ some done
      → IsApplied fuel m "true" a × (schema ≡ done) × (probe ≡ done)
  unfolding set_read_write set_is_source
  set_read_write-IsApplied schema probe h =
      let token = (ensure_token m.mano a.login).0 in
      let (applied, schema_made, probe_made) =
        probed-done schema probe (with_token whole_seconds fuel m true a token) h in
      (with_token-IsApplied token applied, schema_made, probe_made)
