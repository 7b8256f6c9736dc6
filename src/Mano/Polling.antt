-- ===== src/Mano/Polling.antt =====
-- The loop of pollLcmOpOcc ends, and how.
use mysql_keeper.Prelude.{
  ℕ, zero, suc, ◌+◌, ◌*◌, ◌<◌, ◌≡◌, ◌≢◌, inl, inr, sym, String, none, some, arith, Option-cases,
  eq_iff,
}
use mysql_keeper.Prelude.Int.{ℤ, pos, ◌+ℤ◌, ◌≤ℤ◌, ◌<ℤ◌, +ℤ_parts}
use mysql_keeper.Go.Time.{Time, Duration, add}
use mysql_keeper.Go.Error.{done, ok, err, Result}
use mysql_keeper.Mano.{
  Round, PollResponse, LcmOpOcc, Decoded, value, eof, invalid, judge, op_failed, response_step,
  decoded_step, wait_step, poll_round, poll_from, poll_lcm_op_occ,
}

-- Each look at the clock is one interval later than the one before it, or more.
abbrev pub Waits : (ℕ → Round) → Time → ℕ → Type 0
Waits rounds start interval = (n : ℕ) → (start +ℤ pos (n * interval)) ≤ℤ (rounds n).now

module _ (base_url id : String) (timeout : Duration) where
  late_ends :
      (deadline : Time) (r : Round)
      → deadline <ℤ r.now
      → poll_round base_url id timeout deadline r ≢ none
  unfolding poll_round
  late_ends deadline r late = ground arith

  at_round :
      (rounds : ℕ → Round) (deadline : Time) (n m : ℕ)
      → m ≡ n
      → deadline <ℤ (rounds m).now
      → deadline <ℤ (rounds n).now
  at_round rounds deadline n m same late = rw (sym same) late

  ends_from :
      (rounds : ℕ → Round) (deadline : Time) (fuel n m : ℕ)
      → m ≡ n + fuel
      → deadline <ℤ (rounds m).now
      → poll_from base_url id timeout rounds deadline (suc fuel) n ≢ none
  unfolding poll_from
  ends_from rounds deadline zero n m same late =
      ground
        (arith, late_ends deadline (rounds n) (at_round rounds deadline n m (omega arith) late))
  ends_from rounds deadline (suc fuel) n m same late =
      ground (arith, ends_from rounds deadline fuel (suc n) m (omega arith) late)

  -- Where each look at the clock comes at least one interval after the one before it, counted from
  -- the start of the poll, the loop ends: with fuel for one round more than the intervals that
  -- exceed the time allowed, it returns an outcome, whatever the API answers.
  pub poll-stops :
      (rounds : ℕ → Round) (start : Time) (interval fuel budget : ℕ)
      → timeout ≡ pos budget
      → Waits rounds start interval
      → budget < fuel * interval
      → poll_lcm_op_occ base_url id timeout (suc fuel) start rounds ≢ none
  unfolding poll_lcm_op_occ add
  poll-stops rounds start interval fuel budget same waits enough =
      ends_from rounds (start +ℤ timeout) fuel 0 fuel (omega arith) (
        ground
          (arith, waits fuel, +ℤ_parts start (pos (fuel * interval)), +ℤ_parts start (pos budget)))

-- A body that says COMPLETED.
abbrev pub SaysCompleted : Decoded → Type 0
SaysCompleted (value occ) = occ.operation_state ≡ "COMPLETED"
SaysCompleted _ = ⊥

abbrev pub ReportsCompleted : Result PollResponse → Type 0
ReportsCompleted (ok r) = SaysCompleted r.decoded
ReportsCompleted (err _) = ⊥

-- A round that is not after the deadline, and whose answer says COMPLETED.
abbrev pub IsCompleted : Time → Round → Type 0
IsCompleted deadline r = (r.now ≤ℤ deadline) × ReportsCompleted r.response

module _ (base_url id : String) (timeout : Duration) where
  judge-done :
      (occ : LcmOpOcc)
      → judge base_url id timeout occ ≡ some done
      → occ.operation_state ≡ "COMPLETED"
  unfolding judge op_failed
  judge-done occ h = ground (arith, eq_iff occ.operation_state "COMPLETED")

  decoded_step-done :
      (code : ℤ) (d : Decoded)
      → decoded_step base_url id timeout code d ≡ some done
      → SaysCompleted d
  unfolding decoded_step
  decoded_step-done code (value occ) h = judge-done occ h
  decoded_step-done code eof h = absurd (ground arith)
  decoded_step-done code (invalid e) h = absurd (ground arith)

  response_step-done :
      (r : Result PollResponse)
      → response_step base_url id timeout r ≡ some done
      → ReportsCompleted r
  unfolding response_step
  response_step-done (err e) h = absurd (ground arith)
  response_step-done (ok r) h = decoded_step-done r.status_code r.decoded h

  poll_round-done :
      (deadline : Time) (r : Round)
      → poll_round base_url id timeout deadline r ≡ some done
      → IsCompleted deadline r
  unfolding poll_round wait_step
  poll_round-done deadline r h = ground (arith, response_step-done r.response)

  poll_from-done :
      (rounds : ℕ → Round) (deadline : Time) (fuel n : ℕ)
      → poll_from base_url id timeout rounds deadline fuel n ≡ some done
      → (k : ℕ) × (k < n + fuel) × IsCompleted deadline (rounds k)
  unfolding poll_from
  poll_from-done rounds deadline zero n h = absurd (ground arith)
  poll_from-done rounds deadline (suc fuel) n h =
      elim (Option-cases (poll_round base_url id timeout deadline (rounds n))) [
        | inl e ↦
            let (k, below, completed) =
              poll_from-done rounds deadline fuel (suc n) (ground arith) in
            (k, omega arith, completed)
        | inr (o, e) ↦ (n, omega arith, poll_round-done deadline (rounds n) (ground arith))
      ]

  pub poll-IsCompleted :
      (rounds : ℕ → Round) (start : Time) (fuel : ℕ)
      → poll_lcm_op_occ base_url id timeout fuel start rounds ≡ some done
      → (k : ℕ) × (k < fuel) × IsCompleted (add start timeout) (rounds k)
  unfolding poll_lcm_op_occ
  poll-IsCompleted rounds start fuel h =
      let (k, below, completed) = poll_from-done rounds (add start timeout) fuel 0 h in
      (k, omega arith, completed)
