-- ===== src/Controller/Progress/Checkpoints.antt =====
-- What the checkpoints of a run show.
use mysql_keeper.Prelude.{
  String, ◌≡◌, ◌≢◌, refl, ap, ◌∙◌, List, [], ◌∷◌, ◌++◌, Option, none, some, arith, eq_iff,
  append-nil, append_assoc,
}
use mysql_keeper.Go.Error.{Message, done, printed}
use mysql_keeper.Api.{ClusterSwitchPolicy}
use mysql_keeper.Api.Status.{SwitchoverProgress}
use mysql_keeper.Switchover.Effects.{Phase, Call, on_phase_start, on_phase_complete, on_phase_error}
use mysql_keeper.Controller.Attempt.{phase_text}
use mysql_keeper.Controller.Progress.{
  with_completed, ProgressReporter, Write, report_call, report, report_all, write_progress,
  progress_in, checkpoint,
}

abbrev pub completed_of : Call → List String
completed_of (on_phase_complete phase) = phase_text phase ∷ []
completed_of _ = []

-- The phases that the calls complete, in order.
abbrev pub completed_by : List Write → List String
completed_by [] = []
completed_by (w ∷ ws) = completed_of w.call ++ completed_by ws

-- The phase that a call of the reporter is about.
abbrev pub phase_of : Call → Option Phase
phase_of (on_phase_start phase) = some phase
phase_of (on_phase_complete phase) = some phase
phase_of (on_phase_error phase _) = some phase
phase_of _ = none

-- Whatever the API answers, the reporter goes on, and knows the phases that are complete.
report_call-reporter :
    (c : Call) (w : Write) (r : ProgressReporter) (p : ClusterSwitchPolicy)
    → (report_call c w r p).0 ≡ record r { completed = r.completed ++ completed_of c }
unfolding report_call
report_call-reporter c w r p = ground (arith, append-nil r.completed)

-- The progress of the policy is of this attempt, at this phase, with these phases complete.
abbrev pub IsAt : String → Phase → List String → ClusterSwitchPolicy → Type 0
IsAt attempt phase completed p =
    (prog : SwitchoverProgress) × (p.status.switchover_progress ≡ some prog)
    × (prog.attempt_id ≡ attempt)
    × (prog.current_phase ≡ phase_text phase)
    × (prog.completed_phases ≡ completed)

progress_in-attempt :
    (r : ProgressReporter) (w : Write) (prog : Option SwitchoverProgress)
    → (progress_in r w.now prog).attempt_id ≡ r.attempt_id
progress_in-attempt r w none = refl
progress_in-attempt r w (some prog) = ground (arith, eq_iff prog.attempt_id r.attempt_id)

abbrev IsWritten : Write → Type 0
IsWritten w = (w.get ≡ done) × (w.patch ≡ done)

write_progress-IsAt :
    (r : ProgressReporter) (w : Write) (phase : Phase) (failed : String) (message : Message)
    (completed : List String) (p : ClusterSwitchPolicy) (q : Phase)
    → some q ≡ some phase
    → IsWritten w
    → IsAt r.attempt_id phase completed
        (write_progress r w (phase_text q) failed message completed p)
unfolding write_progress
write_progress-IsAt r w phase failed message completed p q same (read, sent) =
    let prog = progress_in r w.now p.status.switchover_progress in
    (
      checkpoint (phase_text q) failed message completed prog,
      ground arith,
      ground (arith, progress_in-attempt r w p.status.switchover_progress),
      ground arith,
      ground arith,
    )

report_call-IsAt :
    (c : Call) (w : Write) (phase : Phase) (r : ProgressReporter) (p : ClusterSwitchPolicy)
    → phase_of c ≡ some phase
    → IsWritten w
    → IsAt r.attempt_id phase (r.completed ++ completed_of c) (report_call c w r p).1
unfolding report_call
report_call-IsAt (on_phase_start q) w phase r p h k =
    rw (append-nil r.completed) (write_progress-IsAt r w phase "" [] r.completed p q h k)
report_call-IsAt (on_phase_complete q) w phase r p h k =
    write_progress-IsAt (with_completed r q) w phase "" [] (r.completed ++ (phase_text q ∷ [])) p q
      h k
report_call-IsAt (on_phase_error q e) w phase r p h k =
    rw (append-nil r.completed)
      (write_progress-IsAt r w phase (phase_text q) (printed e) r.completed p q h k)
report_call-IsAt _ w phase r p h k = absurd (ground arith)

moved :
    (phase : Phase) (p : ClusterSwitchPolicy) {a a' : String} {done_phases phases : List String}
    → IsAt a phase done_phases p
    → a ≡ a'
    → done_phases ≡ phases
    → IsAt a' phase phases p
moved phase p (prog, here, attempt, current, phases) e f =
    (prog, here, attempt ∙ e, current, phases ∙ f)

-- Whatever became of the checkpoints before it, a checkpoint that is read and written leaves a
-- progress of its own attempt, at the phase that it is about, with every phase that the run has
-- completed so far, in order: a lost checkpoint is made up for by the next one. Nobody else writes
-- the policy between the read and the patch.
pub last_checkpoint :
    (ws : List Write) (w : Write) (phase : Phase) (r : ProgressReporter) (p : ClusterSwitchPolicy)
    → phase_of w.call ≡ some phase
    → IsWritten w
    → IsAt r.attempt_id phase
        (r.completed ++ completed_by (ws ++ (w ∷ [])))
        (report_all (ws ++ (w ∷ [])) (r, p)).1
unfolding report_all report
last_checkpoint [] w phase r p h k =
    rw (append-nil (completed_of w.call)) (report_call-IsAt w.call w phase r p h k)
last_checkpoint (v ∷ ws) w phase r p h k =
    let next = report_call v.call v r p in
    let reporter = report_call-reporter v.call v r p in
    moved phase (report_all (ws ++ (w ∷ [])) next).1 (last_checkpoint ws w phase next.0 next.1 h k)
      (ap (λ q. q.attempt_id) reporter)
      (ap (λ q. q.completed ++ completed_by (ws ++ (w ∷ []))) reporter
        ∙ append_assoc r.completed (completed_of v.call) (completed_by (ws ++ (w ∷ []))))

-- The progress is of this attempt, and a phase is recorded as failed.
abbrev pub IsFailed : String → Option SwitchoverProgress → Type 0
IsFailed attempt none = ⊥
IsFailed attempt (some prog) = (prog.attempt_id ≡ attempt) × (prog.failed_phase ≢ "")

write_progress-IsFailed :
    (attempt : String) (r : ProgressReporter) (w : Write) (current failed : String)
    (message : Message) (completed : List String) (p : ClusterSwitchPolicy)
    → r.attempt_id ≡ attempt
    → IsFailed attempt p.status.switchover_progress
    → IsFailed attempt
        (write_progress r w current failed message completed p).status.switchover_progress
unfolding write_progress
write_progress-IsFailed attempt r w current failed message completed p same h =
    ground (arith, h, eq_iff attempt r.attempt_id, eq_iff failed "")

report_call-IsFailed :
    (attempt : String) (c : Call) (w : Write) (r : ProgressReporter) (p : ClusterSwitchPolicy)
    → r.attempt_id ≡ attempt
    → IsFailed attempt p.status.switchover_progress
    → IsFailed attempt (report_call c w r p).1.status.switchover_progress
unfolding report_call
report_call-IsFailed attempt (on_phase_start q) w r p same h =
    write_progress-IsFailed attempt r w (phase_text q) "" [] r.completed p same h
report_call-IsFailed attempt (on_phase_complete q) w r p same h =
    write_progress-IsFailed attempt (with_completed r q) w (phase_text q) "" []
      (r.completed ++ (phase_text q ∷ [])) p same h
report_call-IsFailed attempt (on_phase_error q e) w r p same h =
    write_progress-IsFailed attempt r w (phase_text q) (phase_text q) (printed e) r.completed p same
      h
report_call-IsFailed attempt _ w r p same h = h

stays :
    (ws : List Write) (attempt : String) (r : ProgressReporter) (p : ClusterSwitchPolicy)
    → r.attempt_id ≡ attempt
    → IsFailed attempt p.status.switchover_progress
    → IsFailed attempt (report_all ws (r, p)).1.status.switchover_progress
unfolding report_all report
stays [] attempt r p same h = h
stays (w ∷ ws) attempt r p same h =
    let next = report_call w.call w r p in
    stays ws attempt next.0 next.1
      (ap (λ q. q.attempt_id) (report_call-reporter w.call w r p) ∙ same)
      (report_call-IsFailed attempt w.call w r p same h)

-- Once the progress of an attempt records a failed phase, every sequence of checkpoints of that
-- attempt leaves a progress of it with a failed phase, also those of phases that complete later:
-- the reporter never takes a failure back.
pub failure_stays :
    (ws : List Write) (r : ProgressReporter) (p : ClusterSwitchPolicy)
    → IsFailed r.attempt_id p.status.switchover_progress
    → IsFailed r.attempt_id (report_all ws (r, p)).1.status.switchover_progress
failure_stays ws r p h = stays ws r.attempt_id r p refl h
