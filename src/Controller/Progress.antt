-- ===== src/Controller/Progress.antt =====
-- internal/controller/progress.go: the reporter that writes each phase of a switchover to the policy.
-- It reads the policy anew for each write; a read or a write that fails is logged and forgotten.
pub mod Checkpoints
mod Tests
use mysql_keeper.Prelude.{
  String, List, [], ◌∷◌, ◌++◌, Bool, true, false, not, Option, none, some, if◌then◌else◌, str_eq,
}
use mysql_keeper.Go.Time.{Time}
use mysql_keeper.Go.Error.{Message, printed, Outcome, ok, err}
use mysql_keeper.Api.{ClusterSwitchPolicy}
use mysql_keeper.Api.Status.{SwitchoverProgress}
use mysql_keeper.Switchover.Effects.{Phase, Call, on_phase_start, on_phase_complete, on_phase_error}
use mysql_keeper.Controller.Recovery.{with_status}
use mysql_keeper.Controller.Attempt.{phase_text}

-- The reporter of an attempt.
pub record ProgressReporter : Type 0 where
  pub attempt_id : String
  pub reason : Message
  pub completed : List String

-- A call of the engine, with how the read and the patch of its write end, and the time of it.
pub record Write : Type 0 where
  pub call : Call
  pub get : Outcome
  pub patch : Outcome
  pub now : Time

abbrev new_progress : ProgressReporter → Time → SwitchoverProgress
new_progress r now = record {
  attempt_id = r.attempt_id;
  started_at = now;
  current_phase = "";
  completed_phases = [];
  failed_phase = "";
  reason = r.reason;
  error = [];
}

-- The progress of the policy where it is of this attempt, else a new one.
abbrev pub progress_in : ProgressReporter → Time → Option SwitchoverProgress → SwitchoverProgress
progress_in r now none = new_progress r now
progress_in r now (some prog) =
    if not (str_eq prog.attempt_id r.attempt_id) then new_progress r now else prog

-- The fields that a write sets; a failed phase of "" leaves the one that is there.
abbrev pub checkpoint :
    String → String → Message → List String → SwitchoverProgress → SwitchoverProgress
checkpoint current failed message completed prog =
    let p = record prog { current_phase = current; completed_phases = completed } in
    if not (str_eq failed "") then record p { failed_phase = failed; error = message } else p

-- The policy that the API stores after a write. Nobody else writes between its read and its patch.
unfoldable pub write_progress :
    ProgressReporter
    → Write
    → String
    → String
    → Message
    → List String
    → ClusterSwitchPolicy
    → ClusterSwitchPolicy
write_progress r w current failed message completed policy = elim w.get [
  | err e ↦ policy
  | ok _ ↦ elim w.patch [
    | err e ↦ policy
    | ok _ ↦
        with_status
          (record policy.status {
            switchover_progress = some (
                checkpoint current failed message completed
                  (progress_in r w.now policy.status.switchover_progress));
          })
          policy
  ]
]

abbrev pub with_completed : ProgressReporter → Phase → ProgressReporter
with_completed r phase = record r { completed = r.completed ++ (phase_text phase ∷ []) }

-- OnPhaseStart, OnPhaseComplete and OnPhaseError; the other calls are not the reporter's.
report_call :
    Call → Write → ProgressReporter → ClusterSwitchPolicy → ProgressReporter × ClusterSwitchPolicy
unfolding write_progress
report_call (on_phase_start phase) w r policy =
    (r, write_progress r w (phase_text phase) "" [] r.completed policy)
report_call (on_phase_complete phase) w r policy =
    let r' = with_completed r phase in
    (r', write_progress r' w (phase_text phase) "" [] r'.completed policy)
report_call (on_phase_error phase e) w r policy =
    (r, write_progress r w (phase_text phase) (phase_text phase) (printed e) r.completed policy)
report_call _ w r policy = (r, policy)

unfoldable pub report :
    Write → ProgressReporter × ClusterSwitchPolicy → ProgressReporter × ClusterSwitchPolicy
unfolding report_call
report w (r, policy) = report_call w.call w r policy

-- The writes of a run, in order.
unfoldable pub report_all :
    List Write → ProgressReporter × ClusterSwitchPolicy → ProgressReporter × ClusterSwitchPolicy
unfolding report
report_all [] s = s
report_all (w ∷ ws) s = report_all ws (report w s)
