-- ===== src/Controller/ReplicationErrors/Cycle/Announced.antt =====
-- What the events of a cycle tell of the quarantine.
use mysql_keeper.Prelude.{
  String, ◌≡◌, List, [], ◌∷◌, ◌++◌, Bool, true, false, not, ◌&&◌, Option, none, some, if◌then◌else◌,
  map, arith, refl, Bool-cases, inl, inr, ◌∙◌,
}
use mysql_keeper.Prelude.Int.{ℤ, pos, ltb_ℤ}
use mysql_keeper.Controller.ReplicationErrors.History.{effective_replication_error_handling}
use mysql_keeper.Go.Time.{Time}
use mysql_keeper.Go.Error.{Result, ok, err}
use mysql_keeper.Api.{ClusterSwitchPolicy}
use mysql_keeper.Api.Spec.{AutoSkipConfig}
use mysql_keeper.Api.Status.{ReplicationErrorEntry, Condition}
use mysql_keeper.Health.{ClusterHealth}
use mysql_keeper.Pxc.Replication.{WorkerError}
use mysql_keeper.Controller.ReplicationErrors.Skip.{is_currently_quarantined}
use mysql_keeper.Controller.ReplicationErrors.Quarantine.{Quarantine}
use mysql_keeper.Controller.ReplicationErrors.Cycle.{
  Inspector, ReplicationErrorOutcome, observe_replication_errors, entry_of, detection_step,
}
use mysql_keeper.Controller.ReplicationErrors.Status.{update_replication_error_status}
use mysql_keeper.Controller.ReplicationErrors.Status.Sticky.{status_follows_outcome}
use mysql_keeper.Controller.ReplicationErrors.Cycle.Events.{
  ErrorEvent, gtid_gap_high, first_new, quarantine_event, detection_events, is_asked, is_answered,
  cycle_events, tells_entered, tells_cleared,
}

module _ (known : ReplicationErrorEntry → Bool) where
  first_new-told :
      (errors : List ReplicationErrorEntry) (es : List ErrorEvent)
      → (tells_entered (first_new known errors ++ es) ≡ tells_entered es)
        × (tells_cleared (first_new known errors ++ es) ≡ tells_cleared es)
  unfolding first_new
  first_new-told [] es = (refl, refl)
  first_new-told (e ∷ errors) es = elim (Bool-cases (known e)) [
    | inl old ↦ simp (old) (first_new-told errors es)
    | inr new ↦ simp (new) (refl, refl)
  ]

quarantine_event-told :
    (was : Bool) (q : Quarantine) (a : String)
    → (tells_entered (quarantine_event was q a) ≡ (not was && q.active))
      × (tells_cleared (quarantine_event was q a) ≡ (was && not q.active))
unfolding quarantine_event
quarantine_event-told was q a = ground arith

module _ (policy : ClusterSwitchPolicy) (known : ReplicationErrorEntry → Bool) (q : Quarantine)
    (now : Time) where
  detection_events-told :
      (d : Option (Result (List WorkerError)))
      → (let es = detection_events policy known q now d in
          let was = is_currently_quarantined policy in
          (tells_entered es ≡ (is_answered d && not was && q.active))
          × (tells_cleared es ≡ (is_answered d && was && not q.active)))
  unfolding detection_events
  detection_events-told none = (refl, refl)
  detection_events-told (some (err e)) = (refl, refl)
  detection_events-told (some (ok workers)) =
      let was = is_currently_quarantined policy in
      let a = policy.metadata.clear_quarantine in
      let (x, y) = first_new-told known (map (entry_of now) workers) (quarantine_event was q a) in
      let (x', y') = quarantine_event-told was q a in (x ∙ x', y ∙ y')

gap_told :
    (gap : Bool) (n : ℤ) (es : List ErrorEvent)
    → (let all = (if gap then gtid_gap_high n ∷ [] else []) ++ es in
        (tells_entered all ≡ tells_entered es) × (tells_cleared all ≡ tells_cleared es))
gap_told true n es = (refl, refl)
gap_told false n es = (refl, refl)

unanswered :
    (policy : ClusterSwitchPolicy) (comps : Inspector) (cfg : AutoSkipConfig) (gap : Bool)
    (missing : ℤ) (d : Option (Result (List WorkerError))) (now later : Time)
    → is_answered d ≡ false
    → (detection_step policy comps.skipper cfg gap missing d now later).quarantine.active ≡ false
unfolding detection_step
unanswered policy comps cfg gap missing none now later h = refl
unanswered policy comps cfg gap missing (some (err e)) now later h = refl
unanswered policy comps cfg gap missing (some (ok workers)) now later h = cc

unread :
    (policy : ClusterSwitchPolicy) (comps : Inspector) (local_h : ClusterHealth) (missing : ℤ)
    (measured : Bool) (now later : Time)
    → (is_asked policy comps local_h && is_answered comps.detected) ≡ false
    → (observe_replication_errors policy comps local_h missing measured now later).quarantine.active
      ≡ false
unfolding observe_replication_errors
unread policy comps local_h missing measured now later h =
    let cfg = effective_replication_error_handling policy in
    let gap =
      measured
      && ltb_ℤ (pos 0) cfg.gtid_gap_alert_threshold
      && ltb_ℤ cfg.gtid_gap_alert_threshold missing in
    elim (Bool-cases (is_answered comps.detected)) [
      | inl answered ↦ ground arith
      | inr silent ↦
          let none_active =
            unanswered policy comps cfg.auto_skip gap missing comps.detected now later silent in
          ground arith
    ]

-- Only an answered cycle has a quarantine.
answered_only :
    (a b was active : Bool)
    → ((a && b) ≡ false → active ≡ false)
    → ((a && b && not was && active) ≡ (not was && active))
      × ((a && b && was && not active) ≡ ((a && b) && was && not active))
      × ((active && not (a && b)) ≡ false)
answered_only true true was active h = ground arith
answered_only true false was active h = let none_active = h refl in ground arith
answered_only false b was active h = let none_active = h refl in ground arith

cycle_events-told :
    (policy : ClusterSwitchPolicy) (comps : Inspector) (local_h : ClusterHealth)
    (known : ReplicationErrorEntry → Bool) (out : ReplicationErrorOutcome) (now : Time)
    → (let events = cycle_events policy comps local_h known out now in
        let was = is_currently_quarantined policy in
        let a = is_asked policy comps local_h in
        let b = is_answered comps.detected in
        (tells_entered events ≡ (a && b && not was && out.quarantine.active))
        × (tells_cleared events ≡ (a && b && was && not out.quarantine.active)))
unfolding cycle_events
cycle_events-told policy comps local_h known out now =
    let q = out.quarantine in
    let es = detection_events policy known q now comps.detected in
    let (x, y) = gap_told out.gtid_gap_triggered out.gtid_missing es in
    let (x', y') = detection_events-told policy known q now comps.detected in
    elim (Bool-cases (is_asked policy comps local_h)) [
      | inl asked ↦ simp (asked) (x ∙ x', y ∙ y')
      | inr unasked ↦ simp (unasked) (refl, refl)
    ]

-- A cycle reports that the replica entered the quarantine exactly if the policy was not quarantined
-- before the cycle and is after the update of its status. It reports that the quarantine was
-- cleared exactly if the policy was quarantined and no longer is, and the cycle got an answer about
-- the errors: it had an inspector that can detect them, a channel, a local cluster whose
-- writability is known, and a detection that did not fail. After a cycle that did not get one, no
-- policy is quarantined.
pub cycle_events_tell :
    (set : List Condition → Condition → List Condition) (policy : ClusterSwitchPolicy)
    (comps : Inspector) (local_h : ClusterHealth) (known : ReplicationErrorEntry → Bool)
    (missing : ℤ) (measured : Bool) (now later last : Time)
    → (let out = observe_replication_errors policy comps local_h missing measured now later in
        let events = cycle_events policy comps local_h known out now in
        let is_read = is_asked policy comps local_h && is_answered comps.detected in
        let was = is_currently_quarantined policy in
        let is_now =
          is_currently_quarantined (update_replication_error_status set policy out last) in
        (tells_entered events ≡ (not was && is_now))
        × (tells_cleared events ≡ (is_read && was && not is_now))
        × ((is_now && not is_read) ≡ false))
cycle_events_tell set policy comps local_h known missing measured now later last =
    let out = observe_replication_errors policy comps local_h missing measured now later in
    let (x, y) = cycle_events-told policy comps local_h known out now in
    let (entered, cleared, held) =
      answered_only (is_asked policy comps local_h) (is_answered comps.detected)
        (is_currently_quarantined policy) out.quarantine.active
        (unread policy comps local_h missing measured now later) in
    rw (status_follows_outcome set policy out last) (x ∙ entered, y ∙ cleared, held)
