-- ===== src/Switchover/PreFlight/Gtid/Quiet.antt =====
-- The checks change nothing: a predicate of traces that reading calls keep holds after them.
use mysql_keeper.Prelude.{◌≡◌, refl, ◌∙◌, ◌∷◌, false, ◌&&◌, Bool-cases, str_eq, inl, inr}
use mysql_keeper.Go.Error.{Outcome, Result, ok, err}
use mysql_keeper.Pxc.Gtid.{GtidSnapshot}
use mysql_keeper.Switchover.Effects.{
  Env, Call, Trace, ask_snapshot, ending, local, remote, get_gtid_snapshot,
}
use mysql_keeper.Switchover.Writers.{changes}
use mysql_keeper.Switchover.PreFlight.Result.{CheckResult, PreFlight}
use mysql_keeper.Switchover.PreFlight.Gtid.{
  gtid_checks, compare_snapshots, subset_check, wait_check, wait_for_remote, recheck, purge_check,
}

-- What is kept by any event that changes nothing.
abbrev pub IsKept {ℓ} : {B : Type ℓ} → (Trace → B) → Type ℓ
IsKept view = (c : Call) (o : Outcome) (t : Trace) → changes c ≡ false → view ((c, o) ∷ t) ≡ view t

module _ {B : Type 0} (view : Trace → B) (kept : IsKept view) (env : Env) (p : PreFlight) where
  recheck-quiet :
      (c : CheckResult) (l : GtidSnapshot) (o : Outcome) (t : Trace)
      → view (recheck env p c l o t).1 ≡ view t
  unfolding recheck
  recheck-quiet c l (ok x) t = kept _ _ t refl
  recheck-quiet c l (err e) t = refl

  subset_check-quiet :
      (l r : Result GtidSnapshot) (t : Trace) → view (subset_check env p l r t).1 ≡ view t
  unfolding subset_check
  subset_check-quiet (err e) r t = refl
  subset_check-quiet (ok l) (err e) t = refl
  subset_check-quiet (ok l) (ok r) t = kept _ _ t refl

  wait_for_remote-quiet :
      (c : CheckResult) (l r : Result GtidSnapshot) (t : Trace)
      → view (wait_for_remote env p c l r t).1 ≡ view t
  unfolding wait_for_remote
  wait_for_remote-quiet c (err e) r t = refl
  wait_for_remote-quiet c (ok l) (err e) t = refl
  wait_for_remote-quiet c (ok l) (ok r) t = recheck-quiet c l _ _ ∙ kept _ _ t refl

  wait_check-quiet :
      (c : CheckResult) (l r : Result GtidSnapshot) (t : Trace)
      → view (wait_check env p c l r t).1 ≡ view t
  unfolding wait_check
  wait_check-quiet c l r t = elim (Bool-cases c.passed) [
    | inl good ↦ simp (good) refl
    | inr bad ↦ simp (bad) (wait_for_remote-quiet c l r t)
  ]

  purge_check-quiet :
      (l r : Result GtidSnapshot) (t : Trace) → view (purge_check env p l r t).1 ≡ view t
  unfolding purge_check
  purge_check-quiet (err e) r t = refl
  purge_check-quiet (ok l) (err e) t = refl
  purge_check-quiet (ok l) (ok r) t = elim (Bool-cases (str_eq r.purged "")) [
    | inl empty ↦ simp (empty) refl
    | inr more ↦ simp (more) (kept _ _ t refl)
  ]

  compare_snapshots-quiet : (t : Trace) → view (compare_snapshots env p t).1 ≡ view t
  unfolding compare_snapshots
  compare_snapshots-quiet t =
      let l = ask_snapshot env (get_gtid_snapshot local) t in
      let r = ask_snapshot env (get_gtid_snapshot remote) l.1 in
      let first = subset_check env p l.0 r.0 r.1 in
      let rows = wait_check env p first.0 l.0 r.0 first.1 in
      purge_check-quiet l.0 r.0 rows.1
      ∙ wait_check-quiet first.0 l.0 r.0 first.1
      ∙ subset_check-quiet l.0 r.0 r.1
      ∙ kept (get_gtid_snapshot remote) (ending r.0) l.1 refl
      ∙ kept (get_gtid_snapshot local) (ending l.0) t refl

  pub gtid_checks-quiet : (t : Trace) → view (gtid_checks env p t).1 ≡ view t
  unfolding gtid_checks
  gtid_checks-quiet t = elim (Bool-cases (p.local_inspector && p.remote_inspector)) [
    | inl both ↦ simp (both) (compare_snapshots-quiet t)
    | inr alone ↦ simp (alone) refl
  ]
