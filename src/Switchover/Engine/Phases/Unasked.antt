-- ===== src/Switchover/Engine/Phases/Unasked.antt =====
-- The phases after the checks ask for no GTID: what holds over every other call
-- holds over each of them.
use mysql_keeper.Prelude.{
  ◌≡◌, refl, ◌∷◌, Bool, true, false, ◌&&◌, not, Option, none, some, Bool-cases, str_eq, inl, inr,
}
use mysql_keeper.Go.Error.{Error, Outcome, ok, err}
use mysql_keeper.Switchover.Effects.{
  Env, Call, Trace, get_gtid_snapshot, missing_gtids, wait_for_gtid,
}
use mysql_keeper.Switchover.Engine.Phases.{
  Config, ReverseReplicationSource, phase_fence, fence_by, escalate, probe, phase_promote, promoted,
  clear_upstream, phase_routing, phase_reverse_replica, reverse_from, reset_former, phase_verify,
}

abbrev pub is_gtid_query : Call → Bool
is_gtid_query (get_gtid_snapshot _) = true
is_gtid_query (missing_gtids _ _) = true
is_gtid_query (wait_for_gtid _ _ _) = true
is_gtid_query _ = false

-- A relation of an earlier and a later trace that holds over any call but a GTID query.
pub record HoldsOverCalls {ℓ} (R : Trace → Trace → Type ℓ) : Type ℓ where
  pub stay : (t : Trace) → R t t
  pub join : {t u v : Trace} → R t u → R u v → R t v
  pub step : (c : Call) (o : Outcome) (t : Trace) → is_gtid_query c ≡ false → R t ((c, o) ∷ t)

module _ {R : Trace → Trace → Type 0} (over : HoldsOverCalls R) (env : Env) (cfg : Config) where
  escalate-holds : (e : Error) (b : Bool) (t : Trace) → R t (escalate env cfg e b t).1
  unfolding escalate
  escalate-holds e true t = over.stay t
  escalate-holds e false t = elim (Bool-cases cfg.local_proxysql) [
    | inl there ↦ simp (there) (over.step _ _ t refl)
    | inr missing ↦ simp (missing) (over.stay t)
  ]

  probe-holds : (t : Trace) → R t (probe env cfg t).1
  unfolding probe
  probe-holds t = elim (Bool-cases cfg.local_inspector) [
    | inl there ↦ simp (there) (over.step _ _ t refl)
    | inr missing ↦ simp (missing) (over.stay t)
  ]

  fence_by-holds : (o : Outcome) (t : Trace) → R t (fence_by env cfg o t).1
  unfolding fence_by
  fence_by-holds (ok _) t = over.stay t
  fence_by-holds (err e) t =
      let (b, t1) = probe env cfg t in over.join (probe-holds t) (escalate-holds e b t1)

  pub fence-holds : (t : Trace) → R t (phase_fence env cfg t).1
  unfolding phase_fence
  fence-holds t = over.join (over.step _ _ t refl) (fence_by-holds _ _)

  clear_upstream-holds : (t : Trace) → R t (clear_upstream env cfg t).1
  unfolding clear_upstream
  clear_upstream-holds t =
      elim (Bool-cases (cfg.remote_replication && not (str_eq cfg.remote_replication_channel ""))) [
        | inl asked ↦ simp (asked) (over.join (over.step _ _ t refl) (over.step _ _ _ refl))
        | inr skipped ↦ simp (skipped) (over.stay t)
      ]

  promoted-holds : (o : Outcome) (t : Trace) → R t (promoted env cfg o t).1
  unfolding promoted
  promoted-holds (ok _) t = clear_upstream-holds t
  promoted-holds (err e) t = over.stay t

  pub promote-holds : (t : Trace) → R t (phase_promote env cfg t).1
  unfolding phase_promote
  promote-holds t = over.join (over.step _ _ t refl) (promoted-holds _ _)

  pub routing-holds : (t : Trace) → R t (phase_routing env cfg t).1
  unfolding phase_routing
  routing-holds t = elim (Bool-cases cfg.local_proxysql) [
    | inl there ↦ simp (there) (over.step _ _ t refl)
    | inr missing ↦ simp (missing) (over.stay t)
  ]

  reset_former-holds : (o : Outcome) (t : Trace) → R t (reset_former env cfg o t).1
  unfolding reset_former
  reset_former-holds (ok _) t = over.step _ _ t refl
  reset_former-holds (err e) t = over.stay t

  reverse_from-holds :
      (src : Option ReverseReplicationSource) (t : Trace) → R t (reverse_from env cfg src t).1
  unfolding reverse_from
  reverse_from-holds none t = over.stay t
  reverse_from-holds (some s) t = elim (Bool-cases cfg.local_replication) [
    | inl there ↦ simp (there) (over.join (over.step _ _ t refl) (reset_former-holds _ _))
    | inr missing ↦ simp (missing) (over.stay t)
  ]

  pub reverse_replica-holds : (t : Trace) → R t (phase_reverse_replica env cfg t).1
  unfolding phase_reverse_replica
  reverse_replica-holds t = reverse_from-holds cfg.reverse_replication_source t

  pub verify-holds : (t : Trace) → R t (phase_verify env t).1
  unfolding phase_verify
  verify-holds t = over.step _ _ t refl
