-- ===== src/Pxc/Manager/Kept.antt =====
-- The trace of a call keeps what it had.
use mysql_keeper.Prelude.{
  ℕ, zero, suc, inl, inr, List, ◌∷◌, Bool, false, Option, none, some, arith, Bool-cases, ◌&&◌,
}
use mysql_keeper.Prelude.Int.{pos, eqb_ℤ}
use mysql_keeper.Go.Error.{Outcome, Result, ok, err}
use mysql_keeper.Pxc.Manager.{
  with_source, observe, Channel, Crd, Manager, Event, Trace, Env, M, did, crd_read, verify, waited,
  look, observed, patch_is_source, got_crd, to_patch, patched, wait, patch_crd, crd_follows,
  stop_inbound,
}
use mysql_keeper.Pxc.Manager.Confirmed.{Has}

module _ (env : Env) (m : Manager) where
  -- Nothing of the trace is lost.
  abbrev pub Extends : {A : Type 0} → M A → Type 0
  Extends f = (e : Event) (t : Trace) → Has e t → Has e (f t).1

  observed-Extends :
      (again : Bool → M Outcome) (o : Option Bool)
      → ((l : Bool) → Extends (again l))
      → Extends (observed env m again o)
  unfolding observed
  observed-Extends again none ih e t h = h
  observed-Extends again (some l) ih e t h = ih l e t h

  look-Extends :
      (again : Bool → M Outcome) (wanted last : Bool) (r : Result Crd)
      → ((l : Bool) → Extends (again l))
      → Extends (look env m again wanted last r)
  unfolding look
  look-Extends again wanted last (err _) ih e t h = ih last e t h
  look-Extends again wanted last (ok none) ih e t h = h
  look-Extends again wanted last (ok (some cs)) ih e t h =
      observed-Extends again (observe m.channel_name wanted cs last) ih e t h

  waited-Extends :
      (again : Bool → M Outcome) (wanted last : Bool) (o : Outcome)
      → ((l : Bool) → Extends (again l))
      → Extends (waited env m again wanted last o)
  unfolding waited
  waited-Extends again wanted last (err _) ih e t h = h
  waited-Extends again wanted last (ok _) ih e t h =
      look-Extends again wanted last (env.read_crd t) ih e (crd_read (env.read_crd t) ∷ t) (inr h)

  verify-Extends : (wanted : Bool) (n : ℕ) (last : Bool) → Extends (verify env m wanted n last)
  unfolding verify
  verify-Extends wanted zero last e t h = h
  verify-Extends wanted (suc n) last e t h =
      let o = env.outcome t wait in
      waited-Extends (verify env m wanted n) wanted last o (verify-Extends wanted n) e
        (did wait o ∷ t) (inr h)

  patched-Extends : (wanted : Bool) (o : Outcome) → Extends (patched env m wanted o)
  unfolding patched
  patched-Extends wanted (err _) e t h = h
  patched-Extends wanted (ok _) e t h = verify-Extends wanted 5 false e t h

  to_patch-Extends : (wanted : Bool) (o : Option (List Channel)) → Extends (to_patch env m wanted o)
  unfolding to_patch
  to_patch-Extends wanted none e t h = h
  to_patch-Extends wanted (some cs) e t h =
      let o = env.outcome t (patch_crd cs) in
      patched-Extends wanted o e (did (patch_crd cs) o ∷ t) (inr h)

  got_crd-Extends : (wanted : Bool) (r : Result Crd) → Extends (got_crd env m wanted r)
  unfolding got_crd
  got_crd-Extends wanted (err _) e t h = h
  got_crd-Extends wanted (ok none) e t h = h
  got_crd-Extends wanted (ok (some cs)) e t h =
      to_patch-Extends wanted (with_source m.channel_name wanted cs) e t h

  pub crd_follows-Extends : (wanted : Bool) → Extends (crd_follows env m wanted)
  unfolding crd_follows patch_is_source
  crd_follows-Extends wanted e t h =
      elim (Bool-cases (m.has_client && eqb_ℤ m.crd_apply_retries (pos 0))) [
        | inl p ↦
            simp (p)
              (got_crd-Extends wanted (env.read_crd t) e (crd_read (env.read_crd t) ∷ t) (inr h))
        | inr p ↦ simp (p) h
      ]

  pub stop_inbound-Extends : Extends (stop_inbound env m)
  unfolding stop_inbound
  stop_inbound-Extends e t h = ground (arith, h)
