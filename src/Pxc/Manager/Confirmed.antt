-- ===== src/Pxc/Manager/Confirmed.antt =====
-- What a call that opens or closes a cluster has seen when it succeeds.
use mysql_keeper.Prelude.{
  ℕ, zero, suc, ◌≡◌, refl, ◌⊎◌, inl, String, List, [], ◌∷◌, Bool, true, false, Option, none, some,
  arith, eq_iff,
}
use mysql_keeper.Go.Error.{Outcome, Result, ok, err, done}
use mysql_keeper.Pxc.Manager.{
  with_source, Channel, Crd, Manager, Event, Trace, Env, M, did, crd_read, observe, verify, waited,
  look, observed, patch_is_source, got_crd, to_patch, patched, crd_first, attempted, wait,
  patch_crd,
}

abbrev pub Has : Event → Trace → Type 0
Has e [] = ⊥
Has e (f ∷ t) = (f ≡ e) ⊎ Has e t

-- Some channel of the name has the value.
abbrev pub Shows : String → Bool → List Channel → Type 0
Shows name wanted [] = ⊥
Shows name wanted (c ∷ cs) = ((c.name ≡ name) × (c.is_source ≡ wanted)) ⊎ Shows name wanted cs

-- A read of the resource showed the value.
abbrev pub IsConfirmed : String → Bool → Trace → Type 0
IsConfirmed name wanted t =
    (cs : List Channel) × Has (crd_read (ok (some cs))) t × Shows name wanted cs

observe-Shows :
    (name : String) (wanted : Bool) (cs : List Channel) (last : Bool)
    → observe name wanted cs last ≡ none
    → Shows name wanted cs
unfolding observe
observe-Shows name wanted [] last h = ground arith
observe-Shows name wanted (c ∷ cs) last h = ground (
  arith,
  eq_iff c.name name,
  observe-Shows name wanted cs last,
  observe-Shows name wanted cs c.is_source,
)

module _ (env : Env) (m : Manager) where
  -- A call that returns no error has confirmed the value.
  abbrev pub Confirms : Bool → M Outcome → Type 0
  Confirms wanted f = (t : Trace) → (f t).0 ≡ done → IsConfirmed m.channel_name wanted (f t).1

  observed-Confirms :
      (again : Bool → M Outcome) (wanted last : Bool) (cs : List Channel) (o : Option Bool)
      (t : Trace)
      → ((l : Bool) → Confirms wanted (again l))
      → observe m.channel_name wanted cs last ≡ o
      → Has (crd_read (ok (some cs))) t
      → (observed env m again o t).0 ≡ done
      → IsConfirmed m.channel_name wanted (observed env m again o t).1
  unfolding observed
  observed-Confirms again wanted last cs none t ih same here h =
      (cs, here, observe-Shows m.channel_name wanted cs last same)
  observed-Confirms again wanted last cs (some l) t ih same here h = ih l t h

  look-Confirms :
      (again : Bool → M Outcome) (wanted last : Bool) (r : Result Crd) (t : Trace)
      → ((l : Bool) → Confirms wanted (again l))
      → (look env m again wanted last r (crd_read r ∷ t)).0 ≡ done
      → IsConfirmed m.channel_name wanted (look env m again wanted last r (crd_read r ∷ t)).1
  unfolding look
  look-Confirms again wanted last (err e) t ih h = ih last (crd_read (err e) ∷ t) h
  look-Confirms again wanted last (ok none) t ih h = absurd (ground arith)
  look-Confirms again wanted last (ok (some cs)) t ih h =
      observed-Confirms again wanted last cs (observe m.channel_name wanted cs last)
        (crd_read (ok (some cs)) ∷ t) ih refl (inl refl) h

  waited-Confirms :
      (again : Bool → M Outcome) (wanted last : Bool) (o : Outcome)
      → ((l : Bool) → Confirms wanted (again l))
      → Confirms wanted (waited env m again wanted last o)
  unfolding waited
  waited-Confirms again wanted last (err e) ih t h = absurd (ground arith)
  waited-Confirms again wanted last (ok _) ih t h =
      look-Confirms again wanted last (env.read_crd t) t ih h

  verify-Confirms :
      (wanted : Bool) (n : ℕ) (last : Bool) → Confirms wanted (verify env m wanted n last)
  unfolding verify
  verify-Confirms wanted zero last t h = absurd (ground arith)
  verify-Confirms wanted (suc n) last t h =
      waited-Confirms (verify env m wanted n) wanted last (env.outcome t wait)
        (verify-Confirms wanted n) (did wait (env.outcome t wait) ∷ t) h

  patched-Confirms : (wanted : Bool) (o : Outcome) → Confirms wanted (patched env m wanted o)
  unfolding patched
  patched-Confirms wanted (err e) t h = absurd (ground arith)
  patched-Confirms wanted (ok _) t h = verify-Confirms wanted 5 false t h

  to_patch-Confirms :
      (wanted : Bool) (o : Option (List Channel)) → Confirms wanted (to_patch env m wanted o)
  unfolding to_patch
  to_patch-Confirms wanted none t h = absurd (ground arith)
  to_patch-Confirms wanted (some cs) t h =
      let o = env.outcome t (patch_crd cs) in patched-Confirms wanted o (did (patch_crd cs) o ∷ t) h

  got_crd-Confirms : (wanted : Bool) (r : Result Crd) → Confirms wanted (got_crd env m wanted r)
  unfolding got_crd
  got_crd-Confirms wanted (err e) t h = absurd (ground arith)
  got_crd-Confirms wanted (ok none) t h = absurd (ground arith)
  got_crd-Confirms wanted (ok (some cs)) t h =
      to_patch-Confirms wanted (with_source m.channel_name wanted cs) t h

  attempted-Confirms :
      (wanted : Bool) (n : ℕ) (o : Outcome) (t : Trace)
      → (o ≡ done → IsConfirmed m.channel_name wanted t)
      → ((t' : Trace)
          → (crd_first env m wanted n t').0 ≡ true
          → IsConfirmed m.channel_name wanted (crd_first env m wanted n t').1)
      → (attempted env m (crd_first env m wanted n) o t).0 ≡ true
      → IsConfirmed m.channel_name wanted (attempted env m (crd_first env m wanted n) o t).1
  unfolding attempted
  attempted-Confirms wanted n (ok _) t now later h = now refl
  attempted-Confirms wanted n (err e) t now later h = later t h

  pub crd_first-IsConfirmed :
      (wanted : Bool) (n : ℕ) (t : Trace)
      → (crd_first env m wanted n t).0 ≡ true
      → IsConfirmed m.channel_name wanted (crd_first env m wanted n t).1
  unfolding crd_first patch_is_source
  crd_first-IsConfirmed wanted zero t h = absurd (ground arith)
  crd_first-IsConfirmed wanted (suc n) t h =
      let r = env.read_crd t in
      let step = got_crd env m wanted r (crd_read r ∷ t) in
      attempted-Confirms wanted n step.0 step.1 (got_crd-Confirms wanted r (crd_read r ∷ t))
        (crd_first-IsConfirmed wanted n) h
