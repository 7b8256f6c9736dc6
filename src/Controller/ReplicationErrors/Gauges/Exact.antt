-- ===== src/Controller/ReplicationErrors/Gauges/Exact.antt =====
-- What the gauges show after a cycle.
use mysql_keeper.Prelude.{
  ◌≡◌, ◌↔◌, inl, inr, sym, ◌∙◌, List, ◌∷◌, ◌++◌, true, false, not, ◌&&◌, none, some, map, arith,
  Bool-cases,
}
use mysql_keeper.Prelude.Int.{ℤ}
use mysql_keeper.Controller.ReplicationErrors.LabelKey.{Bytes, HasNoNul, label_key, parse-label_key}
use mysql_keeper.Controller.ReplicationErrors.Gauges.{
  LabelState, bytes_eq, key_mem, preseed_errnos, error_key, preseed, mark, stale, reset_stale,
  label_cycle,
}
use mysql_keeper.Controller.ReplicationErrors.Gauges.Keys.{
  bytes_eq_sound, bytes_eq_refl, starts_with-append, key_mem-keep,
}
use mysql_keeper.Controller.ReplicationErrors.Gauges.Steps.{
  key_mem-mark, mark-gauge, preseed-active, preseed-gauge, zeroed, reset_gauges-at, zeroed-false,
  zeroed-true, key_mem-error_key, key_mem-found, stale-hit,
}

-- Every gauge at 1 has labels without a NUL, and is active under its key for the policy `uid`.
abbrev pub IsTracked : Bytes → LabelState → Type 0
IsTracked uid st =
    (r c e : Bytes)
    → st.gauge (r, c, e) ≡ some true
    → HasNoNul r × HasNoNul c × (key_mem (label_key (uid, r, c, e)) st.active ≡ true)

module _ (errno_text : ℤ → Bytes) (uid role channel : Bytes) (u : HasNoNul uid) (n : HasNoNul role)
    (m : HasNoNul channel) where
  preseed-IsTracked :
      (es : List ℤ) (st : LabelState)
      → IsTracked uid st
      → IsTracked uid (preseed errno_text uid role channel es st)
  preseed-IsTracked es st tracked r c e h =
      rw (preseed-active errno_text uid role channel es st)
        (tracked r c e (preseed-gauge errno_text uid role channel (r, c, e) es st h))

  -- The gauge of a key that is active and was not found is not kept.
  untracked :
      (found : List ℤ) (r c e : Bytes) (ks : List Bytes)
      → HasNoNul r
      → HasNoNul c
      → key_mem (label_key (uid, r, c, e)) ks ≡ true
      → key_mem (label_key (uid, r, c, e)) (map (error_key errno_text uid role channel) found)
        ≡ false
      → zeroed errno_text uid role channel
          (map (error_key errno_text uid role channel) found)
          (r, c, e)
          ks
        ≡ false
      → ⊥
  unfolding stale label_key
  untracked found r c e ks hr hc there unset kept =
      let current = map (error_key errno_text uid role channel) found in
      let k = label_key (uid, r, c, e) in
      let starts = starts_with-append uid (r ++ 0 ∷ (c ++ 0 ∷ e)) in
      let hit =
        zeroed-false errno_text uid role channel current (r, c, e) k ks kept there (ground arith) in
      let read = rw (parse-label_key uid r c e u hr hc) at hit in
      ground (arith, bytes_eq_refl r, bytes_eq_refl c, bytes_eq_refl e)

  shown_was_found :
      (found : List ℤ) (st : LabelState) (r c e : Bytes)
      → IsTracked uid st
      → (reset_stale errno_text uid role channel found
            (mark errno_text uid role channel found st)).gauge
          (r, c, e)
        ≡ some true
      → (r ≡ role) × (c ≡ channel) × (key_mem e (map errno_text found) ≡ true)
  unfolding reset_stale
  shown_was_found found st r c e tracked h =
      let marked = mark errno_text uid role channel found st in
      let current = map (error_key errno_text uid role channel) found in
      let k = label_key (uid, r, c, e) in
      let shown =
        sym
          (reset_gauges-at errno_text uid role channel current (r, c, e) marked.active marked.gauge)
        ∙ h in
      elim (Bool-cases
        (bytes_eq r role && bytes_eq c channel && key_mem e (map errno_text found))) [
          | inl seen ↦ (
            bytes_eq_sound r role (ground arith),
            bytes_eq_sound c channel (ground arith),
            ground arith,
          )
          | inr unseen ↦
              let (hr, hc, active) =
                tracked r c e
                  (ground (arith, mark-gauge errno_text uid role channel r c e found st)) in
              elim (Bool-cases (key_mem k current)) [
                | inl old ↦
                    key_mem-error_key errno_text uid role channel u n m r c e found hr hc old
                | inr unset ↦ absurd (
                    untracked found r c e marked.active hr hc
                      (ground (arith, key_mem-mark errno_text uid role channel k found st)) unset
                      (ground arith))
              ]
        ]

  found_is_shown :
      (found : List ℤ) (st : LabelState) (e : Bytes)
      → key_mem e (map errno_text found) ≡ true
      → (reset_stale errno_text uid role channel found
            (mark errno_text uid role channel found st)).gauge
          (role, channel, e)
        ≡ some true
  unfolding reset_stale
  found_is_shown found st e there =
      let marked = mark errno_text uid role channel found st in
      let current = map (error_key errno_text uid role channel) found in
      reset_gauges-at errno_text uid role channel current (role, channel, e) marked.active
        marked.gauge
      ∙ elim (Bool-cases
          (zeroed errno_text uid role channel current (role, channel, e) marked.active)) [
            | inl lost ↦
                let (k, old, hit) =
                  zeroed-true errno_text uid role channel current (role, channel, e) marked.active
                    lost in
                absurd (stale-hit errno_text uid role channel u n m e k found there old hit)
            | inr kept ↦ ground (
              arith,
              mark-gauge errno_text uid role channel role channel e found st,
              bytes_eq_refl role,
              bytes_eq_refl channel,
            )
          ]

  found-active :
      (found : List ℤ) (st : LabelState) (e : Bytes)
      → key_mem e (map errno_text found) ≡ true
      → key_mem
          (label_key (uid, role, channel, e))
          (reset_stale errno_text uid role channel found
            (mark errno_text uid role channel found st)).active
        ≡ true
  unfolding reset_stale stale
  found-active found st e there =
      let k = label_key (uid, role, channel, e) in
      let current = map (error_key errno_text uid role channel) found in
      let seen = key_mem-found errno_text uid role channel u n m e found there in
      key_mem-keep (λ k. not (stale errno_text uid role channel current k)) k _ (ground arith)
        (ground (arith, key_mem-mark errno_text uid role channel k found st))

  -- For one policy, whose uid, role and channel have no NUL in them, and gauges of which each that
  -- is at 1 has an active key of the policy: after a cycle in which DetectWorkerErrors answered, a
  -- gauge is at 1 exactly if it is that of an error of this cycle on the policy's role and channel,
  -- and each that is at 1 has an active key of the policy, as after a cycle without an answer.
  pub cycle-IsExact :
      (whitelist found : List ℤ) (st : LabelState)
      → IsTracked uid st
      → (let next = label_cycle errno_text uid role channel whitelist (some found) st in
          ((r c e : Bytes)
            → (next.gauge (r, c, e) ≡ some true)
              ↔ ((r ≡ role) × (c ≡ channel) × (key_mem e (map errno_text found) ≡ true)))
          × IsTracked uid next
          × IsTracked uid (label_cycle errno_text uid role channel whitelist none st))
  unfolding label_cycle
  cycle-IsExact whitelist found st tracked =
      let es = preseed_errnos whitelist in
      let seeded = preseed errno_text uid role channel es st in
      let kept = preseed-IsTracked es st tracked in
      (
        λ r c e. (
          λ h. shown_was_found found seeded r c e kept h,
          λ h. let (a, b, there) = h in rw (a, b) (found_is_shown found seeded e there),
        ),
        λ r c e h.
            let (a, b, there) = shown_was_found found seeded r c e kept h in
            rw (a, b) (n, m, found-active found seeded e there),
        kept,
      )
