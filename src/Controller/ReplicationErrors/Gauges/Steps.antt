-- ===== src/Controller/ReplicationErrors/Gauges/Steps.antt =====
-- What the steps of a cycle do to a gauge and to the active keys.
use mysql_keeper.Prelude.{
  ◌≡◌, inl, inr, refl, ap, sym, ◌∙◌, List, [], ◌∷◌, Bool, true, false, ◌&&◌, ◌||◌, Option, none,
  some, if◌then◌else◌, map, arith, Bool-cases, Option-cases,
}
use mysql_keeper.Prelude.Int.{ℤ}
use mysql_keeper.Controller.ReplicationErrors.LabelKey.{
  Bytes, Labels, HasNoNul, label_key, parse_label_key, parse-label_key, label_key-parse,
}
use mysql_keeper.Controller.ReplicationErrors.Gauges.{
  Series, GaugeValues, LabelState, bytes_eq, series_eq, set_gauge, key_mem, remember, error_key,
  series_of, preseed, mark, stale, zero_series, reset_gauges,
}
use mysql_keeper.Controller.ReplicationErrors.Gauges.Keys.{
  bytes_eq_sound, bytes_eq_refl, key_mem-remember, starts_with-rest, parse_label_key-first,
  series_eq_sound, same_labels,
}

-- Whether the reset of a key is one of a gauge.
abbrev pub labels_hit : Series → Option Labels → Bool
labels_hit x none = false
labels_hit x (some (u, r, c, e)) = series_eq x (r, c, e)

module _ (errno_text : ℤ → Bytes) (uid role channel : Bytes) where
  pub key_mem-mark :
      (k : Bytes) (es : List ℤ) (st : LabelState)
      → key_mem k (mark errno_text uid role channel es st).active
        ≡ (key_mem k (map (error_key errno_text uid role channel) es) || key_mem k st.active)
  unfolding mark key_mem
  key_mem-mark k [] st = refl
  key_mem-mark k (e ∷ es) st =
      let k' = error_key errno_text uid role channel e in
      let ih = key_mem-mark k es (record st {
        active = remember k' st.active;
        gauge = set_gauge (series_of errno_text uid role channel e) true st.gauge;
      }) in
      ground (arith, key_mem-remember k k' st.active)

  pub mark-gauge :
      (r c e : Bytes) (es : List ℤ) (st : LabelState)
      → (mark errno_text uid role channel es st).gauge (r, c, e) ≡ (
          if bytes_eq r role && bytes_eq c channel && key_mem e (map errno_text es)
          then some true
          else st.gauge (r, c, e))
  unfolding mark key_mem
  mark-gauge r c e [] st = ground arith
  mark-gauge r c e (n ∷ es) st =
      let ih = mark-gauge r c e es (record st {
        active = remember (error_key errno_text uid role channel n) st.active;
        gauge = set_gauge (series_of errno_text uid role channel n) true st.gauge;
      }) in
      ground arith

  pub preseed-active :
      (es : List ℤ) (st : LabelState)
      → (preseed errno_text uid role channel es st).active ≡ st.active
  unfolding preseed
  preseed-active [] st = refl
  preseed-active (e ∷ es) st =
      elim (Bool-cases (key_mem (error_key errno_text uid role channel e) st.active)) [
        | inl there ↦ simp (there) (preseed-active es st)
        | inr missing ↦ simp (missing) (preseed-active es _)
      ]

  pub preseed-gauge :
      (x : Series) (es : List ℤ) (st : LabelState)
      → (preseed errno_text uid role channel es st).gauge x ≡ some true
      → st.gauge x ≡ some true
  unfolding preseed
  preseed-gauge x [] st h = h
  preseed-gauge x (e ∷ es) st h =
      elim (Bool-cases (key_mem (error_key errno_text uid role channel e) st.active)) [
        | inl there ↦ preseed-gauge x es st (simp (there) at h)
        | inr missing ↦ let before = preseed-gauge x es _ (simp (missing) at h) in ground arith
      ]

  unfoldable pub zeroed : List Bytes → Series → List Bytes → Bool
  zeroed current x [] = false
  zeroed current x (k ∷ ks) =
      zeroed current x ks
      || (stale errno_text uid role channel current k && labels_hit x (parse_label_key k))

  zero_series-at :
      (x : Series) (l : Option Labels) (g : GaugeValues)
      → zero_series errno_text uid role channel l g x ≡ (if labels_hit x l then some false else g x)
  zero_series-at x none g = refl
  zero_series-at x (some (u, r, c, e)) g = refl

  pub reset_gauges-at :
      (current : List Bytes) (x : Series) (ks : List Bytes) (g : GaugeValues)
      → reset_gauges errno_text uid role channel current ks g x
        ≡ (if zeroed current x ks then some false else g x)
  unfolding reset_gauges zeroed
  reset_gauges-at current x [] g = refl
  reset_gauges-at current x (k ∷ ks) g =
      elim (Bool-cases (stale errno_text uid role channel current k)) [
        | inl old ↦ simp (old) (
            reset_gauges-at current x ks _ ∙ ground (arith, zero_series-at x (parse_label_key k) g))
        | inr kept ↦ simp (kept) (reset_gauges-at current x ks g ∙ ground arith)
      ]

  pub zeroed-false :
      (current : List Bytes) (x : Series) (k : Bytes) (ks : List Bytes)
      → zeroed current x ks ≡ false
      → key_mem k ks ≡ true
      → stale errno_text uid role channel current k ≡ true
      → labels_hit x (parse_label_key k) ≡ false
  unfolding zeroed key_mem
  zeroed-false current x k [] h m s = cc
  zeroed-false current x k (l ∷ ls) h m s = elim (Bool-cases (bytes_eq k l)) [
    | inl same ↦ ground (arith, bytes_eq_sound k l same)
    | inr other ↦ zeroed-false current x k ls (ground arith) (ground arith) s
  ]

  pub zeroed-true :
      (current : List Bytes) (x : Series) (ks : List Bytes)
      → zeroed current x ks ≡ true
      → (k : Bytes) × (stale errno_text uid role channel current k ≡ true)
        × (labels_hit x (parse_label_key k) ≡ true)
  unfolding zeroed
  zeroed-true current x [] h = cc
  zeroed-true current x (k ∷ ks) h = elim (Bool-cases (zeroed current x ks)) [
    | inl later ↦ zeroed-true current x ks later
    | inr now ↦ (k, ground arith, ground arith)
  ]

module _ (errno_text : ℤ → Bytes) (uid role channel : Bytes) (u : HasNoNul uid) (r : HasNoNul role)
    (c : HasNoNul channel) where
  -- The key of an error that was found is that of a series of this role and channel.
  pub key_mem-error_key :
      (role' channel' e : Bytes) (found : List ℤ)
      → HasNoNul role'
      → HasNoNul channel'
      → key_mem
          (label_key (uid, role', channel', e))
          (map (error_key errno_text uid role channel) found)
        ≡ true
      → (role' ≡ role) × (channel' ≡ channel) × (key_mem e (map errno_text found) ≡ true)
  unfolding key_mem
  key_mem-error_key role' channel' e [] r' c' h = cc
  key_mem-error_key role' channel' e (n ∷ ns) r' c' h =
      let k = label_key (uid, role', channel', e) in
      let l = error_key errno_text uid role channel n in
      elim (Bool-cases (bytes_eq k l)) [
        | inl same ↦
            let parsed =
              sym (parse-label_key uid role' channel' e u r' c')
              ∙ ap parse_label_key (bytes_eq_sound k l same)
              ∙ parse-label_key uid role channel (errno_text n) u r c in
            let (_, a, b, t) = same_labels parsed in (a, b, ground (arith, bytes_eq_refl e))
        | inr other ↦
            let (a, b, m) = key_mem-error_key role' channel' e ns r' c' (ground arith) in
            (a, b, ground arith)
      ]

  pub key_mem-found :
      (e : Bytes) (found : List ℤ)
      → key_mem e (map errno_text found) ≡ true
      → key_mem
          (label_key (uid, role, channel, e))
          (map (error_key errno_text uid role channel) found)
        ≡ true
  unfolding key_mem
  key_mem-found e [] m = m
  key_mem-found e (n ∷ ns) m = elim (Bool-cases (bytes_eq e (errno_text n))) [
    | inl same ↦ ground (
      arith,
      bytes_eq_sound e (errno_text n) same,
      bytes_eq_refl (label_key (uid, role, channel, e)),
    )
    | inr other ↦ let rest = key_mem-found e ns (ground arith) in ground arith
  ]

  -- A stale key is of no series that was found.
  pub stale-hit :
      (e k : Bytes) (found : List ℤ)
      → key_mem e (map errno_text found) ≡ true
      → stale errno_text uid role channel (map (error_key errno_text uid role channel) found) k
        ≡ true
      → labels_hit (role, channel, e) (parse_label_key k) ≡ true
      → ⊥
  unfolding stale parse_label_key
  stale-hit e k found m s h = elim (Option-cases (parse_label_key k)) [
    | inl unread ↦ cc
    | inr ((u', r', c', e'), read) ↦
        let (a, b, t) = series_eq_sound role channel e r' c' e' (simp (read) at h) in
        let (rest, starts) = starts_with-rest uid k (ground arith) in
        let first = parse_label_key-first uid rest u' r' c' e' u (rw starts at read) in
        let joined = label_key-parse k (u', r', c', e') read in
        let there = key_mem-found e found m in ground arith
  ]
