-- ===== src/Controller/ReplicationErrors/Gauges.antt =====
-- The metric of observeReplicationErrors in replication_errors.go: a gauge per role, channel and
-- error number, and the keys of those that are active. A text is its bytes; `errno_text` is
-- strconv.FormatInt. activeReplicationErrorLabels is the list of its keys.
pub mod Keys
pub mod Steps
pub mod Exact
mod Tests
use mysql_keeper.Prelude.{
  ℕ, List, [], ◌∷◌, ◌++◌, Bool, true, false, not, ◌&&◌, ◌||◌, Option, none, some, if◌then◌else◌,
  ◌==◌, map, keep, is_empty,
}
use mysql_keeper.Prelude.Int.{ℤ, pos}
use mysql_keeper.Controller.ReplicationErrors.LabelKey.{Bytes, Labels, label_key, parse_label_key}

-- The labels of a gauge: role, channel and error number.
abbrev pub Series : Type 0
Series = Bytes × Bytes × Bytes

unfoldable pub bytes_eq : Bytes → Bytes → Bool
bytes_eq [] [] = true
bytes_eq (c ∷ cs) (d ∷ ds) = c == d && bytes_eq cs ds
bytes_eq _ _ = false

abbrev pub series_eq : Series → Series → Bool
series_eq (r, c, e) (r', c', e') = bytes_eq r r' && bytes_eq c c' && bytes_eq e e'

-- The gauges that were set, and the keys that are active.
abbrev pub GaugeValues : Type 0
GaugeValues = Series → Option Bool

abbrev pub set_gauge : Series → Bool → GaugeValues → GaugeValues
set_gauge s v g x = if series_eq x s then some v else g x

unfoldable pub key_mem : Bytes → List Bytes → Bool
key_mem k [] = false
key_mem k (l ∷ ls) = bytes_eq k l || key_mem k ls

abbrev pub remember : Bytes → List Bytes → List Bytes
remember k ks = if key_mem k ks then ks else k ∷ ks

pub record LabelState : Type 0 where
  pub active : List Bytes
  pub gauge : GaugeValues

unfoldable pub starts_with : Bytes → Bytes → Bool
starts_with [] s = true
starts_with (c ∷ cs) [] = false
starts_with (c ∷ cs) (d ∷ ds) = c == d && starts_with cs ds

abbrev pub preseed_errnos : List ℤ → List ℤ
preseed_errnos whitelist = if is_empty whitelist then pos 1062 ∷ pos 1032 ∷ [] else whitelist

module _ (errno_text : ℤ → Bytes) (uid role channel : Bytes) where
  abbrev pub error_key : ℤ → Bytes
  error_key errno = label_key (uid, role, channel, errno_text errno)

  abbrev pub series_of : ℤ → Series
  series_of errno = (role, channel, errno_text errno)

  -- Whitelisted errors that are not active have a gauge, at 0.
  pub preseed : List ℤ → LabelState → LabelState
  preseed [] st = st
  preseed (e ∷ es) st = preseed es (
      if key_mem (error_key e) st.active
      then st
      else record st { gauge = set_gauge (series_of e) false st.gauge })

  -- The errors of this cycle have theirs at 1, and are active.
  pub mark : List ℤ → LabelState → LabelState
  mark [] st = st
  mark (e ∷ es) st = mark es (record st {
    active = remember (error_key e) st.active;
    gauge = set_gauge (series_of e) true st.gauge;
  })

  -- A key of this policy that is active and was not seen in this cycle.
  pub stale : List Bytes → Bytes → Bool
  stale current k = starts_with (uid ++ 0 ∷ []) k && not (key_mem k current)

  abbrev zero_series : Option Labels → GaugeValues → GaugeValues
  zero_series none g = g
  zero_series (some (u, r, c, e)) g = set_gauge (r, c, e) false g

  -- The gauges of stale keys go back to 0.
  pub reset_gauges : List Bytes → List Bytes → GaugeValues → GaugeValues
  unfolding stale
  reset_gauges current [] g = g
  reset_gauges current (k ∷ ks) g =
      reset_gauges current ks (if stale current k then zero_series (parse_label_key k) g else g)

  pub reset_stale : List ℤ → LabelState → LabelState
  unfolding reset_gauges
  reset_stale found st =
      let current = map error_key found in
      record {
        active = keep (λ k. not (stale current k)) st.active;
        gauge = reset_gauges current st.active st.gauge;
      }

  -- A cycle: of one that has found no answer of DetectWorkerErrors, the gauges that are seeded only.
  unfoldable pub label_cycle : List ℤ → Option (List ℤ) → LabelState → LabelState
  unfolding preseed mark reset_stale
  label_cycle whitelist none st = preseed (preseed_errnos whitelist) st
  label_cycle whitelist (some found) st =
      reset_stale found (mark found (preseed (preseed_errnos whitelist) st))
